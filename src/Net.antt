-- ===== src/Net.antt =====
-- The network's parts.
pub mod RuleTable
mod Tests
