-- ===== src/Net/Tests.antt =====
-- The packet filter's theorems at concrete tables of rules.
mod Rules
