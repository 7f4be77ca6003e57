-- ===== src/Net/Tests/Rules.antt =====
-- The theorems on the rules at a table that drops TCP packets to port 23.
use aurora_os.Prelude.{ℕ, ◌≡◌, refl, true, false, ◌==◌, if◌then◌else◌}
use aurora_os.Net.RuleTable.{
  FwAction, FwRule, max_rules, add_rule, match, match_fields, match_from, parse, applies,
}
use aurora_os.Net.RuleTable.First.{IsDecided, match-IsDecided, IsAdded, add_rule-IsAdded}

abbrev no_telnet : FwRule
no_telnet = record {
  enabled = true;
  match_src_ip = false;
  src_ip = 0;
  match_dst_ip = false;
  dst_ip = 0;
  match_src_port = false;
  src_port = 0;
  match_dst_port = true;
  dst_port = 23;
  match_protocol = true;
  protocol = 6;
  match_tcp_flags = false;
  tcp_flags_mask = 0;
  tcp_flags_value = 0;
  match_interface = false;
  interface = 0;
  action = FwAction.drop;
}

-- The rule at place 2 alone.
abbrev rules : ℕ → FwRule
rules i = record no_telnet { enabled = i == 2 }

-- An IPv4 header of 20 bytes, and TCP to port 23.
abbrev packet : ℕ → ℕ
packet i =
    if i == 12 then 8 else if i == 14 then 69 else if i == 23 then 6 else if i == 37 then 23 else 0

match-IsDecided_example : IsDecided rules packet 54 1 (match rules packet 54 1)
match-IsDecided_example = match-IsDecided rules packet 54 1

dropped : match rules packet 54 1 ≡ FwAction.drop
unfolding match match_fields match_from parse applies
dropped = refl

add_rule-IsAdded_example : IsAdded max_rules 0 rules no_telnet (add_rule rules no_telnet)
add_rule-IsAdded_example = add_rule-IsAdded rules no_telnet
