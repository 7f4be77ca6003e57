-- ===== src/Net/RuleTable.antt =====
-- net/firewall/rule_table.hpp and rule_table.cpp: the rules of the packet filter.
pub mod Meets
pub mod First
use aurora_os.Prelude.{
  ℕ, zero, suc, ◌+◌, ◌*◌, ◌%◌, Bool, true, false, not, Option, none, some, ltb, leb, ◌==◌, ◌&&◌,
  ◌||◌, if◌then◌else◌,
}
use aurora_os.Prelude.Store.{update}
use Prim.Native.Nat.{bit_and}

-- `enum class FwAction`
pub data FwAction : Type 0 where
  accept drop reject : FwAction

-- `FwRule`; the interface's name is a number for its eight characters.
pub record FwRule : Type 0 where
  pub enabled : Bool
  pub match_src_ip : Bool
  pub src_ip : ℕ
  pub match_dst_ip : Bool
  pub dst_ip : ℕ
  pub match_src_port : Bool
  pub src_port : ℕ
  pub match_dst_port : Bool
  pub dst_port : ℕ
  pub match_protocol : Bool
  pub protocol : ℕ
  pub match_tcp_flags : Bool
  pub tcp_flags_mask : ℕ
  pub tcp_flags_value : ℕ
  pub match_interface : Bool
  pub interface : ℕ
  pub action : FwAction

abbrev pub max_rules : ℕ
max_rules = 16

-- `add_rule`, whose loop goes over `n` rules from `i` on.
unfoldable pub add_from : ℕ → ℕ → (ℕ → FwRule) → FwRule → Bool × (ℕ → FwRule)
add_from zero i rules rule = (false, rules)
add_from (suc n) i rules rule =
    let rest = add_from n (suc i) rules rule in
    if (rules i).enabled then rest else (true, update rules i (record rule { enabled = true }))

unfoldable pub add_rule : (ℕ → FwRule) → FwRule → Bool × (ℕ → FwRule)
unfolding add_from
add_rule rules rule = add_from max_rules 0 rules rule

-- What `match` reads of a packet.
pub record Fields : Type 0 where
  pub src_ip : ℕ
  pub dst_ip : ℕ
  pub protocol : ℕ
  pub src_port : ℕ
  pub dst_port : ℕ
  pub tcp_flags : ℕ

abbrev pub word16 : (ℕ → ℕ) → ℕ → ℕ
word16 packet i = packet i * 256 + packet (i + 1)

abbrev pub word32 : (ℕ → ℕ) → ℕ → ℕ
word32 packet i =
    packet i * 16777216 + packet (i + 1) * 65536 + packet (i + 2) * 256 + packet (i + 3)

-- The fields of an IPv4 packet with its headers whole, where `header` is the length of the IP header.
abbrev pub fields_at : (ℕ → ℕ) → ℕ → ℕ → Fields
fields_at packet len header =
    let protocol = packet 23 in
    let has_ports = (protocol == 6 || protocol == 17) && leb (14 + header + 4) len in
    record {
      src_ip = word32 packet 26;
      dst_ip = word32 packet 30;
      protocol = protocol;
      src_port = if has_ports then word16 packet (14 + header) else 0;
      dst_port = if has_ports then word16 packet (14 + header + 2) else 0;
      tcp_flags =
          if protocol == 6 && leb (14 + header + 14) len then packet (14 + header + 13) else 0;
    }

-- The early returns of `match`, where `none` accepts the packet.
unfoldable pub parse : (ℕ → ℕ) → ℕ → Option Fields
parse packet len =
    if ltb len 34 || not (word16 packet 12 == 2048)
    then none
    else (let ihl = packet 14 % 16 in
        if ltb ihl 5 || ltb len (14 + ihl * 4) then none else some (fields_at packet len (ihl * 4)))

-- The body of the loop of `match`: the rule decides.
unfoldable pub applies : FwRule → Fields → ℕ → Bool
applies r f interface =
    r.enabled
    && not (r.match_interface && not (r.interface == interface))
    && not (r.match_src_ip && not (r.src_ip == f.src_ip))
    && not (r.match_dst_ip && not (r.dst_ip == f.dst_ip))
    && not (r.match_protocol && not (r.protocol == f.protocol))
    && not (r.match_src_port && not (r.src_port == f.src_port))
    && not (r.match_dst_port && not (r.dst_port == f.dst_port))
    && not (
        r.match_tcp_flags
        && f.protocol == 6
        && not (bit_and f.tcp_flags r.tcp_flags_mask == r.tcp_flags_value))

unfoldable pub match_from : ℕ → ℕ → (ℕ → FwRule) → Fields → ℕ → FwAction
match_from zero i rules f interface = FwAction.accept
match_from (suc n) i rules f interface =
    let rest = match_from n (suc i) rules f interface in
    if applies (rules i) f interface then (rules i).action else rest

unfoldable pub match_fields : (ℕ → FwRule) → Option Fields → ℕ → FwAction
unfolding match_from
match_fields rules none interface = FwAction.accept
match_fields rules (some f) interface = match_from max_rules 0 rules f interface

unfoldable pub match : (ℕ → FwRule) → (ℕ → ℕ) → ℕ → ℕ → FwAction
unfolding match_fields parse
match rules packet len interface = match_fields rules (parse packet len) interface
