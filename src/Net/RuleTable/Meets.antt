-- ===== src/Net/RuleTable/Meets.antt =====
-- What it is for a packet to meet a rule, in terms of the bytes of the packet.
use aurora_os.Prelude.{
  ℕ, ◌+◌, ◌*◌, ◌%◌, ◌≤◌, ◌<◌, ◌≡◌, refl, ◌⊎◌, inl, inr, true, not, ◌||◌, ltb, ◌==◌, none, some,
  arith, Bool-cases,
}
use Prim.Native.Nat.{bit_and}
use aurora_os.Net.RuleTable.{FwRule, Fields, applies, fields_at, parse}

-- The length of the IP header, behind the 14 bytes of the Ethernet header.
abbrev pub header_length : (ℕ → ℕ) → ℕ
header_length packet = packet 14 % 16 * 4

-- An IPv4 packet whose headers are whole, with an IP header of 20 bytes or more.
pub record IsReadable (packet : ℕ → ℕ) (len : ℕ) : Type 0 where
  pub headers : 34 ≤ len
  pub is_ipv4 : packet 12 * 256 + packet 13 ≡ 2048
  pub least : 20 ≤ header_length packet
  pub whole : 14 + header_length packet ≤ len

-- A TCP or UDP packet that has its ports.
abbrev pub HasPorts : (ℕ → ℕ) → ℕ → Type 0
HasPorts packet len = ((packet 23 ≡ 6) ⊎ (packet 23 ≡ 17)) × (14 + header_length packet + 4 ≤ len)

-- The port whose bytes are at `i`, which is 0 where the packet has none.
abbrev pub PortIs : (ℕ → ℕ) → ℕ → ℕ → ℕ → Type 0
PortIs packet len i port =
    (HasPorts packet len × (port ≡ packet i * 256 + packet (i + 1)))
    ⊎ ((HasPorts packet len → ⊥) × (port ≡ 0))

-- The flags of a TCP packet under a mask; they are 0 where the header of the packet is cut off.
abbrev pub FlagsAre : (ℕ → ℕ) → ℕ → ℕ → ℕ → Type 0
FlagsAre packet len mask value =
    ((14 + header_length packet + 14 ≤ len)
      × (bit_and (packet (14 + header_length packet + 13)) mask ≡ value))
    ⊎ ((len < 14 + header_length packet + 14) × (bit_and 0 mask ≡ value))

pub record Meets (r : FwRule) (packet : ℕ → ℕ) (len interface : ℕ) : Type 0 where
  pub enabled : r.enabled ≡ true
  pub arrived : r.match_interface ≡ true → r.interface ≡ interface
  pub source :
      r.match_src_ip ≡ true
      → r.src_ip ≡ packet 26 * 16777216 + packet 27 * 65536 + packet 28 * 256 + packet 29
  pub destination :
      r.match_dst_ip ≡ true
      → r.dst_ip ≡ packet 30 * 16777216 + packet 31 * 65536 + packet 32 * 256 + packet 33
  pub carries : r.match_protocol ≡ true → r.protocol ≡ packet 23
  pub source_port :
      r.match_src_port ≡ true → PortIs packet len (14 + header_length packet) r.src_port
  pub destination_port :
      r.match_dst_port ≡ true → PortIs packet len (14 + header_length packet + 2) r.dst_port
  pub flags :
      r.match_tcp_flags ≡ true
      → packet 23 ≡ 6
      → FlagsAre packet len r.tcp_flags_mask r.tcp_flags_value

-- The tests of the loop, one by one.
record Passes (r : FwRule) (f : Fields) (interface : ℕ) : Type 0 where
  enabled : r.enabled ≡ true
  arrived : r.match_interface ≡ true → r.interface ≡ interface
  source : r.match_src_ip ≡ true → r.src_ip ≡ f.src_ip
  destination : r.match_dst_ip ≡ true → r.dst_ip ≡ f.dst_ip
  carries : r.match_protocol ≡ true → r.protocol ≡ f.protocol
  source_port : r.match_src_port ≡ true → r.src_port ≡ f.src_port
  destination_port : r.match_dst_port ≡ true → r.dst_port ≡ f.dst_port
  flags :
      r.match_tcp_flags ≡ true
      → f.protocol ≡ 6
      → bit_and f.tcp_flags r.tcp_flags_mask ≡ r.tcp_flags_value

applies-Passes :
    (r : FwRule) (f : Fields) (interface : ℕ) → applies r f interface ≡ true → Passes r f interface
unfolding applies
applies-Passes r f interface h = record {
  enabled = ground (arith, h);
  arrived = λ on. ground (arith, h, on);
  source = λ on. ground (arith, h, on);
  destination = λ on. ground (arith, h, on);
  carries = λ on. ground (arith, h, on);
  source_port = λ on. ground (arith, h, on);
  destination_port = λ on. ground (arith, h, on);
  flags = λ on tcp. ground (arith, h, on, tcp);
}

Passes-applies :
    (r : FwRule) (f : Fields) (interface : ℕ) → Passes r f interface → applies r f interface ≡ true
unfolding applies
Passes-applies r f interface v = ground (
  arith, v.enabled, v.arrived, v.source, v.destination, v.carries, v.source_port,
  v.destination_port, v.flags,
)

module _ (r : FwRule) (packet : ℕ → ℕ) (len interface : ℕ) where
  abbrev pub fields : Fields
  fields = fields_at packet len (header_length packet)

  pub applies-Meets : applies r fields interface ≡ true → Meets r packet len interface
  applies-Meets h =
      let v = applies-Passes r fields interface h in
      record {
        enabled = v.enabled;
        arrived = v.arrived;
        source = v.source;
        destination = v.destination;
        carries = v.carries;
        source_port = λ on. ground (arith, v.source_port on);
        destination_port = λ on. ground (arith, v.destination_port on);
        flags = λ on tcp. ground (arith, v.flags on tcp, tcp);
      }

  pub Meets-applies : Meets r packet len interface → applies r fields interface ≡ true
  Meets-applies v = Passes-applies r fields interface (record {
    enabled = v.enabled;
    arrived = v.arrived;
    source = v.source;
    destination = v.destination;
    carries = v.carries;
    source_port = λ on. ground (arith, v.source_port on);
    destination_port = λ on. ground (arith, v.destination_port on);
    flags = λ on tcp. ground (arith, v.flags on tcp, tcp);
  })

-- `match` reads the fields of the packets that are readable, and of no other.
pub parse-cases :
    (packet : ℕ → ℕ) (len : ℕ)
    → ((IsReadable packet len → ⊥) × (parse packet len ≡ none))
      ⊎ (IsReadable packet len
          × (parse packet len ≡ some (fields_at packet len (header_length packet))))
unfolding parse
parse-cases packet len =
    elim (Bool-cases (ltb len 34 || not (packet 12 * 256 + packet 13 == 2048))) [
      | inl bad ↦ inl (λ v. ground (arith, v.headers, v.is_ipv4, bad), rw bad refl)
      | inr fine ↦ elim (Bool-cases (ltb (packet 14 % 16) 5 || ltb len (14 + packet 14 % 16 * 4))) [
        | inl short ↦ inl (λ v. ground (arith, v.least, v.whole, short), rw (fine, short) refl)
        | inr long ↦ inr (
          record {
            headers = ground (arith, fine);
            is_ipv4 = ground (arith, fine);
            least = ground (arith, long);
            whole = ground (arith, long);
          },
          rw (fine, long) refl,
        )
      ]
    ]
