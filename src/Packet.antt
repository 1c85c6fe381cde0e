-- ===== src/Packet.antt =====
-- capstone/reference: include/netforge/packet.hpp and src/packet.cpp, the decoder of captured packets
-- and of their hexadecimal text. An access out of the packet, undefined in C++, is `none`.
pub mod Bounds
pub mod Hex
use Prim.Native.String.{String}
use becomeasystemsengineer.Prelude.{
  ℕ, zero, suc, ◌+◌, ◌-◌, ◌*◌, ◌/◌, ◌%◌, ◌^◌, Bool, true, false, ◌||◌, ◌&&◌, not, Option, none,
  some, List, [], ◌∷◌, ◌++◌, ltb, leb, ◌==◌, if◌then◌else◌, length,
}
use becomeasystemsengineer.Prelude.Bytes.{Bytes, codes}
use becomeasystemsengineer.Prelude.Decimal.{decimal}
use becomeasystemsengineer.Protocol.Text.{is_space}

pub record PacketSummary : Type 0 where
  pub valid : Bool
  pub vlan_tagged : Bool
  pub source_ip : Bytes
  pub destination_ip : Bytes
  pub source_port : ℕ
  pub destination_port : ℕ
  pub tcp_flags : ℕ
  pub error : String

abbrev pub new_summary : PacketSummary
new_summary = record {
  valid = false;
  vlan_tagged = false;
  source_ip = [];
  destination_ip = [];
  source_port = 0;
  destination_port = 0;
  tcp_flags = 0;
  error = "";
}

-- `bytes[offset]`
unfoldable pub byte : Bytes → ℕ → Option ℕ
byte [] offset = none
byte (b ∷ bytes) zero = some b
byte (b ∷ bytes) (suc offset) = byte bytes offset

-- What goes on with a byte that was read.
abbrev pub bind {ℓ κ} : {A : Type ℓ} {B : Type κ} → Option A → (A → Option B) → Option B
bind none next = none
bind (some a) next = next a

unfoldable pub read_u16 : Bytes → ℕ → Option ℕ
read_u16 bytes offset =
    bind (byte bytes offset)
      (λ high. bind (byte bytes (offset + 1)) (λ low. some ((high * 2 ^ 8 + low) % 2 ^ 16)))

unfoldable pub format_ipv4 : Bytes → ℕ → Option Bytes
format_ipv4 bytes offset = bind (byte bytes offset) (λ a. bind (byte bytes (offset + 1)) (λ b.
    bind (byte bytes (offset + 2)) (λ c.
      bind (byte bytes (offset + 3))
        (λ d. some (decimal a ++ b'.' ∷ decimal b ++ b'.' ∷ decimal c ++ b'.' ∷ decimal d)))))

abbrev pub with_error : PacketSummary → String → Option PacketSummary
with_error summary error = some (record summary { error = error })

-- The fields of the summary, from where the headers begin.
unfoldable pub fill_summary : Bytes → PacketSummary → ℕ → ℕ → Option PacketSummary
fill_summary packet summary ip_offset tcp_offset =
    bind (format_ipv4 packet (ip_offset + 12)) (λ source_ip.
      bind (format_ipv4 packet (ip_offset + 16)) (λ destination_ip.
        bind (read_u16 packet tcp_offset) (λ source_port.
          bind (read_u16 packet (tcp_offset + 2)) (λ destination_port.
            bind (byte packet (tcp_offset + 13)) (λ tcp_flags. some (record {
              valid = true;
              vlan_tagged = summary.vlan_tagged;
              source_ip = source_ip;
              destination_ip = destination_ip;
              source_port = source_port;
              destination_port = destination_port;
              tcp_flags = tcp_flags;
              error = summary.error;
            }))))))

-- From the length of the TCP header on; `end` is where the IPv4 packet ends.
unfoldable pub decode_tcp : Bytes → PacketSummary → ℕ → ℕ → ℕ → Option PacketSummary
decode_tcp packet summary ip_offset tcp_offset end =
    bind (byte packet (tcp_offset + 12)) (λ data_offset.
      let tcp_header_length = data_offset / 2 ^ 4 * 4 in
      if ltb tcp_header_length 20 || ltb end (tcp_offset + tcp_header_length)
      then with_error summary "invalid TCP header length"
      else fill_summary packet summary ip_offset tcp_offset)

-- From the total length of the IPv4 packet on.
unfoldable pub decode_payload : Bytes → PacketSummary → ℕ → ℕ → Option PacketSummary
decode_payload packet summary ip_offset ip_header_length =
    bind (read_u16 packet (ip_offset + 2)) (λ total_length.
      if ltb total_length (ip_header_length + 20) || ltb (length packet) (ip_offset + total_length)
      then with_error summary "invalid or truncated IPv4 total length"
      else bind (byte packet (ip_offset + 9)) (λ protocol.
        if not (protocol == 6)
        then with_error summary "IPv4 payload is not TCP"
        else bind (read_u16 packet (ip_offset + 6)) (λ flags_and_fragment_offset.
          if not (flags_and_fragment_offset % 2 ^ 14 == 0)
          then with_error summary "fragmented IPv4 packets do not contain a complete TCP header"
          else decode_tcp packet summary ip_offset (ip_offset + ip_header_length)
              (ip_offset + total_length))))

-- From the test of the EtherType on.
unfoldable pub decode_ipv4 : Bytes → PacketSummary → ℕ → ℕ → Option PacketSummary
decode_ipv4 packet summary ether_type ip_offset =
    if not (ether_type == 0x0800)
    then with_error summary "EtherType is not IPv4"
    else if ltb (length packet) (ip_offset + 20)
    then with_error summary "truncated IPv4 header"
    else bind (byte packet ip_offset) (λ version_ihl.
      let ip_header_length = version_ihl % 2 ^ 4 * 4 in
      if not (version_ihl / 2 ^ 4 == 4)
      then with_error summary "IP version is not 4"
      else if ltb ip_header_length 20 || ltb (length packet) (ip_offset + ip_header_length)
      then with_error summary "invalid IPv4 header length"
      else decode_payload packet summary ip_offset ip_header_length)

-- Behind a VLAN tag.
unfoldable pub decode_tagged : Bytes → Option PacketSummary
decode_tagged packet =
    if ltb (length packet) 18
    then with_error new_summary "truncated VLAN header"
    else bind (read_u16 packet 16)
        (λ inner_type. decode_ipv4 packet (record new_summary { vlan_tagged = true }) inner_type 18)

unfoldable pub decode_ethernet_ipv4_tcp : Bytes → Option PacketSummary
decode_ethernet_ipv4_tcp packet =
    if ltb (length packet) 14
    then with_error new_summary "truncated Ethernet header"
    else bind (read_u16 packet 12) (λ ether_type.
      if ether_type == 0x8100 || ether_type == 0x88A8
      then decode_tagged packet
      else decode_ipv4 packet new_summary ether_type 14)

-- The characters that the loop of `parse_hex_bytes` passes over.
abbrev pub is_hex_separator : ℕ → Bool
is_hex_separator c = is_space c || (c == b':' || c == b'-')

abbrev pub nibble : ℕ → Option ℕ
nibble c =
    if leb b'A' c && leb c b'F'
    then some (c - b'A' + 10)
    else if leb b'a' c && leb c b'f'
    then some (c - b'a' + 10)
    else if leb b'0' c && leb c b'9'
    then some (c - b'0')
    else none

-- The loop, from a state of `high_nibble` and `bytes` on.
unfoldable pub parse_hex_loop : Bytes → Option ℕ → Bytes → Bytes
parse_hex_loop [] none bytes = bytes
parse_hex_loop [] (some high) bytes = []
parse_hex_loop (c ∷ text) high_nibble bytes =
    if is_hex_separator c then parse_hex_loop text high_nibble bytes else elim (nibble c) [
      | none ↦ []
      | some value ↦ elim high_nibble [
        | none ↦ parse_hex_loop text (some value) bytes
        | some high ↦ parse_hex_loop text none (bytes ++ (high * 2 ^ 4 + value) % 2 ^ 8 ∷ [])
      ]
    ]

unfoldable pub parse_hex_bytes : Bytes → Bytes
parse_hex_bytes text = parse_hex_loop text none []
