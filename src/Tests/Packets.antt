-- ===== src/Tests/Packets.antt =====
-- A packet and a hexadecimal text.
use becomeasystemsengineer.Prelude.{◌≡◌, refl, some, [], ◌∷◌, ◌++◌, arith, true, false}
use becomeasystemsengineer.Prelude.Bytes.{Bytes, codes}
use becomeasystemsengineer.Prelude.Decimal.{decimal}
use becomeasystemsengineer.Packet.{
  PacketSummary, decode_ethernet_ipv4_tcp, parse_hex_bytes, read_u16, byte, decode_ipv4,
  decode_payload, decode_tcp, fill_summary, format_ipv4,
}
use becomeasystemsengineer.Packet.Bounds.{decode_ethernet_ipv4_tcp_total}
use becomeasystemsengineer.Packet.Hex.{print_hex, parse_hex_bytes-print_hex}

abbrev addresses : Bytes
addresses = 1 ∷ 2 ∷ 3 ∷ 4 ∷ 5 ∷ 6 ∷ 7 ∷ 8 ∷ 9 ∷ 10 ∷ 11 ∷ 12 ∷ []

abbrev ip_header : Bytes
ip_header =
    0x45 ∷ 0 ∷ 0 ∷ 40 ∷ 0 ∷ 0 ∷ 0x40 ∷ 0 ∷ 64 ∷ 6 ∷ 0 ∷ 0 ∷ 10 ∷ 0 ∷ 0 ∷ 1 ∷ 10 ∷ 0 ∷ 0 ∷ 2 ∷ []

abbrev tcp_header : Bytes
tcp_header =
    0x1F ∷ 0x90 ∷ 0 ∷ 80 ∷ 0 ∷ 0 ∷ 0 ∷ 1 ∷ 0 ∷ 0 ∷ 0 ∷ 2 ∷ 0x50 ∷ 0x12 ∷ 0 ∷ 0 ∷ 0 ∷ 0 ∷ 0 ∷ 0 ∷ []

abbrev syn_ack : Bytes
syn_ack = addresses ++ 8 ∷ 0 ∷ ip_header ++ tcp_header

decode_ethernet_ipv4_tcp_total_example :
    (summary : PacketSummary) × (decode_ethernet_ipv4_tcp syn_ack ≡ some summary)
decode_ethernet_ipv4_tcp_total_example = decode_ethernet_ipv4_tcp_total syn_ack

-- The summary of that packet.
syn_ack_decoded :
    decode_ethernet_ipv4_tcp syn_ack
    ≡ some (record {
      valid = true;
      vlan_tagged = false;
      source_ip = codes "10.0.0.1";
      destination_ip = codes "10.0.0.2";
      source_port = 8080;
      destination_port = 80;
      tcp_flags = 0x12;
      error = "";
    })
unfolding decode_ethernet_ipv4_tcp read_u16 byte decode_ipv4 decode_payload decode_tcp fill_summary
    format_ipv4 decimal
syn_ack_decoded = refl

parse_hex_bytes-print_hex_example :
    parse_hex_bytes (print_hex (codes ":") (10 ∷ 255 ∷ [])) ≡ 10 ∷ 255 ∷ []
parse_hex_bytes-print_hex_example =
    parse_hex_bytes-print_hex (codes ":") (10 ∷ 255 ∷ []) (refl, tt)
      (omega arith, (omega arith, tt))
