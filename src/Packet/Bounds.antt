-- ===== src/Packet/Bounds.antt =====
-- The decoder reads within the packet, whatever its bytes.
use becomeasystemsengineer.Prelude.{
  ℕ, zero, suc, ◌+◌, ◌*◌, ◌/◌, ◌%◌, ◌^◌, ◌≤◌, ◌<◌, ◌≡◌, refl, Bool, true, false, ◌||◌, not, Option,
  some, [], ◌∷◌, arith, length, ltb, ◌==◌, if◌then◌else◌, subst, sym,
}
use becomeasystemsengineer.Prelude.Bytes.{Bytes}
use becomeasystemsengineer.Packet.{
  PacketSummary, byte, bind, read_u16, format_ipv4, fill_summary, decode_tcp, decode_payload,
  decode_ipv4, decode_tagged, decode_ethernet_ipv4_tcp,
}

data IsSome (A : Type 0) (x : Option A) : Type 0 where
  it_is : (a : A) → x ≡ some a → IsSome A x

bind-IsSome :
    {A B : Type 0} (x : Option A) (next : A → Option B)
    → IsSome A x
    → ((a : A) → IsSome B (next a))
    → IsSome B (bind x next)
bind-IsSome {A} {B} x next (it_is a e) k =
    subst (λ (y : Option A). IsSome B (bind y next)) (sym e) (k a)

-- A test whose second branch alone reads on.
if-IsSome :
    (c : Bool) (a : PacketSummary) (y : Option PacketSummary)
    → (c ≡ false → IsSome PacketSummary y)
    → IsSome PacketSummary (if c then some a else y)
if-IsSome true a y h = it_is a refl
if-IsSome false a y h = h refl

both-IsSome :
    (c : Bool) (x y : Option PacketSummary)
    → IsSome PacketSummary x
    → IsSome PacketSummary y
    → IsSome PacketSummary (if c then x else y)
both-IsSome true x y h k = h
both-IsSome false x y h k = k

byte-IsSome : (bytes : Bytes) (i : ℕ) → i < length bytes → IsSome ℕ (byte bytes i)
unfolding byte
byte-IsSome [] i h = absurd (omega arith)
byte-IsSome (b ∷ bytes) zero h = it_is b refl
byte-IsSome (b ∷ bytes) (suc i) h = byte-IsSome bytes i (omega arith)

read_u16-IsSome : (bytes : Bytes) (i : ℕ) → i + 1 < length bytes → IsSome ℕ (read_u16 bytes i)
unfolding read_u16
read_u16-IsSome bytes i h =
    bind-IsSome _ _ (byte-IsSome bytes i (omega arith))
      (λ a. bind-IsSome _ _ (byte-IsSome bytes (i + 1) h) (λ b. it_is _ refl))

format_ipv4-IsSome :
    (bytes : Bytes) (i : ℕ) → i + 3 < length bytes → IsSome Bytes (format_ipv4 bytes i)
unfolding format_ipv4
format_ipv4-IsSome bytes i h = bind-IsSome _ _ (byte-IsSome bytes i (omega arith)) (λ a.
    bind-IsSome _ _ (byte-IsSome bytes (i + 1) (omega arith)) (λ b.
      bind-IsSome _ _ (byte-IsSome bytes (i + 2) (omega arith))
        (λ c. bind-IsSome _ _ (byte-IsSome bytes (i + 3) h) (λ d. it_is _ refl))))

module _ (packet : Bytes) (summary : PacketSummary) (ip_offset : ℕ) where
  fill_summary-IsSome :
      (tcp_offset : ℕ)
      → ip_offset + 20 ≤ length packet
      → tcp_offset + 20 ≤ length packet
      → IsSome PacketSummary (fill_summary packet summary ip_offset tcp_offset)
  unfolding fill_summary
  fill_summary-IsSome tcp_offset h k =
      bind-IsSome _ _ (format_ipv4-IsSome packet (ip_offset + 12) (omega arith)) (λ s.
        bind-IsSome _ _ (format_ipv4-IsSome packet (ip_offset + 16) (omega arith)) (λ d.
          bind-IsSome _ _ (read_u16-IsSome packet tcp_offset (omega arith)) (λ p.
            bind-IsSome _ _ (read_u16-IsSome packet (tcp_offset + 2) (omega arith)) (λ q.
              bind-IsSome _ _ (byte-IsSome packet (tcp_offset + 13) (omega arith))
                (λ f. it_is _ refl)))))

  decode_tcp-IsSome :
      (tcp_offset end : ℕ)
      → ip_offset + 20 ≤ length packet
      → tcp_offset + 20 ≤ end
      → end ≤ length packet
      → IsSome PacketSummary (decode_tcp packet summary ip_offset tcp_offset end)
  unfolding decode_tcp
  decode_tcp-IsSome tcp_offset end h k l =
      bind-IsSome _ _ (byte-IsSome packet (tcp_offset + 12) (omega arith))
        (λ o. if-IsSome _ _ _ (λ _. fill_summary-IsSome tcp_offset h (omega arith)))

  decode_payload-IsSome :
      (ip_header_length : ℕ)
      → ip_offset + 20 ≤ length packet
      → IsSome PacketSummary (decode_payload packet summary ip_offset ip_header_length)
  unfolding decode_payload
  decode_payload-IsSome ip_header_length h =
      bind-IsSome _ _ (read_u16-IsSome packet (ip_offset + 2) (omega arith)) (λ total_length.
        if-IsSome
          (ltb total_length (ip_header_length + 20)
            || ltb (length packet) (ip_offset + total_length))
          _ _
          (λ fits. bind-IsSome _ _ (byte-IsSome packet (ip_offset + 9) (omega arith)) (λ protocol.
            if-IsSome (not (protocol == 6)) _ _ (λ _.
              bind-IsSome _ _ (read_u16-IsSome packet (ip_offset + 6) (omega arith)) (λ flags.
                if-IsSome (not (flags % 2 ^ 14 == 0)) _ _ (λ _.
                  let within : (ip_header_length + 20 ≤ total_length)
                      × (ip_offset + total_length ≤ length packet) =
                    ground arith in
                  decode_tcp-IsSome (ip_offset + ip_header_length) (ip_offset + total_length) h
                    (omega arith) within.1))))))

  decode_ipv4-IsSome :
      (ether_type : ℕ) → IsSome PacketSummary (decode_ipv4 packet summary ether_type ip_offset)
  unfolding decode_ipv4
  decode_ipv4-IsSome ether_type = if-IsSome (not (ether_type == 0x0800)) _ _ (λ _.
      if-IsSome (ltb (length packet) (ip_offset + 20)) _ _ (λ long.
        let header : ip_offset + 20 ≤ length packet = ground arith in
        bind-IsSome _ _ (byte-IsSome packet ip_offset (omega arith)) (λ version_ihl.
          if-IsSome (not (version_ihl / 2 ^ 4 == 4)) _ _ (λ _.
            if-IsSome
              (ltb (version_ihl % 2 ^ 4 * 4) 20
                || ltb (length packet) (ip_offset + version_ihl % 2 ^ 4 * 4))
              _ _ (λ _. decode_payload-IsSome (version_ihl % 2 ^ 4 * 4) header)))))

-- Whatever the bytes of a packet, the decoder reads within it and returns a summary.
pub decode_ethernet_ipv4_tcp_total :
    (packet : Bytes) → (summary : PacketSummary) × (decode_ethernet_ipv4_tcp packet ≡ some summary)
unfolding decode_ethernet_ipv4_tcp decode_tagged
decode_ethernet_ipv4_tcp_total packet = summary_of _ within
  where
    summary_of :
        (x : Option PacketSummary)
        → IsSome PacketSummary x
        → (summary : PacketSummary) × (x ≡ some summary)
    summary_of x (it_is summary e) = (summary, e)

    tagged : 14 ≤ length packet → IsSome PacketSummary (decode_tagged packet)
    tagged long = if-IsSome (ltb (length packet) 18) _ _ (λ fits.
        let room : 18 ≤ length packet = ground arith in
        bind-IsSome _ _ (read_u16-IsSome packet 16 (omega arith))
          (λ t. decode_ipv4-IsSome packet _ 18 t))

    within : IsSome PacketSummary (decode_ethernet_ipv4_tcp packet)
    within = if-IsSome (ltb (length packet) 14) _ _ (λ fits.
        let room : 14 ≤ length packet = ground arith in
        bind-IsSome _ _ (read_u16-IsSome packet 12 (omega arith))
          (λ t. both-IsSome _ _ _ (tagged room) (decode_ipv4-IsSome packet _ 14 t)))
