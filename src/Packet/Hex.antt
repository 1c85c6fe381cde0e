-- ===== src/Packet/Hex.antt =====
-- Hexadecimal text: what is printed of bytes is parsed as those bytes.
use becomeasystemsengineer.Prelude.{
  ℕ, ◌+◌, ◌-◌, ◌*◌, ◌/◌, ◌%◌, ◌^◌, ◌<◌, ◌≡◌, refl, true, false, none, some, [], ◌∷◌, ◌++◌, arith,
  All, ltb, if◌then◌else◌, append_assoc, append-nil, ◌∙◌, sym,
}
use becomeasystemsengineer.Prelude.Bytes.{Bytes}
use becomeasystemsengineer.Packet.{is_hex_separator, nibble, parse_hex_loop, parse_hex_bytes}

abbrev pub digit : ℕ → ℕ
digit n = if ltb n 10 then b'0' + n else b'a' + (n - 10)

-- Two digits for each byte, and `separator` behind them.
abbrev pub print_hex : Bytes → Bytes → Bytes
print_hex separator [] = []
print_hex separator (b ∷ bytes) =
    digit (b / 2 ^ 4) ∷ digit (b % 2 ^ 4) ∷ separator ++ print_hex separator bytes

digit-nibble : (n : ℕ) → n < 16 → (is_hex_separator (digit n) ≡ false) × (nibble (digit n) ≡ some n)
digit-nibble n h = ground arith

skip_separators :
    (separator text bytes : Bytes)
    → All (λ c. is_hex_separator c ≡ true) separator
    → parse_hex_loop (separator ++ text) none bytes ≡ parse_hex_loop text none bytes
unfolding parse_hex_loop
skip_separators [] text bytes h = refl
skip_separators (c ∷ separator) text bytes h = rw h.0 (skip_separators separator text bytes h.1)

loop-print_hex :
    (separator bytes before : Bytes)
    → All (λ c. is_hex_separator c ≡ true) separator
    → All (λ b. b < 2 ^ 8) bytes
    → parse_hex_loop (print_hex separator bytes) none before ≡ before ++ bytes
unfolding parse_hex_loop
loop-print_hex separator [] before s h = sym (append-nil before)
loop-print_hex separator (b ∷ bytes) before s h =
    let (p, q) = digit-nibble (b / 2 ^ 4) (omega arith) in
    let (p', q') = digit-nibble (b % 2 ^ 4) (omega arith) in
    let whole : (b / 2 ^ 4 * 2 ^ 4 + b % 2 ^ 4) % 2 ^ 8 ≡ b = omega arith in
    rw (p, q, p', q', whole)
      (skip_separators separator (print_hex separator bytes) (before ++ b ∷ []) s
        ∙ loop-print_hex separator bytes (before ++ b ∷ []) s h.1
        ∙ append_assoc before (b ∷ []) bytes)

-- Bytes that are printed with two digits each, and any spaces, colons and dashes behind each byte,
-- are parsed as those bytes.
pub parse_hex_bytes-print_hex :
    (separator bytes : Bytes)
    → All (λ c. is_hex_separator c ≡ true) separator
    → All (λ b. b < 2 ^ 8) bytes
    → parse_hex_bytes (print_hex separator bytes) ≡ bytes
unfolding parse_hex_bytes
parse_hex_bytes-print_hex separator bytes s h = loop-print_hex separator bytes [] s h
