-- ===== src/Arguments/Ports.antt =====
-- Numbers that were printed are read as the programs mean to.
use becomeasystemsengineer.Prelude.{
  ℕ, ◌^◌, ◌≡◌, refl, inl, inr, Bool, true, ◌&&◌, ◌||◌, not, none, some, [], ltb, leb, ◌==◌,
  if◌then◌else◌, Bool-cases, arith, ap, ◌∙◌,
}
use becomeasystemsengineer.Prelude.Decimal.{decimal, from_chars-decimal}
use becomeasystemsengineer.Arguments.{max_port, whole_number, server_port, client_port, parse_size}

whole_number-if :
    (test : ℕ → Bool) (limit n : ℕ)
    → whole_number test (if ltb n limit then some (n, []) else none)
      ≡ (if test n && ltb n limit then some n else none)
whole_number-if test limit n = elim (Bool-cases (ltb n limit)) [
  | inl fits ↦
      rw fits (elim (Bool-cases (test n)) [ inl good ↦ rw good refl | inr bad ↦ rw bad refl ])
  | inr large ↦
      rw large (elim (Bool-cases (test n)) [ inl good ↦ rw good refl | inr bad ↦ rw bad refl ])
]

-- A 32-bit number is enough for a port.
ports_fit : (n : ℕ) → (leb n max_port && ltb n (2 ^ 32)) ≡ leb n max_port
ports_fit n = elim (Bool-cases (leb n max_port)) [
  | inl small ↦ let fits : ltb n (2 ^ 32) ≡ true = ground (arith, small) in rw (small, fits) refl
  | inr large ↦ rw large refl
]

client_ports_fit :
    (n : ℕ) → (not (n == 0) && leb n max_port) && ltb n (2 ^ 32) ≡ not (n == 0) && leb n max_port
client_ports_fit n = elim (Bool-cases (n == 0)) [
  | inl zero_port ↦ rw zero_port refl
  | inr other ↦ rw other (ports_fit n)
]

-- A printed number is taken as a port by the server up to 65535, by the client from 1 to 65535, and as
-- a size by the benchmark up to 2 ^ 64 - 1, with 0 only where that is allowed; any other is refused.
pub numbers_parsed :
    (n : ℕ) (allow_zero : Bool)
    → (server_port (decimal n) ≡ (if leb n 65535 then some n else none))
      × (client_port (decimal n) ≡ (if not (n == 0) && leb n 65535 then some n else none))
      × (parse_size allow_zero (decimal n)
          ≡ (if (allow_zero || not (n == 0)) && ltb n (2 ^ 64) then some n else none))
unfolding server_port client_port parse_size
numbers_parsed n allow_zero = (
  ap (whole_number (λ value. leb value max_port)) (from_chars-decimal (2 ^ 32) n)
      ∙ whole_number-if (λ value. leb value max_port) (2 ^ 32) n
      ∙ ap (λ (b : Bool). if b then some n else none) (ports_fit n),
  ap (whole_number (λ value. not (value == 0) && leb value max_port))
        (from_chars-decimal (2 ^ 32) n)
      ∙ whole_number-if (λ value. not (value == 0) && leb value max_port) (2 ^ 32) n
      ∙ ap (λ (b : Bool). if b then some n else none) (client_ports_fit n),
  ap (whole_number (λ value. allow_zero || not (value == 0))) (from_chars-decimal (2 ^ 64) n)
      ∙ whole_number-if (λ value. allow_zero || not (value == 0)) (2 ^ 64) n,
)
