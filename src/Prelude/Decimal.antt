-- ===== src/Prelude/Decimal.antt =====
-- Numbers written in decimal, as `operator<<` and `std::to_string` do, and read by `std::from_chars`.
use Prim.Native.Nat.{ℕ, zero, suc, ◌+◌, ◌-◌, ◌*◌, ◌/◌, ◌%◌, ◌<◌}
use mathlib.Core.Path.{◌≡◌, refl, ap, ◌∙◌}
use mathlib.Core.Logic.{inl, inr}
use mathlib.Core.Bool.{Bool, true, ◌&&◌}
use mathlib.Core.Option.{Option, none, some}
use native.Mathlib.Omega.{arith}
use mathlib.Core.List.{[], ◌∷◌}
use becomeasystemsengineer.Prelude.Tests.{leb, Bool-cases, ltb, if◌then◌else◌}
use becomeasystemsengineer.Prelude.Bytes.{Bytes}

-- The digits of `n` in front of those that are there; each round takes one digit off.
unfoldable pub decimal_loop : ℕ → ℕ → Bytes → Bytes
decimal_loop zero n digits = digits
decimal_loop (suc fuel) n digits =
    let digits' = (b'0' + n % 10) ∷ digits in
    let more = decimal_loop fuel (n / 10) digits' in if ltb n 10 then digits' else more

-- `n + 1` rounds are more than the digits of `n`.
unfoldable pub decimal : ℕ → Bytes
unfolding decimal_loop
decimal n = decimal_loop (suc n) n []

abbrev is_digit : ℕ → Bool
is_digit b = leb b'0' b && leb b b'9'

-- The number and the count of the leading digits behind those of `value`, and what follows them.
unfoldable pub leading_digits : ℕ → ℕ → Bytes → ℕ × ℕ × Bytes
leading_digits value count [] = (value, count, [])
leading_digits value count (b ∷ bs) =
    let more = leading_digits (value * 10 + (b - b'0')) (suc count) bs in
    if is_digit b then more else (value, count, b ∷ bs)

-- `std::from_chars` into an unsigned type below `limit`: the number and what follows it.
unfoldable pub from_chars : ℕ → Bytes → Option (ℕ × Bytes)
unfolding leading_digits
from_chars limit text =
    let (value, count, rest) = leading_digits 0 0 text in
    if ltb 0 count && ltb value limit then some (value, rest) else none

a_digit :
    (value count d : ℕ) (digits : Bytes)
    → d < 10
    → leading_digits value count ((b'0' + d) ∷ digits)
      ≡ leading_digits (value * 10 + d) (suc count) digits
unfolding leading_digits
a_digit value count d digits h =
    let test : is_digit (b'0' + d) ≡ true = ground (arith, h) in
    let back : b'0' + d - b'0' ≡ d = omega arith in rw (test, back) refl

leading_digits-decimal_loop :
    (fuel n : ℕ) (digits : Bytes)
    → n < fuel
    → (c : ℕ) × (leading_digits 0 0 (decimal_loop fuel n digits) ≡ leading_digits n (suc c) digits)
unfolding decimal_loop
leading_digits-decimal_loop zero n digits h = absurd (omega arith)
leading_digits-decimal_loop (suc fuel) n digits h =
    let last : n % 10 < 10 = omega arith in
    elim (Bool-cases (ltb n 10)) [
      | inl one ↦
          let whole : 0 * 10 + n % 10 ≡ n = ground (arith, one) in
          (
            0,
            rw one (
                a_digit 0 0 (n % 10) digits last ∙ ap (λ (m : ℕ). leading_digits m 1 digits) whole),
          )
      | inr more ↦
          let fewer : n / 10 < fuel = ground (arith, more, h) in
          let whole : n / 10 * 10 + n % 10 ≡ n = omega arith in
          let (c, before) =
            leading_digits-decimal_loop fuel (n / 10) ((b'0' + n % 10) ∷ digits) fewer in
          (
            suc c,
            rw more (
                before
                ∙ a_digit (n / 10) (suc c) (n % 10) digits last
                ∙ ap (λ (m : ℕ). leading_digits m (suc (suc c)) digits) whole),
          )
    ]

-- A number that was printed is read again, if it is in the range.
pub from_chars-decimal :
    (limit n : ℕ) → from_chars limit (decimal n) ≡ (if ltb n limit then some (n, []) else none)
unfolding from_chars decimal leading_digits
from_chars-decimal limit n =
    let (c, read) = leading_digits-decimal_loop (suc n) n [] (omega arith) in
    let positive : ltb 0 (suc c) ≡ true = ground arith in rw (read, positive) refl
