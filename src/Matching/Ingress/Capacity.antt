-- ===== src/Matching/Ingress/Capacity.antt =====
-- The capacity that the constructor rounds to.
use becomeasystemsengineer.Prelude.{
  ℕ, zero, suc, ◌+◌, ◌*◌, ◌%◌, ◌^◌, ◌≤◌, ◌<◌, ◌≡◌, ◌⊎◌, inl, inr, refl, true, Option, none, some,
  arith, ltb, Bool-cases, ap,
}
use becomeasystemsengineer.Matching.Ingress.{round_loop, round_power_of_two}

-- The powers of two.
abbrev pub pow2 : ℕ → ℕ
pow2 zero = 1
pow2 (suc k) = 2 * pow2 k

pow2_small : (left k : ℕ) → k + left ≡ 63 → pow2 k ≤ 2 ^ 63
pow2_small zero k e =
    let at_63 : k ≡ 63 = omega (arith, e) in
    let top : pow2 k ≡ 2 ^ 63 = ap pow2 at_63 in omega (arith, top)
pow2_small (suc left) k e = omega (arith, pow2_small left (suc k) (omega (arith, e)))

pow2_top : (k : ℕ) → k + 0 ≡ 63 → pow2 k ≡ 2 ^ 63
pow2_top k e = let at_63 : k ≡ 63 = omega (arith, e) in ap pow2 at_63

doubled : (left k : ℕ) → k + suc left ≡ 63 → pow2 k * 2 % 2 ^ 64 ≡ pow2 (suc k)
doubled left k e = omega (arith, pow2_small left (suc k) (omega (arith, e)))

-- The loop from 2 ^ k on ends at the next power of two.
abbrev Rounds : ℕ → ℕ → Option ℕ → Type 0
Rounds k requested out =
    (j : ℕ) × (out ≡ some (pow2 j))
    × (requested ≤ pow2 j)
    × (k ≤ j)
    × ((j ≡ k) ⊎ (pow2 j < 2 * requested))

round_loop-Rounds :
    (fuel left k requested : ℕ)
    → k + left ≡ 63
    → left < fuel
    → requested ≤ 2 ^ 63
    → Rounds k requested (round_loop fuel (pow2 k) requested)
unfolding round_loop
round_loop-Rounds zero left k requested e h r = absurd (omega arith)
round_loop-Rounds (suc fuel) zero k requested e h r =
    (k, ground (arith, pow2_top k e), omega (arith, pow2_top k e), omega arith, inl refl)
round_loop-Rounds (suc fuel) (suc left) k requested e h r =
    elim (Bool-cases (ltb (pow2 k) requested)) [
      | inr enough ↦ (k, rw enough refl, ground arith, omega arith, inl refl)
      | inl less ↦
          let (j, out, large, more, near) =
            round_loop-Rounds fuel left (suc k) requested (omega (arith, e)) (omega arith) r in
          let below : pow2 k < requested = ground arith in
          (j, rw (less, doubled left k e) out, large, omega arith, inr (nearest j below near))
    ]
  where
    nearest :
        (j : ℕ)
        → pow2 k < requested
        → (j ≡ suc k) ⊎ (pow2 j < 2 * requested)
        → pow2 j < 2 * requested
    nearest j below (inl at) = let same : pow2 j ≡ 2 * pow2 k = ap pow2 at in omega (arith, same)
    nearest j below (inr near) = near

-- A capacity of up to 2 ^ 63 is rounded to a power of two that is at least the requested one and 2,
-- and less than twice the requested one unless it is 2; 63 rounds are enough.
pub round_power_of_two-pow2 :
    (fuel requested : ℕ)
    → 62 < fuel
    → requested ≤ 2 ^ 63
    → (j : ℕ) × (round_power_of_two fuel requested ≡ some (pow2 j))
      × (requested ≤ pow2 j)
      × (1 ≤ j)
      × ((j ≡ 1) ⊎ (pow2 j < 2 * requested))
unfolding round_power_of_two
round_power_of_two-pow2 fuel requested h r = round_loop-Rounds fuel 62 1 requested refl h r

round_loop-zero : (fuel requested : ℕ) → 0 < requested → round_loop fuel 0 requested ≡ none
unfolding round_loop
round_loop-zero zero requested h = refl
round_loop-zero (suc fuel) requested h = ground (arith, round_loop-zero fuel requested)

round_loop-none :
    (fuel left k requested : ℕ)
    → k + left ≡ 63
    → 2 ^ 63 < requested
    → round_loop fuel (pow2 k) requested ≡ none
unfolding round_loop
round_loop-none zero left k requested e h = refl
round_loop-none (suc fuel) zero k requested e h =
    let wraps : pow2 k * 2 % 2 ^ 64 ≡ 0 = omega (arith, pow2_top k e) in
    let test : ltb (pow2 k) requested ≡ true = ground (arith, pow2_top k e) in
    rw (test, wraps) (round_loop-zero fuel requested (omega arith))
round_loop-none (suc fuel) (suc left) k requested e h =
    let test : ltb (pow2 k) requested ≡ true = ground (arith, pow2_small (suc left) k e) in
    rw (test, doubled left k e) (round_loop-none fuel left (suc k) requested (omega (arith, e)) h)

-- Above 2 ^ 63 the shift wraps to 0 and the loop of the constructor never ends.
pub round_power_of_two-none :
    (fuel requested : ℕ) → 2 ^ 63 < requested → round_power_of_two fuel requested ≡ none
unfolding round_power_of_two
round_power_of_two-none fuel requested h = round_loop-none fuel 62 1 requested refl h
