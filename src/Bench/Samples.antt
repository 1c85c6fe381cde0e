-- ===== src/Bench/Samples.antt =====
-- The shares of the workers and the percentiles.
use becomeasystemsengineer.Prelude.{
  ℕ, zero, suc, ◌+◌, ◌-◌, ◌*◌, ◌/◌, ◌%◌, ◌^◌, ◌≤◌, ◌<◌, ◌≡◌, refl, inl, inr, false, some, List, [],
  ◌∷◌, ltb, if◌then◌else◌, arith, length, get_elem?, Bool-cases, ◌∙◌, ap,
}
use native.Mathlib.Nat.{div-add-mod, mod-lt, mul-le-mul_right, le-mul_of_pos_right}
use becomeasystemsengineer.Bench.{percentile, worker_request_count}

-- The sum over the first workers.
abbrev pub total : (ℕ → ℕ) → ℕ → ℕ
total f zero = 0
total f (suc workers) = total f workers + f workers

total_shares :
    (quotient rest workers : ℕ)
    → total (λ worker. quotient + (if ltb worker rest then 1 else 0)) workers
      ≡ workers * quotient + (if ltb workers rest then workers else rest)
total_shares quotient rest zero = ground arith
total_shares quotient rest (suc workers) =
    let before = total_shares quotient rest workers in
    elim (Bool-cases (ltb workers rest)) [
      | inl below ↦
          rw (before, below)
            (elim (Bool-cases (ltb (suc workers) rest)) [
              | inl still ↦ rw still (grind arith)
              | inr last ↦ rw last (grind (arith, below, last))
            ])
      | inr above ↦ rw (before, above) (grind (arith, above))
    ]

-- The workers' shares add up to the requests.
pub worker_request_count-total :
    (request_count concurrency : ℕ)
    → 0 < concurrency
    → total (worker_request_count request_count concurrency) concurrency ≡ request_count
unfolding worker_request_count
worker_request_count-total request_count concurrency h =
    let quotient = request_count / concurrency in
    let rest = request_count % concurrency in
    let below : rest < concurrency = mod-lt request_count h in
    let all : ltb concurrency rest ≡ false = ground (arith, below) in
    let parts : concurrency * quotient + rest ≡ request_count =
      div-add-mod request_count concurrency in
    total_shares quotient rest concurrency ∙ rw all parts

get_elem?-total :
    {A : Type 0} (xs : List A) (i : ℕ) → i < length xs → (x : A) × (get_elem? xs i ≡ some x)
get_elem?-total [] i h = absurd (omega arith)
get_elem?-total (x ∷ xs) zero h = (x, refl)
get_elem?-total (x ∷ xs) (suc i) h = get_elem?-total xs i (omega arith)

-- The index that the rank of `m` hundredths gives, rounded up, in 64 bits.
rank_lem :
    (m : ℕ)
    → 0 < m
    → m < 2 ^ 63
    → (if ltb 1 ((m % 2 ^ 64 + 99) % 2 ^ 64 / 100) then (m % 2 ^ 64 + 99) % 2 ^ 64 / 100 else 1) - 1
      ≡ (m - 1) / 100
rank_lem m h h' =
    let rank : (m % 2 ^ 64 + 99) % 2 ^ 64 / 100 ≡ (m - 1) / 100 + 1 = omega (arith, h, h') in
    rw rank (elim (Bool-cases (ltb 1 ((m - 1) / 100 + 1))) [
      | inl more ↦ rw more (omega arith)
      | inr one ↦ rw one (ground (arith, one))
    ])

-- The percentile of some samples, below 2 ^ 56 of them, is the one at the least rank that covers the
-- percentage: that many samples are at least so much of all, and one fewer is not.
pub percentile-rank :
    (sorted : List ℕ) (percent : ℕ)
    → 0 < length sorted
    → length sorted < 2 ^ 56
    → 0 < percent
    → percent ≤ 100
    → (rank : ℕ) × (value : ℕ) × (percentile sorted percent ≡ some value)
      × (get_elem? sorted rank ≡ some value)
      × (percent * length sorted ≤ 100 * (rank + 1))
      × (100 * rank < percent * length sorted)
unfolding percentile
percentile-rank sorted percent some_samples few h h' =
    let m = percent * length sorted in
    let some_product : 0 < m = omega (arith, h, le-mul_of_pos_right percent some_samples) in
    let at_most : m ≤ 100 * length sorted = mul-le-mul_right (length sorted) h' in
    let at : ℕ = (m - 1) / 100 in
    let (value, found) = get_elem?-total sorted at (omega (arith, some_product, at_most)) in
    (
      at,
      value,
      ap (get_elem? sorted) (rank_lem m some_product (omega (arith, at_most, few))) ∙ found,
      found,
      omega (arith, some_product),
      omega (arith, some_product),
    )
