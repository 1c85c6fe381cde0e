-- ===== src/ParallelSum.antt =====
-- labs/parallelism/reference.cpp: `mix`, `sum_range` and `parallel_sum`. Each worker writes its own
-- partial sum, and all are joined before they are added: the partial sums are computed in a row.
use native.Mathlib.Nat.{mul-div_left, zero-div, mul-zero, le-div_iff_mul-le, mul-le-mul_left}
use becomeasystemsengineer.Prelude.{
  ℕ, zero, suc, ◌+◌, ◌-◌, ◌*◌, ◌/◌, ◌%◌, ◌^◌, ◌≤◌, ◌<◌, ◌≡◌, refl, min, Option, none, some, arith,
  ◌==◌, if◌then◌else◌, ap, ap₂, ◌∙◌, sym,
}
use becomeasystemsengineer.Prelude.Words.{xor}

unfoldable pub mix : ℕ → ℕ
unfolding xor
mix value =
    let v = (value + 0x9e3779b97f4a7c15) % 2 ^ 64 in
    let v' = xor 64 v (v / 2 ^ 30) * 0xbf58476d1ce4e5b9 % 2 ^ 64 in
    let v'' = xor 64 v' (v' / 2 ^ 27) * 0x94d049bb133111eb % 2 ^ 64 in xor 64 v'' (v'' / 2 ^ 31)

-- The loop of `sum_range`, with the values that are left.
unfoldable pub sum_loop : ℕ → ℕ → ℕ → ℕ
sum_loop zero value total = total
sum_loop (suc left) value total = sum_loop left (value + 1) ((total + mix value) % 2 ^ 64)

unfoldable pub sum_range : ℕ → ℕ → ℕ
unfolding sum_loop
sum_range begin end = sum_loop (end - begin) begin 0

-- Where the range of a worker begins, and that of the worker before it ends.
abbrev pub boundary : ℕ → ℕ → ℕ → ℕ
boundary item_count workers_to_use worker = item_count * worker % 2 ^ 64 / workers_to_use

-- The partial sums of the workers that are left, added up.
unfoldable pub add_partials : ℕ → ℕ → ℕ → ℕ → ℕ → ℕ
add_partials item_count workers_to_use zero worker total = total
add_partials item_count workers_to_use (suc left) worker total =
    add_partials item_count workers_to_use left (worker + 1) (
      (total
        + sum_range (boundary item_count workers_to_use worker)
            (boundary item_count workers_to_use ((worker + 1) % 2 ^ 32)))
      % 2 ^ 64)

-- `none` is the `std::invalid_argument`.
unfoldable pub parallel_sum : ℕ → ℕ → Option ℕ
parallel_sum item_count thread_count =
    if thread_count == 0
    then none
    else if item_count == 0
    then some 0
    else let workers_to_use = min item_count thread_count in
      some (add_partials item_count workers_to_use workers_to_use 0 0)

sum_loop-add :
    (m n k value mid total : ℕ)
    → k ≡ m + n
    → mid ≡ value + m
    → sum_loop k value total ≡ sum_loop n mid (sum_loop m value total)
unfolding sum_loop
sum_loop-add zero n k value mid total e f =
    let g : k ≡ n = omega arith in
    let h : value ≡ mid = omega arith in ap₂ (λ (j v : ℕ). sum_loop j v total) g h
sum_loop-add (suc m) n zero value mid total e f = absurd (omega arith)
sum_loop-add (suc m) n (suc k) value mid total e f =
    sum_loop-add m n k (value + 1) mid ((total + mix value) % 2 ^ 64) (omega arith) (omega arith)

sum_loop-total :
    (n value total : ℕ)
    → total < 2 ^ 64
    → sum_loop n value total ≡ (total + sum_loop n value 0) % 2 ^ 64
unfolding sum_loop
sum_loop-total zero value total h = omega arith
sum_loop-total (suc n) value total h = omega (
  arith,
  sum_loop-total n (value + 1) ((total + mix value) % 2 ^ 64) (omega arith),
  sum_loop-total n (value + 1) ((0 + mix value) % 2 ^ 64) (omega arith),
)

sum_loop_bounded : (n value total : ℕ) → total < 2 ^ 64 → sum_loop n value total < 2 ^ 64
unfolding sum_loop
sum_loop_bounded zero value total h = h
sum_loop_bounded (suc n) value total h = sum_loop_bounded n (value + 1) _ (omega arith)

-- Two ranges that meet.
sum_range-meet :
    (begin mid end : ℕ)
    → begin ≤ mid
    → mid ≤ end
    → (sum_range begin mid + sum_range mid end) % 2 ^ 64 ≡ sum_range begin end
unfolding sum_range
sum_range-meet begin mid end h k = sym (
    sum_loop-add (mid - begin) (end - mid) (end - begin) begin mid 0 (omega arith) (omega arith)
    ∙ sum_loop-total (end - mid) mid (sum_loop (mid - begin) begin 0)
        (sum_loop_bounded (mid - begin) begin 0 (omega arith)))

-- The items and the workers, whose product fits 64 bits.
module _ (n w : ℕ) (some_worker : 0 < w) (few : w < 2 ^ 32) (fits : n * w < 2 ^ 64) where
  times_le : (i j : ℕ) → i ≤ j → n * i ≤ n * j
  times_le i j h = mul-le-mul_left n h

  boundary_lem : (i : ℕ) → i ≤ w → boundary n w i ≡ n * i / w
  boundary_lem i h =
      let e : n * i % 2 ^ 64 ≡ n * i = omega (arith, times_le i w h) in ap (λ (k : ℕ). k / w) e

  boundary_le : (i j : ℕ) → i ≤ j → j ≤ w → boundary n w i ≤ boundary n w j
  boundary_le i j h k =
      let below : n * i / w * w ≤ n * i = (le-div_iff_mul-le some_worker).0 (omega arith) in
      let le : n * i / w ≤ n * j / w =
        (le-div_iff_mul-le some_worker).1 (omega (arith, below, times_le i j h)) in
      omega (arith, le, boundary_lem i (omega arith), boundary_lem j k)

  add_partials-sum_range :
      (left worker : ℕ)
      → worker + left ≡ w
      → add_partials n w left worker (sum_range 0 (boundary n w worker)) ≡ sum_range 0 n
  unfolding add_partials
  add_partials-sum_range zero worker e =
      let at_end : worker ≡ w = omega arith in
      let all_items : boundary n w worker ≡ n =
        boundary_lem worker (omega arith)
        ∙ ap (λ (i : ℕ). n * i / w) at_end
        ∙ mul-div_left n some_worker in
      ap (sum_range 0) all_items
  add_partials-sum_range (suc left) worker e =
      let next : (worker + 1) % 2 ^ 32 ≡ worker + 1 = omega arith in
      let joined =
        sum_range-meet 0 (boundary n w worker) (boundary n w (worker + 1)) (omega arith)
          (boundary_le worker (worker + 1) (omega arith) (omega arith)) in
      rw (next, joined) (add_partials-sum_range left (worker + 1) (omega arith))

  all_partials : add_partials n w w 0 0 ≡ sum_range 0 n
  all_partials =
      let start : boundary n w 0 ≡ 0 =
        boundary_lem 0 (omega arith) ∙ ap (λ (k : ℕ). k / w) (mul-zero n) ∙ zero-div w in
      let nothing : sum_range 0 (boundary n w 0) ≡ 0 =
        ap (sum_range 0) start ∙ unfold sum_range in refl in
      ap (add_partials n w w 0) (sym nothing) ∙ add_partials-sum_range w 0 (omega arith)

-- If the product of the items and the threads fits 64 bits, `parallel_sum` on at least one thread
-- yields the sum of the whole range, whatever the number of threads.
pub parallel_sum-sum_range :
    (item_count thread_count : ℕ)
    → 0 < thread_count
    → thread_count < 2 ^ 32
    → item_count * thread_count < 2 ^ 64
    → parallel_sum item_count thread_count ≡ some (sum_range 0 item_count)
unfolding parallel_sum sum_range sum_loop
parallel_sum-sum_range zero thread_count h few fits = ground arith
parallel_sum-sum_range (suc items) thread_count h few fits =
    let w : ℕ = min (suc items) thread_count in
    let small : w ≤ thread_count = omega arith in
    let p : add_partials (suc items) w w 0 0 ≡ sum_range 0 (suc items) =
      all_partials (suc items) w (omega arith) (omega arith)
        (omega (arith, mul-le-mul_left (suc items) small)) in
    ground (arith, p)
