-- ===== src/Tests/Ingress.antt =====
-- The shared queue on small runs.
use becomeasystemsengineer.Prelude.{
  ℕ, ◌+◌, ◌≤◌, ◌<◌, ◌≡◌, refl, ◌*◌, ◌⊎◌, Option, none, some, [], ◌∷◌, arith, length, All,
}
use becomeasystemsengineer.Matching.Ingress.{round_power_of_two}
use becomeasystemsengineer.Matching.Ingress.Capacity.{
  pow2, round_power_of_two-pow2, round_power_of_two-none,
}
use becomeasystemsengineer.Matching.Ingress.Threads.{
  System, Reachable, here, then, enters_push, loads_push, wins_push, emplaces, publishes,
  enters_pop, loads_pop, wins_pop, moves_out, releases,
}
use becomeasystemsengineer.Matching.Ingress.Threads.Phases.{Has, Distinct}
use becomeasystemsengineer.Matching.Ingress.Threads.Fifo.{delivered_in_order}

-- One thread pushes and another one pops while the first is still at its second push.
abbrev pushed_and_popped : (s : System ℕ) × Reachable ℕ 2 s
pushed_and_popped = (
  _,
  then 1 _ _ _
      (then 1 _ _ _
        (then 1 _ _ _
          (then 1 _ _ _
            (then 0 _ _ _
              (then 1 _ _ _
                (then 0 _ _ _
                  (then 0 _ _ _
                    (then 0 _ _ _
                      (then 0 _ _ _ (then 0 _ _ _ here (enters_push 7)) (loads_push 7 0))
                      (wins_push 7 0 0 refl refl))
                    (emplaces 7 0))
                  (publishes 7 0))
                enters_pop)
              (enters_push 8))
            (loads_pop 0))
          (wins_pop 0 1 refl refl))
        (moves_out 0))
      (releases 0 (some 7)),
)

delivered_in_order_example :
    All (λ (d : ℕ × Option ℕ). Has (7 ∷ []) d.0 d.1) ((0, some 7) ∷ [])
    × Distinct {A = ℕ} ((0, some 7) ∷ [])
    × (pushed_and_popped.0.shared.queue.enqueue ≡ length {A = ℕ} (7 ∷ []))
    × (pushed_and_popped.0.shared.queue.dequeue ≤ pushed_and_popped.0.shared.queue.enqueue)
    × (pushed_and_popped.0.shared.queue.enqueue ≤ pushed_and_popped.0.shared.queue.dequeue + 2)
delivered_in_order_example =
    delivered_in_order 2 pushed_and_popped.0 (omega arith) (omega arith) pushed_and_popped.1

round_power_of_two-pow2_example :
    (j : ℕ) × (round_power_of_two 63 1000 ≡ some (pow2 j))
    × (1000 ≤ pow2 j)
    × (1 ≤ j)
    × ((j ≡ 1) ⊎ (pow2 j < 2 * 1000))
round_power_of_two-pow2_example = round_power_of_two-pow2 63 1000 (omega arith) (omega arith)

round_power_of_two-none_example : round_power_of_two 100 9223372036854775809 ≡ none
round_power_of_two-none_example = round_power_of_two-none 100 9223372036854775809 (omega arith)
