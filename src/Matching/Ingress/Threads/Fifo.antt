-- ===== src/Matching/Ingress/Threads/Fifo.antt =====
-- What the shared queue promises to its callers, over every interleaving of them.
use native.Mathlib.Nat.{mod-eq_of_lt}
use becomeasystemsengineer.Prelude.{
  set_at, set_at-same, set_at-other, same_number, ℕ, ◌+◌, ◌%◌, ◌^◌, ◌≤◌, ◌<◌, ◌≡◌, inl, inr, refl,
  Option, List, [], ◌∷◌, arith, length, length-append, All, sym, ◌∙◌, subst,
}
use becomeasystemsengineer.Matching.Ingress.Threads.{
  Pc, idle, trying, compared, taking, checked, Shared, cell_at, System, Reachable, here, then, Move,
  enters_push, loads_push, wins_push, loses_push, finds_full, retries_push, emplaces, publishes,
  enters_pop, loads_pop, wins_pop, loses_pop, finds_empty, retries_pop, moves_out, releases,
}
use becomeasystemsengineer.Matching.Ingress.Threads.Phases.{
  Phase, free, reserved, claimed, Has, PcOk, Delivered, Distinct, SharedOk,
}
use becomeasystemsengineer.Matching.Ingress.Threads.Order.{
  next_small, Stepped, looks, loaded_push, loaded_pop,
}
use becomeasystemsengineer.Matching.Ingress.Threads.Moves.{
  at_phase, emplaces_lem, publishes_lem, moves_out_lem,
}
use becomeasystemsengineer.Matching.Ingress.Threads.Claims.{
  releases_lem, wins_push_lem, wins_pop_lem,
}

module _ {A : Type 0} where
  Move-Stepped :
      (s s' : Shared A) (phase : ℕ → Phase) (i : ℕ) (pc pc' : Pc A)
      → SharedOk s phase
      → length s'.accepted + s'.queue.capacity < 2 ^ 63
      → PcOk s phase i pc
      → Move s pc s' pc'
      → Stepped s s' phase i pc'
  Move-Stepped s s' phase i pc pc' ok small h (enters_push item) =
      looks s phase ok i (trying item s.queue.enqueue) tt
  Move-Stepped s s' phase i pc pc' ok small h (loads_push item k) =
      looks s phase ok i (compared item k (cell_at s.queue k).sequence) (
        loaded_push s phase ok k (k % s.queue.capacity) (phase (k % s.queue.capacity)) refl refl
          (at_phase s phase ok k (phase (k % s.queue.capacity)) refl))
  Move-Stepped s s' phase i pc pc' ok small h (wins_push item k sequence e top) =
      let counted = ok.enqueue_lem in
      let longer = length-append s.accepted (item ∷ []) in
      elim (h e) [
        | inl lt ↦ absurd (omega (arith, lt, top))
        | inr waits ↦
            wins_push_lem s phase ok i item k (omega (arith, small, counted, longer, top)) top waits
      ]
  Move-Stepped s s' phase i pc pc' ok small h (loses_push item k sequence e) =
      looks s phase ok i (trying item s.queue.enqueue) tt
  Move-Stepped s s' phase i pc pc' ok small h (finds_full item k sequence e) =
      looks s phase ok i idle tt
  Move-Stepped s s' phase i pc pc' ok small h (retries_push item k sequence e f) =
      looks s phase ok i (trying item s.queue.enqueue) tt
  Move-Stepped s s' phase i pc pc' ok small h (emplaces item k) = emplaces_lem s phase ok i item k h
  Move-Stepped s s' phase i pc pc' ok small h (publishes item k) =
      let (held, has, stored) = h in
      let (at, sequence, lt, le, near) = at_phase s phase ok k (reserved k i) held in
      let counted = ok.enqueue_lem in
      publishes_lem s phase ok i item k (omega (arith, small, counted, lt)) h
  Move-Stepped s s' phase i pc pc' ok small h enters_pop =
      looks s phase ok i (taking s.queue.dequeue) (omega arith)
  Move-Stepped s s' phase i pc pc' ok small h (loads_pop k) =
      let counted = ok.enqueue_lem in
      let below = ok.dequeue_le in
      let wide = ok.several in
      let step = next_small k (omega (arith, h, small, counted, below, wide)) in
      looks s phase ok i (checked k (cell_at s.queue k).sequence) (
        h,
        λ e.
            loaded_pop s phase ok k (k % s.queue.capacity) (phase (k % s.queue.capacity)) refl refl
              (at_phase s phase ok k (phase (k % s.queue.capacity)) refl) (e ∙ step),
      )
  Move-Stepped s s' phase i pc pc' ok small h (wins_pop k sequence e top) =
      let counted = ok.enqueue_lem in
      let below = ok.dequeue_le in
      let wide = ok.several in
      elim (h.1 e) [
        | inl lt ↦ absurd (omega (arith, lt, top))
        | inr holds ↦
            wins_pop_lem s phase ok i k (omega (arith, small, counted, below, top, wide)) top holds
      ]
  Move-Stepped s s' phase i pc pc' ok small h (loses_pop k sequence e) =
      looks s phase ok i (taking s.queue.dequeue) (omega arith)
  Move-Stepped s s' phase i pc pc' ok small h (finds_empty k sequence e) =
      looks s phase ok i idle tt
  Move-Stepped s s' phase i pc pc' ok small h (retries_pop k sequence e f) =
      looks s phase ok i (taking s.queue.dequeue) (omega arith)
  Move-Stepped s s' phase i pc pc' ok small h (moves_out k) = moves_out_lem s phase ok i k h
  Move-Stepped s s' phase i pc pc' ok small h (releases k result) =
      let (held, has) = h in
      let (at, sequence, lt, near) = at_phase s phase ok k (claimed k i) held in
      let counted = ok.enqueue_lem in
      let below = ok.dequeue_le in
      releases_lem s phase ok i k result (omega (arith, small, counted, below, lt)) h

  -- No access forgets an item or changes the capacity.
  Move-grows :
      (s s' : Shared A) (pc pc' : Pc A)
      → Move s pc s' pc'
      → (length s.accepted ≤ length s'.accepted) × (s'.queue.capacity ≡ s.queue.capacity)
  Move-grows s s' pc pc' (enters_push item) = (omega arith, refl)
  Move-grows s s' pc pc' (loads_push item k) = (omega arith, refl)
  Move-grows s s' pc pc' (wins_push item k sequence e top) =
      (omega (arith, length-append s.accepted (item ∷ [])), refl)
  Move-grows s s' pc pc' (loses_push item k sequence e) = (omega arith, refl)
  Move-grows s s' pc pc' (finds_full item k sequence e) = (omega arith, refl)
  Move-grows s s' pc pc' (retries_push item k sequence e f) = (omega arith, refl)
  Move-grows s s' pc pc' (emplaces item k) = (omega arith, refl)
  Move-grows s s' pc pc' (publishes item k) = (omega arith, refl)
  Move-grows s s' pc pc' enters_pop = (omega arith, refl)
  Move-grows s s' pc pc' (loads_pop k) = (omega arith, refl)
  Move-grows s s' pc pc' (wins_pop k sequence e top) = (omega arith, refl)
  Move-grows s s' pc pc' (loses_pop k sequence e) = (omega arith, refl)
  Move-grows s s' pc pc' (finds_empty k sequence e) = (omega arith, refl)
  Move-grows s s' pc pc' (retries_pop k sequence e f) = (omega arith, refl)
  Move-grows s s' pc pc' (moves_out k) = (omega arith, refl)
  Move-grows s s' pc pc' (releases k result) = (omega arith, refl)

  record Sound (capacity : ℕ) (s : System A) : Type 0 where
    phase : ℕ → Phase
    shared_lem : SharedOk s.shared phase
    pcs_lem : (i : ℕ) → PcOk s.shared phase i (s.pcs i)
    same_capacity : s.shared.queue.capacity ≡ capacity

  Reachable-Sound :
      (capacity : ℕ) (s : System A)
      → 1 < capacity
      → length s.shared.accepted + capacity < 2 ^ 63
      → Reachable A capacity s
      → Sound capacity s
  Reachable-Sound capacity s several small here = record {
    phase = λ c. free c;
    shared_lem = record {
      several = several;
      enqueue_lem = refl;
      dequeue_le = omega arith;
      within = omega arith;
      cells_lem = λ c h. (mod-eq_of_lt h, refl, omega arith, omega (arith, h));
      delivered_lem = tt;
      distinct = tt;
    };
    pcs_lem = λ i. tt;
    same_capacity = refl;
  }
  Reachable-Sound capacity s several small (then i b shared pc r m) =
      let (grows, kept) = Move-grows b.shared shared (b.pcs i) pc m in
      let before = Reachable-Sound capacity b several (omega (arith, small, grows)) r in
      let same : shared.queue.capacity ≡ capacity = kept ∙ before.same_capacity in
      let after =
        Move-Stepped b.shared shared before.phase i (b.pcs i) pc before.shared_lem
          (omega (arith, small, same)) (before.pcs_lem i) m in
      record {
        phase = after.later;
        shared_lem = after.shared_lem;
        pcs_lem = λ j. elim (same_number j i) [
          | inl mine ↦
              subst (λ (x : ℕ). PcOk shared after.later x (set_at b.pcs i pc x)) (sym mine)
                (rw (set_at-same b.pcs i pc) after.own)
          | inr ne ↦
              rw (set_at-other b.pcs i pc j ne) (after.others j (b.pcs j) ne (before.pcs_lem j))
        ];
        same_capacity = same;
      }

  found :
      (s : Shared A) (phase : ℕ → Phase) (ds : List (ℕ × Option A))
      → All (Delivered s phase) ds
      → All (λ (d : ℕ × Option A). Has s.accepted d.0 d.1) ds
  found s phase [] h = tt
  found s phase (d ∷ ds) ((has, gone), hs) = (has, found s phase ds hs)

  -- In every interleaving of any number of producers and consumers, on a queue with more than one cell
  -- and while the items and the capacity together stay below 2 ^ 63: whatever a pop returned is the
  -- item whose push was the one to take that position, no position was returned twice, the counter of
  -- pushes is the number of items that were accepted, and the counter of pops is behind it, by at most
  -- the capacity.
  pub delivered_in_order :
      (capacity : ℕ) (s : System A)
      → 1 < capacity
      → length s.shared.accepted + capacity < 2 ^ 63
      → Reachable A capacity s
      → All (λ (d : ℕ × Option A). Has s.shared.accepted d.0 d.1) s.shared.delivered
        × Distinct s.shared.delivered
        × (s.shared.queue.enqueue ≡ length s.shared.accepted)
        × (s.shared.queue.dequeue ≤ s.shared.queue.enqueue)
        × (s.shared.queue.enqueue ≤ s.shared.queue.dequeue + capacity)
  delivered_in_order capacity s several small r =
      let sound = Reachable-Sound capacity s several small r in
      let ok = sound.shared_lem in
      (
        found s.shared sound.phase s.shared.delivered ok.delivered_lem,
        ok.distinct,
        ok.enqueue_lem,
        ok.dequeue_le,
        let within = ok.within in let same = sound.same_capacity in omega (arith, within, same),
      )
