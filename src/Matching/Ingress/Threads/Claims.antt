-- ===== src/Matching/Ingress/Threads/Claims.antt =====
-- The exchanges that claim a cell, and the store that gives it back.
use native.Mathlib.Nat.{mod-eq_of_lt}
use becomeasystemsengineer.Prelude.{
  set_at, set_at-same, ℕ, ◌+◌, ◌%◌, ◌^◌, ◌<◌, ◌≡◌, ◌≢◌, refl, Option, some, List, [], ◌∷◌, ◌++◌,
  arith, length, length-append, get_elem?, get_elem?-append, get_elem?-length, All, ap, sym, ◌∙◌,
  subst,
}
use becomeasystemsengineer.Matching.Ingress.{Cell}
use becomeasystemsengineer.Matching.Ingress.Threads.{
  filling, draining, drained, idle, Shared, cell_at, advance_enqueue, advance_dequeue, release,
}
use becomeasystemsengineer.Matching.Ingress.Threads.Phases.{
  Phase, free, full, reserved, claimed, position_of, round-mod, PcOk, Delivered, SharedOk, Changes,
}
use becomeasystemsengineer.Matching.Ingress.Threads.Kept.{Delivered-kept}
use becomeasystemsengineer.Matching.Ingress.Threads.Order.{next_small, Stepped, changed}
use becomeasystemsengineer.Matching.Ingress.Threads.Moves.{
  HeldBy-claimed, HeldBy-free, HeldBy-full, passes, writes, at_phase,
}

module _ {A : Type 0} (s : Shared A) (phase : ℕ → Phase) (ok : SharedOk s phase) where
  -- A position that is still held was not delivered.
  undelivered :
      (k : ℕ) (ds : List (ℕ × Option A))
      → position_of (phase (k % s.queue.capacity)) ≡ k
      → All (Delivered s phase) ds
      → All (λ (d : ℕ × Option A). d.0 ≢ k) ds
  undelivered k [] held h = tt
  undelivered k (d ∷ ds) held ((has, gone), hs) =
      let later = ok.several in
      (
        λ e.
            let same : position_of (phase (d.0 % s.queue.capacity)) ≡ k =
              ap (λ (x : ℕ). position_of (phase (x % s.queue.capacity))) e ∙ held in
            omega (arith, gone, same, e, later),
        undelivered k ds held hs,
      )

  pub releases_lem :
      (i k : ℕ) (result : Option A)
      → k + s.queue.capacity < 2 ^ 63
      → PcOk s phase i (drained k result)
      → Stepped s (release s k result) phase i idle
  releases_lem i k result small (held, has) =
      let (at, sequence, lt, near) = at_phase s phase ok k (claimed k i) held in
      let c0 = k % s.queue.capacity in
      let ds : List (ℕ × Option A) = (k, result) ∷ s.delivered in
      let after : ℕ = k + s.queue.capacity in
      let cell : Cell A = record (cell_at s.queue k) { sequence = after % 2 ^ 64 } in
      let here : set_at s.queue.cells c0 cell c0 ≡ cell = set_at-same s.queue.cells c0 cell in
      let l = writes s phase k cell ds (λ k' e. cc) (λ k' e. cc) in
      let new : set_at phase c0 (free after) c0 ≡ free after = set_at-same phase c0 (free after) in
      changed s phase ok (release s k result) c0 (free after) i idle l
        (HeldBy-claimed phase c0 i k held)
        (
          round-mod s.queue.capacity k ∙ at,
          ap (λ (x : Cell A). x.sequence) here ∙ mod-eq_of_lt (omega (arith, small)),
          near,
          omega (arith, lt),
        )
        ok.enqueue_lem ok.dequeue_le ok.within
        (
          (has, rw new (omega arith)),
          Delivered-kept s (release s k result) phase c0 (free after) l s.delivered
              (rw held (omega arith)) ok.delivered_lem,
        )
        (undelivered k s.delivered (ap position_of held) ok.delivered_lem, ok.distinct) tt

  pub wins_push_lem :
      (i : ℕ) (item : A) (k : ℕ)
      → k < 2 ^ 63
      → s.queue.enqueue ≡ k
      → phase (k % s.queue.capacity) ≡ free k
      → Stepped s (advance_enqueue s item k) phase i (filling item k)
  wins_push_lem i item k small top waits =
      let (at, sequence, le, near) = at_phase s phase ok k (free k) waits in
      let c0 = k % s.queue.capacity in
      let step = next_small k small in
      let new : set_at phase c0 (reserved k i) c0 ≡ reserved k i =
        set_at-same phase c0 (reserved k i) in
      let long : length s.accepted ≡ k = sym ok.enqueue_lem ∙ top in
      let stored : get_elem? (s.accepted ++ item ∷ []) k ≡ some item =
        subst (λ (x : ℕ). get_elem? (s.accepted ++ item ∷ []) x ≡ some item) long
          (get_elem?-length s.accepted item) in
      let below = ok.dequeue_le in
      let l : Changes s (advance_enqueue s item k) phase c0 = record {
        same_capacity = refl;
        enqueue_grows = omega (arith, step, top);
        dequeue_grows = omega arith;
        enqueue_passes = λ k' ne h.
            let p = passes s.queue.capacity k' k c0 refl ne (omega (arith, h, top)) in
            omega (arith, p, step);
        dequeue_passes = λ k' ne h. h;
        keeps = λ k' item' h. get_elem?-append s.accepted (item ∷ []) k' item' h;
        cells_kept = λ c ne. refl;
        not_free = λ k' e. let same : k ≡ k' = cc in omega (arith, same, step);
        not_full = λ k' e. cc;
      } in
      changed s phase ok (advance_enqueue s item k) c0 (reserved k i) i (filling item k) l
        (HeldBy-free phase c0 i k waits)
        (
          at,
          sequence,
          omega (arith, step),
          omega (arith, below, top),
          let wide = ok.several in omega (arith, step, wide),
        )
        (step ∙ omega (arith, length-append s.accepted (item ∷ []), long))
        (omega (arith, below, top, step)) (omega (arith, near, step))
        (Delivered-kept s (advance_enqueue s item k) phase c0 (reserved k i) l s.delivered
          (rw waits (omega arith)) ok.delivered_lem)
        ok.distinct (new, stored)

  pub wins_pop_lem :
      (i k : ℕ)
      → k < 2 ^ 63
      → s.queue.dequeue ≡ k
      → phase (k % s.queue.capacity) ≡ full k
      → Stepped s (advance_dequeue s k) phase i (draining k)
  wins_pop_lem i k small top holds =
      let (at, sequence, lt, le, near, has) = at_phase s phase ok k (full k) holds in
      let c0 = k % s.queue.capacity in
      let step = next_small k small in
      let new : set_at phase c0 (claimed k i) c0 ≡ claimed k i =
        set_at-same phase c0 (claimed k i) in
      let l : Changes s (advance_dequeue s k) phase c0 = record {
        same_capacity = refl;
        enqueue_grows = omega arith;
        dequeue_grows = omega (arith, step, top);
        enqueue_passes = λ k' ne h. h;
        dequeue_passes = λ k' ne h.
            let p = passes s.queue.capacity k' k c0 refl ne (omega (arith, h, top)) in
            omega (arith, p, step);
        keeps = λ k' item h. h;
        cells_kept = λ c ne. refl;
        not_free = λ k' e. cc;
        not_full = λ k' e. let same : k ≡ k' = cc in omega (arith, same, step);
      } in
      changed s phase ok (advance_dequeue s k) c0 (claimed k i) i (draining k) l
        (HeldBy-full phase c0 i k holds) (at, sequence, omega (arith, step), near) ok.enqueue_lem
        (omega (arith, step, lt)) (let full_lem = ok.within in omega (arith, full_lem, step, top))
        (Delivered-kept s (advance_dequeue s k) phase c0 (claimed k i) l s.delivered
          (rw holds (omega arith)) ok.delivered_lem)
        ok.distinct (new, has)
