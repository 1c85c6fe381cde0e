-- ===== src/Matching/Ingress/Threads/Kept.antt =====
-- What a change of the phase of one cell leaves as it was.
use becomeasystemsengineer.Prelude.{
  set_at, set_at-same, set_at-other, same_number, ℕ, ◌+◌, ◌%◌, ◌≤◌, ◌<◌, ◌≡◌, ◌≢◌, ◌⊎◌, inl, inr,
  Option, List, [], ◌∷◌, arith, All, ap, sym, ◌∙◌, subst,
}
use becomeasystemsengineer.Matching.Ingress.{Cell}
use becomeasystemsengineer.Matching.Ingress.Threads.{
  Pc, idle, trying, compared, filling, filled, taking, checked, draining, drained, Shared,
}
use becomeasystemsengineer.Matching.Ingress.Threads.Phases.{
  Phase, free, full, reserved, claimed, position_of, round-mod, Has, CellOk, PcOk, Delivered,
  SharedOk, Changes, HeldBy,
}

module _ {A : Type 0} where
  module _ (s s' : Shared A) (phase : ℕ → Phase) (c0 : ℕ) (new : Phase)
      (l : Changes s s' phase c0) where
    -- A phase is as it was, or it is the one that is changed.
    phase_kept :
        (c : ℕ) (p : Phase)
        → phase c ≡ p
        → (phase c0 ≡ p) ⊎ ((set_at phase c0 new c ≡ p) × (c ≢ c0))
    phase_kept c p h = elim (same_number c c0) [
      | inl same ↦ inl (subst (λ (x : ℕ). phase x ≡ p) same h)
      | inr ne ↦ inr (set_at-other phase c0 new c ne ∙ h, ne)
    ]

    reserved_kept :
        (i j k : ℕ)
        → HeldBy phase c0 i
        → j ≢ i
        → phase (k % s.queue.capacity) ≡ reserved k j
        → (set_at phase c0 new (k % s.queue.capacity) ≡ reserved k j)
          × (s'.queue.cells (k % s.queue.capacity) ≡ s.queue.cells (k % s.queue.capacity))
    reserved_kept i j k held_by ne h = elim (phase_kept (k % s.queue.capacity) (reserved k j) h) [
      | inl held ↦ absurd ((held_by j k ne).0 held)
      | inr (kept, other) ↦ (kept, l.cells_kept (k % s.queue.capacity) other)
    ]

    claimed_kept :
        (i j k : ℕ)
        → HeldBy phase c0 i
        → j ≢ i
        → phase (k % s.queue.capacity) ≡ claimed k j
        → (set_at phase c0 new (k % s.queue.capacity) ≡ claimed k j)
          × (s'.queue.cells (k % s.queue.capacity) ≡ s.queue.cells (k % s.queue.capacity))
    claimed_kept i j k held_by ne h = elim (phase_kept (k % s.queue.capacity) (claimed k j) h) [
      | inl held ↦ absurd ((held_by j k ne).1 held)
      | inr (kept, other) ↦ (kept, l.cells_kept (k % s.queue.capacity) other)
    ]

    Has_kept : (k : ℕ) (found : Option A) → Has s.accepted k found → Has s'.accepted k found
    Has_kept k found (item, e, h) = (item, e, l.keeps k item h)

    -- The other thread finds what it relies on as it was.
    pub PcOk-kept :
        (i j : ℕ) (pc : Pc A)
        → HeldBy phase c0 i
        → j ≢ i
        → PcOk s phase j pc
        → PcOk s' (set_at phase c0 new) j pc
    PcOk-kept i j idle held_by ne h = tt
    PcOk-kept i j (trying item k) held_by ne h = tt
    PcOk-kept i j (compared item k sequence) held_by ne h = rw l.same_capacity (λ e. elim (h e) [
      | inl lt ↦ inl (omega (arith, lt, l.enqueue_grows))
      | inr was ↦ elim (phase_kept (k % s.queue.capacity) (free k) was) [
        | inl gone ↦ inl (l.not_free k gone)
        | inr (kept, _) ↦ inr kept
      ]
    ])
    PcOk-kept i j (filling item k) held_by ne (h, has) =
        rw l.same_capacity
          (let (kept, _) = reserved_kept i j k held_by ne h in (kept, l.keeps k item has))
    PcOk-kept i j (filled item k) held_by ne (h, has, stored) = rw l.same_capacity (
        let (kept, same) = reserved_kept i j k held_by ne h in
        (kept, l.keeps k item has, ap (λ (cell : Cell A). cell.value) same ∙ stored))
    PcOk-kept i j (taking k) held_by ne h = omega (arith, h, l.dequeue_grows)
    PcOk-kept i j (checked k sequence) held_by ne (le, h) = rw l.same_capacity (
      omega (arith, le, l.dequeue_grows),
      λ e. elim (h e) [
        | inl lt ↦ inl (omega (arith, lt, l.dequeue_grows))
        | inr was ↦ elim (phase_kept (k % s.queue.capacity) (full k) was) [
          | inl gone ↦ inl (l.not_full k gone)
          | inr (kept, _) ↦ inr kept
        ]
      ],
    )
    PcOk-kept i j (draining k) held_by ne (h, has) = rw l.same_capacity (
        let (kept, same) = claimed_kept i j k held_by ne h in
        (
          kept,
          subst (λ (cell : Cell A). Has s'.accepted k cell.value) (sym same)
              (Has_kept k (s.queue.cells (k % s.queue.capacity)).value has),
        ))
    PcOk-kept i j (drained k result) held_by ne (h, has) =
        rw l.same_capacity
          (let (kept, _) = claimed_kept i j k held_by ne h in (kept, Has_kept k result has))

    CellOk-kept : (c : ℕ) (p : Phase) → c ≢ c0 → CellOk s c p → CellOk s' c p
    CellOk-kept c (free k) ne (at, sequence, le, near) =
        rw (l.same_capacity, l.cells_kept c ne)
          (
            at,
            sequence,
            l.enqueue_passes k (λ e. ne (sym at ∙ e)) le,
            omega (arith, near, l.dequeue_grows),
          )
    CellOk-kept c (reserved k i) ne (at, sequence, lt, le, near) =
        rw (l.same_capacity, l.cells_kept c ne)
          (
            at,
            sequence,
            omega (arith, lt, l.enqueue_grows),
            l.dequeue_passes k (λ e. ne (sym at ∙ e)) le,
            l.enqueue_passes (k + s.queue.capacity)
                (λ e. ne (sym at ∙ sym (round-mod s.queue.capacity k) ∙ e)) near,
          )
    CellOk-kept c (full k) ne (at, sequence, lt, le, near, has) =
        rw (l.same_capacity, l.cells_kept c ne)
          (
            at,
            sequence,
            omega (arith, lt, l.enqueue_grows),
            l.dequeue_passes k (λ e. ne (sym at ∙ e)) le,
            l.enqueue_passes (k + s.queue.capacity)
                (λ e. ne (sym at ∙ sym (round-mod s.queue.capacity k) ∙ e)) near,
            Has_kept k (s.queue.cells c).value has,
          )
    CellOk-kept c (claimed k i) ne (at, sequence, lt, near) =
        rw (l.same_capacity, l.cells_kept c ne)
          (
            at,
            sequence,
            omega (arith, lt, l.dequeue_grows),
            l.enqueue_passes (k + s.queue.capacity)
                (λ e. ne (sym at ∙ sym (round-mod s.queue.capacity k) ∙ e)) near,
          )

    position_kept :
        (c : ℕ)
        → position_of (phase c0) ≤ position_of new
        → position_of (phase c) ≤ position_of (set_at phase c0 new c)
    position_kept c le = elim (same_number c c0) [
      | inl same ↦ rw (same, set_at-same phase c0 new) le
      | inr ne ↦ rw (set_at-other phase c0 new c ne) (omega arith)
    ]

    pub Delivered-kept :
        (ds : List (ℕ × Option A))
        → position_of (phase c0) ≤ position_of new
        → All (Delivered s phase) ds
        → All (Delivered s' (set_at phase c0 new)) ds
    Delivered-kept [] le h = tt
    Delivered-kept (d ∷ ds) le ((has, gone), hs) = (
      (
        Has_kept d.0 d.1 has,
        rw l.same_capacity (omega (arith, gone, position_kept (d.0 % s.queue.capacity) le)),
      ),
      Delivered-kept ds le hs,
    )

    pub cells_lem_kept :
        SharedOk s phase
        → CellOk s' c0 new
        → (c : ℕ) → c < s'.queue.capacity
        → CellOk s' c (set_at phase c0 new c)
    cells_lem_kept ok at c h = elim (same_number c c0) [
      | inl same ↦ rw (same, set_at-same phase c0 new) at
      | inr ne ↦
          rw (set_at-other phase c0 new c ne)
            (CellOk-kept c (phase c) ne (ok.cells_lem c (omega (arith, h, l.same_capacity))))
    ]
