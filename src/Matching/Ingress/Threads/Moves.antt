-- ===== src/Matching/Ingress/Threads/Moves.antt =====
-- The accesses of a thread to a cell that it holds.
use native.Mathlib.Nat.{mod-lt}
use becomeasystemsengineer.Prelude.{
  set_at, set_at-same, set_at-other, ℕ, ◌+◌, ◌%◌, ◌^◌, ◌≤◌, ◌<◌, ◌≡◌, ◌≢◌, refl, Option, none, some,
  List, arith, ap, ◌∙◌, subst,
}
use becomeasystemsengineer.Matching.Ingress.{Cell}
use becomeasystemsengineer.Matching.Ingress.Threads.{
  Pc, filling, filled, draining, drained, idle, Shared, next, cell_at, set_cell, set_value,
  set_sequence,
}
use becomeasystemsengineer.Matching.Ingress.Threads.Phases.{
  Phase, free, full, reserved, claimed, position_of, CellOk, PcOk, SharedOk, Changes, HeldBy,
}
use becomeasystemsengineer.Matching.Ingress.Threads.Kept.{Delivered-kept}
use becomeasystemsengineer.Matching.Ingress.Threads.Order.{next_small, Stepped, changed}

pub HeldBy-reserved : (phase : ℕ → Phase) (c0 i k : ℕ) → phase c0 ≡ reserved k i → HeldBy phase c0 i
HeldBy-reserved phase c0 i k h j k' ne = (λ e. ne cc, λ e. cc)

pub HeldBy-claimed : (phase : ℕ → Phase) (c0 i k : ℕ) → phase c0 ≡ claimed k i → HeldBy phase c0 i
HeldBy-claimed phase c0 i k h j k' ne = (λ e. cc, λ e. ne cc)

pub HeldBy-free : (phase : ℕ → Phase) (c0 i k : ℕ) → phase c0 ≡ free k → HeldBy phase c0 i
HeldBy-free phase c0 i k h j k' ne = (λ e. cc, λ e. cc)

pub HeldBy-full : (phase : ℕ → Phase) (c0 i k : ℕ) → phase c0 ≡ full k → HeldBy phase c0 i
HeldBy-full phase c0 i k h j k' ne = (λ e. cc, λ e. cc)

-- The numbers that differ from one whose cell is another.
pub passes : (n k a c0 : ℕ) → a % n ≡ c0 → k % n ≢ c0 → a ≤ k → a + 1 ≤ k
passes n k a c0 at ne le = let other : k ≢ a = λ e. ne (rw e at) in grind arith

module _ {A : Type 0} (s : Shared A) (phase : ℕ → Phase) where
  -- A cell that is held is written by its holder.
  pub writes :
      (k : ℕ) (cell : Cell A) (ds : List (ℕ × Option A))
      → ((k' : ℕ) → phase (k % s.queue.capacity) ≢ free k')
      → ((k' : ℕ) → phase (k % s.queue.capacity) ≢ full k')
      → Changes s (record (set_cell s k cell) { delivered = ds }) phase (k % s.queue.capacity)
  writes k cell ds not_free not_full = record {
    same_capacity = refl;
    enqueue_grows = omega arith;
    dequeue_grows = omega arith;
    enqueue_passes = λ k' ne le. le;
    dequeue_passes = λ k' ne le. le;
    keeps = λ k' item h. h;
    cells_kept = λ c ne. set_at-other s.queue.cells (k % s.queue.capacity) cell c ne;
    not_free = λ k' e. absurd (not_free k' e);
    not_full = λ k' e. absurd (not_full k' e);
  }

  module _ (ok : SharedOk s phase) where
    positive : 0 < s.queue.capacity
    positive = let h = ok.several in omega (arith, h)

    pub at_phase :
        (k : ℕ) (p : Phase) → phase (k % s.queue.capacity) ≡ p → CellOk s (k % s.queue.capacity) p
    at_phase k p e =
        subst (λ (x : Phase). CellOk s (k % s.queue.capacity) x) e
          (ok.cells_lem (k % s.queue.capacity) (mod-lt k positive))

    -- The holder of a cell writes it, and with that changes its phase.
    holder_writes :
        (i k : ℕ) (cell : Cell A) (p new : Phase) (pc' : Pc A)
        → phase (k % s.queue.capacity) ≡ p
        → Changes s (set_cell s k cell) phase (k % s.queue.capacity)
        → HeldBy phase (k % s.queue.capacity) i
        → position_of p ≤ position_of new
        → CellOk (set_cell s k cell) (k % s.queue.capacity) new
        → PcOk (set_cell s k cell) (set_at phase (k % s.queue.capacity) new) i pc'
        → Stepped s (set_cell s k cell) phase i pc'
    holder_writes i k cell p new pc' held l held_by le at own =
        changed s phase ok (set_cell s k cell) (k % s.queue.capacity) new i pc' l held_by at
          ok.enqueue_lem ok.dequeue_le ok.within
          (Delivered-kept s (set_cell s k cell) phase (k % s.queue.capacity) new l s.delivered
            (rw held le) ok.delivered_lem)
          ok.distinct own

    pub emplaces_lem :
        (i : ℕ) (item : A) (k : ℕ)
        → PcOk s phase i (filling item k)
        → Stepped s (set_value s k (some item)) phase i (filled item k)
    emplaces_lem i item k (held, has) =
        let (at, sequence, lt, le, near) = at_phase k (reserved k i) held in
        let c0 = k % s.queue.capacity in
        let cell : Cell A = record (cell_at s.queue k) { value = some item } in
        let here : set_at s.queue.cells c0 cell c0 ≡ cell = set_at-same s.queue.cells c0 cell in
        holder_writes i k cell (reserved k i) (reserved k i) (filled item k) held
          (writes k cell s.delivered (λ k' e. cc) (λ k' e. cc)) (HeldBy-reserved phase c0 i k held)
          (omega arith) (at, ap (λ (x : Cell A). x.sequence) here ∙ sequence, lt, le, near)
          (set_at-same phase c0 (reserved k i), has, ap (λ (x : Cell A). x.value) here)

    pub publishes_lem :
        (i : ℕ) (item : A) (k : ℕ)
        → k < 2 ^ 63
        → PcOk s phase i (filled item k)
        → Stepped s (set_sequence s k (next k)) phase i idle
    publishes_lem i item k small (held, has, stored) =
        let (at, sequence, lt, le, near) = at_phase k (reserved k i) held in
        let c0 = k % s.queue.capacity in
        let cell : Cell A = record (cell_at s.queue k) { sequence = next k } in
        let here : set_at s.queue.cells c0 cell c0 ≡ cell = set_at-same s.queue.cells c0 cell in
        holder_writes i k cell (reserved k i) (full k) idle held
          (writes k cell s.delivered (λ k' e. cc) (λ k' e. cc)) (HeldBy-reserved phase c0 i k held)
          (omega arith)
          (
            at,
            ap (λ (x : Cell A). x.sequence) here ∙ next_small k small,
            lt,
            le,
            near,
            (item, ap (λ (x : Cell A). x.value) here ∙ stored, has),
          )
          tt

    pub moves_out_lem :
        (i k : ℕ)
        → PcOk s phase i (draining k)
        → Stepped s (set_value s k none) phase i (drained k (cell_at s.queue k).value)
    moves_out_lem i k (held, has) =
        let (at, sequence, lt, near) = at_phase k (claimed k i) held in
        let c0 = k % s.queue.capacity in
        let cell : Cell A = record (cell_at s.queue k) { value = none } in
        let here : set_at s.queue.cells c0 cell c0 ≡ cell = set_at-same s.queue.cells c0 cell in
        holder_writes i k cell (claimed k i) (claimed k i) (drained k (cell_at s.queue k).value)
          held (writes k cell s.delivered (λ k' e. cc) (λ k' e. cc))
          (HeldBy-claimed phase c0 i k held) (omega arith)
          (at, ap (λ (x : Cell A). x.sequence) here ∙ sequence, lt, near)
          (set_at-same phase c0 (claimed k i), has)
