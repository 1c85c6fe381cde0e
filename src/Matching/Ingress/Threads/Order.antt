-- ===== src/Matching/Ingress/Threads/Order.antt =====
-- Every access of a thread keeps what the phases mean, below 2 ^ 63 items.
use native.Mathlib.Nat.{mod-eq_of_lt}
use becomeasystemsengineer.Prelude.{
  set_at, ℕ, ◌+◌, ◌%◌, ◌^◌, ◌≤◌, ◌<◌, ◌≡◌, ◌≢◌, ◌⊎◌, inl, inr, arith, length, All, ap, sym, ◌∙◌,
  subst,
}
use becomeasystemsengineer.Matching.Ingress.Threads.{Pc, Shared, next}
use becomeasystemsengineer.Matching.Ingress.Threads.Phases.{
  Phase, free, full, reserved, claimed, succ-mod-ne, CellOk, PcOk, Delivered, Distinct, SharedOk,
  Changes, HeldBy,
}
use becomeasystemsengineer.Matching.Ingress.Threads.Kept.{PcOk-kept, cells_lem_kept}

pub next_small : (k : ℕ) → k < 2 ^ 63 → next k ≡ k + 1
next_small k h = mod-eq_of_lt (omega (arith, h))

module _ {A : Type 0} where
  pub record Stepped (s s' : Shared A) (phase : ℕ → Phase) (i : ℕ) (pc' : Pc A) : Type 0 where
    pub later : ℕ → Phase
    pub shared_lem : SharedOk s' later
    pub own : PcOk s' later i pc'
    pub others : (j : ℕ) (pc : Pc A) → j ≢ i → PcOk s phase j pc → PcOk s' later j pc

  module _ (s : Shared A) (phase : ℕ → Phase) (ok : SharedOk s phase) where
    pub looks : (i : ℕ) (pc' : Pc A) → PcOk s phase i pc' → Stepped s s phase i pc'
    looks i pc' own = record { later = phase; shared_lem = ok; own = own; others = λ j pc ne h. h }

    pub changed :
        (s' : Shared A) (c0 : ℕ) (new : Phase) (i : ℕ) (pc' : Pc A)
        → Changes s s' phase c0
        → HeldBy phase c0 i
        → CellOk s' c0 new
        → s'.queue.enqueue ≡ length s'.accepted
        → s'.queue.dequeue ≤ s'.queue.enqueue
        → s'.queue.enqueue ≤ s'.queue.dequeue + s'.queue.capacity
        → All (Delivered s' (set_at phase c0 new)) s'.delivered
        → Distinct s'.delivered
        → PcOk s' (set_at phase c0 new) i pc'
        → Stepped s s' phase i pc'
    changed s' c0 new i pc' l held_by at enqueued le within delivered distinct own = record {
      later = set_at phase c0 new;
      shared_lem = record {
        several = rw l.same_capacity ok.several;
        enqueue_lem = enqueued;
        dequeue_le = le;
        within = within;
        cells_lem = cells_lem_kept s s' phase c0 new l ok at;
        delivered_lem = delivered;
        distinct = distinct;
      };
      own = own;
      others = λ j pc ne h. PcOk-kept s s' phase c0 new l i j pc held_by ne h;
    }

    -- A sequence that is loaded at its own position was loaded from a cell that waits for its push.
    pub loaded_push :
        (k c : ℕ) (p : Phase)
        → phase c ≡ p
        → c ≡ k % s.queue.capacity
        → CellOk s c p
        → (s.queue.cells c).sequence ≡ k
        → (k < s.queue.enqueue) ⊎ (phase c ≡ free k)
    loaded_push k c (free k') was here (at, sequence, _, _) e =
        inr (subst (λ (x : ℕ). phase c ≡ free x) (sym sequence ∙ e) was)
    loaded_push k c (reserved k' i) was here (at, sequence, lt, _, _) e =
        inl (omega (arith, sequence, lt, e))
    loaded_push k c (full k') was here (at, sequence, _, _, _, _) e = absurd (
        succ-mod-ne s.queue.capacity k' ok.several
          (ap (λ (x : ℕ). x % s.queue.capacity) (sym sequence ∙ e) ∙ sym here ∙ sym at))
    loaded_push k c (claimed k' i) was here (at, sequence, _, _) e = absurd (
        succ-mod-ne s.queue.capacity k' ok.several
          (ap (λ (x : ℕ). x % s.queue.capacity) (sym sequence ∙ e) ∙ sym here ∙ sym at))

    pub loaded_pop :
        (k c : ℕ) (p : Phase)
        → phase c ≡ p
        → c ≡ k % s.queue.capacity
        → CellOk s c p
        → (s.queue.cells c).sequence ≡ k + 1
        → (k < s.queue.dequeue) ⊎ (phase c ≡ full k)
    loaded_pop k c (free k') was here (at, sequence, _, _) e = absurd (
        succ-mod-ne s.queue.capacity k ok.several
          (ap (λ (x : ℕ). x % s.queue.capacity) (sym e ∙ sequence) ∙ at ∙ here))
    loaded_pop k c (reserved k' i) was here (at, sequence, _, _, _) e = absurd (
        succ-mod-ne s.queue.capacity k ok.several
          (ap (λ (x : ℕ). x % s.queue.capacity) (sym e ∙ sequence) ∙ at ∙ here))
    loaded_pop k c (full k') was here (at, sequence, _, _, _, _) e =
        let same : k' ≡ k = omega (arith, sequence, e) in
        inr (subst (λ (x : ℕ). phase c ≡ full x) same was)
    loaded_pop k c (claimed k' i) was here (at, sequence, lt, _) e =
        inl (omega (arith, sequence, lt, e))
