-- ===== src/Matching/Ingress/Threads/Phases.antt =====
-- The phases that a cell goes through, and what they mean for the queue and for a thread.
use native.Mathlib.Nat.{mod-eq_of_lt, mod-add-mod, add-mod_right}
use native.Mathlib.Decide.{dec_lt}
use becomeasystemsengineer.Prelude.{
  ℕ, ◌+◌, ◌%◌, ◌≤◌, ◌<◌, ◌≡◌, ◌≢◌, ◌⊎◌, Option, some, List, [], ◌∷◌, arith, length, All, get_elem?,
  ap, sym, ◌∙◌,
}
use becomeasystemsengineer.Matching.Ingress.Threads.{
  Pc, idle, trying, compared, filling, filled, taking, checked, draining, drained, Shared, next,
}

-- A cell waits for the push of a position, is claimed by a thread that pushes there, holds the item of
-- that position, or is claimed by a thread that pops it.
pub data Phase : Type 0 where
  free full : ℕ → Phase
  reserved claimed : ℕ → ℕ → Phase

abbrev pub position_of : Phase → ℕ
position_of (free k) = k
position_of (full k) = k
position_of (reserved k i) = k
position_of (claimed k i) = k

-- Neighbours in the order of positions are in different cells, and a round leads back to a cell.
pub succ-mod-ne : (n k : ℕ) → 1 < n → (k + 1) % n ≢ k % n
succ-mod-ne n k h e = elim (dec_lt (k % n + 1) n) [
  | yes lt ↦
      let f : (k + 1) % n ≡ k % n + 1 = sym (mod-add-mod k n 1) ∙ mod-eq_of_lt lt in
      omega (arith, e, f)
  | no ge ↦
      let top : k % n + 1 ≡ n = grind arith in
      let f : (k + 1) % n ≡ n % n = sym (mod-add-mod k n 1) ∙ ap (λ (m : ℕ). m % n) top in
      grind (arith, e, f, add-mod_right 0 n)
]

pub round-mod : (n k : ℕ) → (k + n) % n ≡ k % n
round-mod n k = add-mod_right k n

pub ne_of_mod : (n a b : ℕ) → a % n ≢ b % n → a ≢ b
ne_of_mod n a b h e = h (ap (λ (x : ℕ). x % n) e)

-- No thread but `i` holds the cell.
abbrev pub HeldBy : (ℕ → Phase) → ℕ → ℕ → Type 0
HeldBy phase c0 i = (j k : ℕ) → j ≢ i → (phase c0 ≢ reserved k j) × (phase c0 ≢ claimed k j)

module _ {A : Type 0} where
  -- `found` is the item of the position.
  abbrev pub Has : List A → ℕ → Option A → Type 0
  Has accepted k found = (item : A) × (found ≡ some item) × (get_elem? accepted k ≡ some item)

  abbrev pub CellOk : Shared A → ℕ → Phase → Type 0
  CellOk s c (free k) =
      (k % s.queue.capacity ≡ c)
      × ((s.queue.cells c).sequence ≡ k)
      × (s.queue.enqueue ≤ k)
      × (k < s.queue.dequeue + s.queue.capacity)
  CellOk s c (reserved k i) =
      (k % s.queue.capacity ≡ c)
      × ((s.queue.cells c).sequence ≡ k)
      × (k < s.queue.enqueue)
      × (s.queue.dequeue ≤ k)
      × (s.queue.enqueue ≤ k + s.queue.capacity)
  CellOk s c (full k) =
      (k % s.queue.capacity ≡ c)
      × ((s.queue.cells c).sequence ≡ k + 1)
      × (k < s.queue.enqueue)
      × (s.queue.dequeue ≤ k)
      × (s.queue.enqueue ≤ k + s.queue.capacity)
      × Has s.accepted k (s.queue.cells c).value
  CellOk s c (claimed k i) =
      (k % s.queue.capacity ≡ c)
      × ((s.queue.cells c).sequence ≡ k + 1)
      × (k < s.queue.dequeue)
      × (s.queue.enqueue ≤ k + s.queue.capacity)

  abbrev pub PcOk : Shared A → (ℕ → Phase) → ℕ → Pc A → Type 0
  PcOk s phase i idle = Unit
  PcOk s phase i (trying item k) = Unit
  PcOk s phase i (compared item k sequence) =
      sequence ≡ k → (k < s.queue.enqueue) ⊎ (phase (k % s.queue.capacity) ≡ free k)
  PcOk s phase i (filling item k) =
      (phase (k % s.queue.capacity) ≡ reserved k i) × (get_elem? s.accepted k ≡ some item)
  PcOk s phase i (filled item k) =
      (phase (k % s.queue.capacity) ≡ reserved k i)
      × (get_elem? s.accepted k ≡ some item)
      × ((s.queue.cells (k % s.queue.capacity)).value ≡ some item)
  PcOk s phase i (taking k) = k ≤ s.queue.dequeue
  PcOk s phase i (checked k sequence) =
      (k ≤ s.queue.dequeue)
      × (sequence ≡ next k → (k < s.queue.dequeue) ⊎ (phase (k % s.queue.capacity) ≡ full k))
  PcOk s phase i (draining k) =
      (phase (k % s.queue.capacity) ≡ claimed k i)
      × Has s.accepted k (s.queue.cells (k % s.queue.capacity)).value
  PcOk s phase i (drained k result) =
      (phase (k % s.queue.capacity) ≡ claimed k i) × Has s.accepted k result

  -- A position that was popped gave its own item, and its cell has gone on to a later round.
  abbrev pub Delivered : Shared A → (ℕ → Phase) → ℕ × Option A → Type 0
  Delivered s phase d =
      Has s.accepted d.0 d.1
      × (d.0 + s.queue.capacity ≤ position_of (phase (d.0 % s.queue.capacity)))

  abbrev pub Distinct : List (ℕ × Option A) → Type 0
  Distinct [] = Unit
  Distinct (d ∷ ds) = All (λ e. e.0 ≢ d.0) ds × Distinct ds

  pub record SharedOk (s : Shared A) (phase : ℕ → Phase) : Type 0 where
    pub several : 1 < s.queue.capacity
    pub enqueue_lem : s.queue.enqueue ≡ length s.accepted
    pub dequeue_le : s.queue.dequeue ≤ s.queue.enqueue
    pub within : s.queue.enqueue ≤ s.queue.dequeue + s.queue.capacity
    pub cells_lem : (c : ℕ) → c < s.queue.capacity → CellOk s c (phase c)
    pub delivered_lem : All (Delivered s phase) s.delivered
    pub distinct : Distinct s.delivered

  -- What becomes of the queue when a thread changes the phase of one cell, `c0`.
  pub record Changes (s s' : Shared A) (phase : ℕ → Phase) (c0 : ℕ) : Type 0 where
    pub same_capacity : s'.queue.capacity ≡ s.queue.capacity
    pub enqueue_grows : s.queue.enqueue ≤ s'.queue.enqueue
    pub dequeue_grows : s.queue.dequeue ≤ s'.queue.dequeue
    pub enqueue_passes :
        (k : ℕ) → k % s.queue.capacity ≢ c0 → s.queue.enqueue ≤ k → s'.queue.enqueue ≤ k
    pub dequeue_passes :
        (k : ℕ) → k % s.queue.capacity ≢ c0 → s.queue.dequeue ≤ k → s'.queue.dequeue ≤ k
    pub keeps :
        (k : ℕ) (item : A)
        → get_elem? s.accepted k ≡ some item
        → get_elem? s'.accepted k ≡ some item
    pub cells_kept : (c : ℕ) → c ≢ c0 → s'.queue.cells c ≡ s.queue.cells c
    pub not_free : (k : ℕ) → phase c0 ≡ free k → k < s'.queue.enqueue
    pub not_full : (k : ℕ) → phase c0 ≡ full k → k < s'.queue.dequeue
