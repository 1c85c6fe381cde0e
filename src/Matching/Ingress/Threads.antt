-- ===== src/Matching/Ingress/Threads.antt =====
-- The callers of `try_push` and `try_pop`, interleaved: where each thread stands, and a move for each
-- access to what they share.
pub mod Phases
pub mod Kept
pub mod Order
pub mod Moves
pub mod Claims
pub mod Fifo
use becomeasystemsengineer.Prelude.{
  set_at, ℕ, zero, suc, ◌+◌, ◌-◌, ◌%◌, ◌^◌, ◌<◌, ◌≡◌, ◌≢◌, Bool, true, false, Option, none, some,
  List, [], ◌∷◌, ◌++◌, ◌==◌, if◌then◌else◌,
}
use becomeasystemsengineer.Matching.Ingress.{
  Cell, LockFreeIngress, new_ingress, is_behind, index_of,
}

-- Where a thread stands, with its local variables.
pub data Pc (A : Type 0) : Type 0 where
  idle : Pc A
  -- at the head of the loop of `try_push`, and behind the load of the sequence
  trying : A → ℕ → Pc A
  compared : A → ℕ → ℕ → Pc A
  -- behind the exchange that won, and behind `emplace`
  filling : A → ℕ → Pc A
  filled : A → ℕ → Pc A
  -- the same of `try_pop`, and behind the move out of the cell
  taking : ℕ → Pc A
  checked : ℕ → ℕ → Pc A
  draining : ℕ → Pc A
  drained : ℕ → Option A → Pc A

abbrev pub next : ℕ → ℕ
next position = (position + 1) % 2 ^ 64

-- The queue, and a history: the items in the order in which their exchanges won, and the positions
-- that were popped with what was returned for them, the last one first.
pub record Shared (A : Type 0) : Type 0 where
  pub queue : LockFreeIngress A
  pub accepted : List A
  pub delivered : List (ℕ × Option A)

module _ {A : Type 0} where
  abbrev pub cell_at : LockFreeIngress A → ℕ → Cell A
  cell_at q position = q.cells (index_of q position)

  abbrev pub set_cell : Shared A → ℕ → Cell A → Shared A
  set_cell s position cell = record s {
    queue = record s.queue { cells = set_at s.queue.cells (index_of s.queue position) cell };
  }

  abbrev pub set_value : Shared A → ℕ → Option A → Shared A
  set_value s position found =
      set_cell s position (record (cell_at s.queue position) { value = found })

  abbrev pub set_sequence : Shared A → ℕ → ℕ → Shared A
  set_sequence s position number =
      set_cell s position (record (cell_at s.queue position) { sequence = number })

  -- The exchanges that win.
  abbrev pub advance_enqueue : Shared A → A → ℕ → Shared A
  advance_enqueue s item position = record s {
    queue = record s.queue { enqueue = next position };
    accepted = s.accepted ++ item ∷ [];
  }

  abbrev pub advance_dequeue : Shared A → ℕ → Shared A
  advance_dequeue s position = record s { queue = record s.queue { dequeue = next position } }

  -- The end of `try_pop`.
  abbrev pub release : Shared A → ℕ → Option A → Shared A
  release s position result =
      record (set_sequence s position ((position + s.queue.capacity) % 2 ^ 64)) {
        delivered = (position, result) ∷ s.delivered;
      }

  pub data Move (s : Shared A) : Pc A → Shared A → Pc A → Type 0 where
    enters_push : (item : A) → Move s idle s (trying item s.queue.enqueue)
    loads_push :
        (item : A) (position : ℕ)
        → Move s
            (trying item position)
            s
            (compared item position (cell_at s.queue position).sequence)
    -- the exchange of `enqueue_`, which may fail for no reason
    wins_push :
        (item : A) (position sequence : ℕ)
        → sequence ≡ position
        → s.queue.enqueue ≡ position
        → Move s
            (compared item position sequence)
            (advance_enqueue s item position)
            (filling item position)
    loses_push :
        (item : A) (position sequence : ℕ)
        → sequence ≡ position
        → Move s (compared item position sequence) s (trying item s.queue.enqueue)
    finds_full :
        (item : A) (position sequence : ℕ)
        → is_behind sequence position ≡ true
        → Move s (compared item position sequence) s idle
    retries_push :
        (item : A) (position sequence : ℕ)
        → sequence ≢ position
        → is_behind sequence position ≡ false
        → Move s (compared item position sequence) s (trying item s.queue.enqueue)
    emplaces :
        (item : A) (position : ℕ)
        → Move s (filling item position) (set_value s position (some item)) (filled item position)
    publishes :
        (item : A) (position : ℕ)
        → Move s (filled item position) (set_sequence s position (next position)) idle
    enters_pop : Move s idle s (taking s.queue.dequeue)
    loads_pop :
        (position : ℕ)
        → Move s (taking position) s (checked position (cell_at s.queue position).sequence)
    wins_pop :
        (position sequence : ℕ)
        → sequence ≡ next position
        → s.queue.dequeue ≡ position
        → Move s (checked position sequence) (advance_dequeue s position) (draining position)
    loses_pop :
        (position sequence : ℕ)
        → sequence ≡ next position
        → Move s (checked position sequence) s (taking s.queue.dequeue)
    finds_empty :
        (position sequence : ℕ)
        → is_behind sequence (next position) ≡ true
        → Move s (checked position sequence) s idle
    retries_pop :
        (position sequence : ℕ)
        → sequence ≢ next position
        → is_behind sequence (next position) ≡ false
        → Move s (checked position sequence) s (taking s.queue.dequeue)
    moves_out :
        (position : ℕ)
        → Move s
            (draining position)
            (set_value s position none)
            (drained position (cell_at s.queue position).value)
    releases :
        (position : ℕ) (result : Option A)
        → Move s (drained position result) (release s position result) idle

-- Any number of threads, each with a name.
pub record System (A : Type 0) : Type 0 where
  pub shared : Shared A
  pub pcs : ℕ → Pc A

abbrev pub new_system : (A : Type 0) → ℕ → System A
new_system A capacity = record {
  shared = record { queue = new_ingress A capacity; accepted = []; delivered = [] };
  pcs = λ i. idle;
}

pub data Reachable (A : Type 0) (capacity : ℕ) : System A → Type 0 where
  here : Reachable A capacity (new_system A capacity)
  then :
      (i : ℕ) (s : System A) (shared : Shared A) (pc : Pc A)
      → Reachable A capacity s
      → Move s.shared (s.pcs i) shared pc
      → Reachable A capacity (record { shared = shared; pcs = set_at s.pcs i pc })
