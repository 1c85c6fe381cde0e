-- ===== src/BlockingQueue.antt =====
-- capstone/reference/include/netforge/blocking_queue.hpp: what each method does under the lock. `none`
-- is a call that waits. The notifications behind the lock, and the workers that they wake, are in
-- ThreadPool.
use becomeasystemsengineer.Prelude.{
  ℕ, zero, suc, ◌≤◌, ◌≡◌, Bool, true, false, ◌||◌, not, Option, none, some, List, [], ◌∷◌, ◌++◌,
  arith, ltb, if◌then◌else◌, length, length-append,
}

pub record BlockingQueue (A : Type 0) : Type 0 where
  pub capacity : ℕ
  pub queue : List A
  pub closed : Bool

-- `none` is the `std::invalid_argument`.
abbrev pub new_queue : (A : Type 0) → ℕ → Option (BlockingQueue A)
new_queue A zero = none
new_queue A (suc n) = some (record { capacity = suc n; queue = []; closed = false })

module _ {A : Type 0} where
  unfoldable pub push : A → BlockingQueue A → Option (Bool × BlockingQueue A)
  push value q =
      if q.closed || ltb (length q.queue) q.capacity
      then if q.closed
        then some (false, q)
        else some (true, record q { queue = q.queue ++ value ∷ [] })
      else none

  abbrev first : BlockingQueue A → List A → Option A × BlockingQueue A
  first q [] = (none, q)
  first q (value ∷ rest) = (some value, record q { queue = rest })

  abbrev pub has_none : List A → Bool
  has_none [] = true
  has_none (value ∷ rest) = false

  unfoldable pub pop : BlockingQueue A → Option (Option A × BlockingQueue A)
  pop q = if q.closed || not (has_none q.queue) then some (first q q.queue) else none

  unfoldable pub close : BlockingQueue A → BlockingQueue A
  close q = record q { closed = true }

  unfoldable pub size : BlockingQueue A → ℕ
  size q = length q.queue

  -- A push that succeeds was on an open queue with room, and puts the value behind all others.
  pub push_accepts :
      (value : A) (q q' : BlockingQueue A)
      → push value q ≡ some (true, q')
      → (q'.queue ≡ q.queue ++ value ∷ [])
        × (length q'.queue ≤ q'.capacity)
        × (q'.capacity ≡ q.capacity)
        × (q'.closed ≡ q.closed)
        × (q.closed ≡ false)
  unfolding push
  push_accepts value q q' e = ground (arith, length-append q.queue (value ∷ []))

  -- A push that fails was on a closed queue, and leaves it as it is.
  pub push_refuses :
      (value : A) (q q' : BlockingQueue A)
      → push value q ≡ some (false, q')
      → (q' ≡ q) × (q.closed ≡ true)
  unfolding push
  push_refuses value q q' e = ground arith

  -- A pop that yields a value took the oldest one.
  pub pop_takes :
      (value : A) (q q' : BlockingQueue A)
      → pop q ≡ some (some value, q')
      → (q.queue ≡ value ∷ q'.queue) × (q'.capacity ≡ q.capacity) × (q'.closed ≡ q.closed)
  unfolding pop
  pop_takes value q q' e = ground arith

  -- A pop that yields nothing was on a closed queue that is drained.
  pub pop_ends :
      (q q' : BlockingQueue A)
      → pop q ≡ some (none, q')
      → (q' ≡ q) × (q.closed ≡ true) × (q.queue ≡ [])
  unfolding pop
  pop_ends q q' e = ground arith

  -- A pop that waits is on a queue that is open.
  pub pop_waits : (q : BlockingQueue A) → pop q ≡ none → q.closed ≡ false
  unfolding pop
  pop_waits q e = ground arith
