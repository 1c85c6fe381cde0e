-- ===== src/ThreadPool/Draining.antt =====
-- What the joins of `ThreadPool::shutdown` wait for, and what the workers have to do until then.
use becomeasystemsengineer.Prelude.{
  ℕ, zero, suc, ◌+◌, ◌*◌, ◌%◌, ◌^◌, ◌≤◌, ◌<◌, ◌≡◌, ◌⊎◌, inl, inr, refl, true, [], ◌++◌, arith,
  length, ap, ◌∙◌, append-nil,
}
use becomeasystemsengineer.BlockingQueue.{
  BlockingQueue, close, push_accepts, push_refuses, pop_takes, pop_ends,
}
use becomeasystemsengineer.ThreadPool.{
  ThreadPool, new_pool, Step, checks, counts, pushes, gives_up, shuts_down, closes, notifies,
  notifies_all, stirs, sleeps, works, WorkerStep, starts, ends, leaves, Reachable, here, then,
}
use becomeasystemsengineer.ThreadPool.Counting.{Reachable-IsCounted}

module _ {Task : Type 0} where
  -- No worker has left, or the queue is closed and drained.
  abbrev IsStaffed : ℕ → ThreadPool Task → Type 0
  IsStaffed workers p =
      (p.idle + p.asleep + p.running ≡ workers) ⊎ ((p.tasks.closed ≡ true) × (p.tasks.queue ≡ []))

  Step-IsStaffed :
      (workers : ℕ) (p p' : ThreadPool Task)
      → IsStaffed workers p
      → Step p p'
      → IsStaffed workers p'
  Step-IsStaffed workers p p' s (checks e) = s
  Step-IsStaffed workers p p' s (counts n e) = s
  Step-IsStaffed workers p p' s (pushes task n q e f) =
      let (_, _, _, _, opened) = push_accepts task p.tasks q f in
      elim s [ inl all ↦ inl all | inr (closed, _) ↦ cc ]
  Step-IsStaffed workers p p' s (gives_up task n q e f) =
      let (kept, _) = push_refuses task p.tasks q f in
      elim s [
        | inl all ↦ inl all
        | inr (closed, none_left) ↦ inr (rw kept closed, rw kept none_left)
      ]
  Step-IsStaffed workers p p' s (notifies n e) = elim s [
    | inl all ↦ inl (omega (arith, all))
    | inr drained ↦ inr drained
  ]
  Step-IsStaffed workers p p' s (shuts_down e) = s
  Step-IsStaffed workers p p' s (notifies_all n e) = elim s [
    | inl all ↦ inl (omega (arith, all))
    | inr drained ↦ inr drained
  ]
  Step-IsStaffed workers p p' s (stirs n e) = elim s [
    | inl all ↦ inl (omega (arith, all, e))
    | inr drained ↦ inr drained
  ]
  Step-IsStaffed workers p p' s (works b (sleeps n e f)) = elim s [
    | inl all ↦ inl (omega (arith, all, e))
    | inr drained ↦ inr drained
  ]
  Step-IsStaffed workers p p' s (closes n e) =
      unfold close in elim s [ inl all ↦ inl all | inr (closed, none_left) ↦ inr (refl, none_left) ]
  Step-IsStaffed workers p p' s (works b (starts task n q e f)) =
      let (taken, _, _) = pop_takes task p.tasks q f in
      elim s [ inl all ↦ inl (omega (arith, all, e)) | inr (closed, none_left) ↦ cc ]
  Step-IsStaffed workers p p' s (works b (ends n e)) = elim s [
    | inl all ↦ inl (omega (arith, all, e))
    | inr drained ↦ inr drained
  ]
  Step-IsStaffed workers p p' s (works b (leaves n q e f)) =
      let (kept, closed, none_left) = pop_ends p.tasks q f in
      inr (rw kept closed, rw kept none_left)

  Reachable-IsStaffed :
      (workers : ℕ) (tasks : BlockingQueue Task) (p : ThreadPool Task)
      → Reachable (new_pool Task workers tasks) p
      → IsStaffed workers p
  Reachable-IsStaffed workers tasks p here = inl (omega arith)
  Reachable-IsStaffed workers tasks p (then b p' r s) =
      Step-IsStaffed workers b p (Reachable-IsStaffed workers tasks b r) s

  -- Once the workers of a pool that had some are gone, which is what the joins wait for, every task
  -- that was accepted has been started, in that order, and has ended; the queue is closed; and the two
  -- counters differ by the submitters alone that stand between their count and their push.
  pub joined_complete :
      (workers : ℕ) (tasks : BlockingQueue Task) (p : ThreadPool Task)
      → 0 < workers
      → tasks.queue ≡ []
      → Reachable (new_pool Task workers tasks) p
      → p.idle ≡ 0
      → p.asleep ≡ 0
      → p.running ≡ 0
      → (p.tasks.closed ≡ true)
        × (p.accepted ≡ p.started)
        × (length p.accepted ≡ p.ended)
        × (p.submitted ≡ (p.completed + p.pushing) % 2 ^ 64)
  joined_complete workers tasks p some_workers clean r no_idle none_asleep no_running =
      let c = Reachable-IsCounted workers tasks p clean r in
      elim (Reachable-IsStaffed workers tasks p r) [
        | inl all ↦ absurd (omega (arith, all, no_idle, none_asleep, no_running))
        | inr (closed, drained) ↦
            let same : p.accepted ≡ p.started =
              c.in_order ∙ ap (◌++◌ p.started) drained ∙ append-nil p.started in
            let none_left : length p.tasks.queue ≡ 0 = ap length drained in
            (
              closed,
              same,
              omega (arith, ap length same, c.started_lem, no_running),
              omega (arith, c.submitted_lem, c.completed_lem, none_left, no_running),
            )
      ]

  -- A run of so many steps of workers, and of no one else.
  pub data Works (start : ThreadPool Task) : ℕ → ThreadPool Task → Type 0 where
    stays : Works start zero start
    later :
        (n : ℕ) (p p' : ThreadPool Task)
        → Works start n p
        → WorkerStep p p'
        → Works start (suc n) p'

  -- What the workers have to do: start, end, and leave or wait.
  abbrev pub work_left : ThreadPool Task → ℕ
  work_left p = 3 * length p.tasks.queue + 2 * p.running + p.idle

  pub WorkerStep-work_left : (p p' : ThreadPool Task) → WorkerStep p p' → work_left p' < work_left p
  WorkerStep-work_left p p' (starts task n q e f) =
      let (taken, _, _) = pop_takes task p.tasks q f in omega (arith, e, ap length taken)
  WorkerStep-work_left p p' (ends n e) = omega (arith, e)
  WorkerStep-work_left p p' (sleeps n e f) = omega (arith, e)
  WorkerStep-work_left p p' (leaves n q e f) =
      let (kept, _, _) = pop_ends p.tasks q f in
      omega (arith, e, ap (λ (t : BlockingQueue Task). length t.queue) kept)

  -- No run of the workers alone is longer than three steps for each queued task, two for each running
  -- one and one for each idle worker, less what they then have to do.
  pub Works-work_left :
      (p p' : ThreadPool Task) (n : ℕ) → Works p n p' → n + work_left p' ≤ work_left p
  Works-work_left p p' n stays = omega arith
  Works-work_left p p' n (later k b b' w s) =
      omega (arith, Works-work_left p b k w, WorkerStep-work_left b p' s)
