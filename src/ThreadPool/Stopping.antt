-- ===== src/ThreadPool/Stopping.antt =====
-- The pool behind `BlockingQueue::close`: the workers are awake, and whatever the other threads do,
-- they come to an end.
use becomeasystemsengineer.Prelude.{
  ℕ, zero, suc, ◌+◌, ◌≤◌, ◌<◌, ◌≡◌, ◌⊎◌, inl, inr, refl, true, false, none, some, List, [], ◌∷◌,
  arith, length, ap, ◌∙◌,
}
use becomeasystemsengineer.BlockingQueue.{
  BlockingQueue, pop, close, push_accepts, push_refuses, pop_takes, pop_ends, pop_waits,
}
use becomeasystemsengineer.ThreadPool.{
  ThreadPool, new_pool, Step, checks, counts, pushes, gives_up, shuts_down, closes, notifies,
  notifies_all, stirs, sleeps, works, WorkerStep, starts, ends, leaves, Reachable, here, then,
}
use becomeasystemsengineer.ThreadPool.Draining.{joined_complete, work_left, WorkerStep-work_left}

module _ {Task : Type 0} where
  -- Once the queue is closed, a worker waits only until a notification that is on its way.
  IsAwake : ThreadPool Task → Type 0
  IsAwake p = (p.asleep ≡ 0) ⊎ (0 < p.to_notify) ⊎ (p.tasks.closed ≡ false)

  Step-IsAwake : (p p' : ThreadPool Task) → IsAwake p → Step p p' → IsAwake p'
  unfolding IsAwake
  Step-IsAwake p p' w (checks e) = w
  Step-IsAwake p p' w (counts n e) = w
  Step-IsAwake p p' w (pushes task n q e f) =
      let (_, _, _, same, opened) = push_accepts task p.tasks q f in inr (inr (same ∙ opened))
  Step-IsAwake p p' w (gives_up task n q e f) =
      let (kept, _) = push_refuses task p.tasks q f in
      elim w [
        | inl awake ↦ inl awake
        | inr (inl soon) ↦ inr (inl soon)
        | inr (inr opened) ↦ inr (inr (rw kept opened))
      ]
  Step-IsAwake p p' w (notifies n e) = elim w [
    | inl awake ↦ inl (omega (arith, awake))
    | inr rest ↦ inr rest
  ]
  Step-IsAwake p p' w (shuts_down e) = w
  Step-IsAwake p p' w (closes n e) = inr (inl (omega arith))
  Step-IsAwake p p' w (notifies_all n e) = inl refl
  Step-IsAwake p p' w (stirs n e) = elim w [
    | inl awake ↦ absurd (omega (arith, awake, e))
    | inr rest ↦ inr rest
  ]
  Step-IsAwake p p' w (works b (starts task n q e f)) =
      let (_, _, same) = pop_takes task p.tasks q f in
      elim w [
        | inl awake ↦ inl awake
        | inr (inl soon) ↦ inr (inl soon)
        | inr (inr opened) ↦ inr (inr (same ∙ opened))
      ]
  Step-IsAwake p p' w (works b (ends n e)) = w
  Step-IsAwake p p' w (works b (sleeps n e f)) = inr (inr (pop_waits p.tasks f))
  Step-IsAwake p p' w (works b (leaves n q e f)) =
      let (kept, _, _) = pop_ends p.tasks q f in
      elim w [
        | inl awake ↦ inl awake
        | inr (inl soon) ↦ inr (inl soon)
        | inr (inr opened) ↦ inr (inr (rw kept opened))
      ]

  Reachable-IsAwake :
      (workers : ℕ) (tasks : BlockingQueue Task) (p : ThreadPool Task)
      → Reachable (new_pool Task workers tasks) p
      → IsAwake p
  unfolding IsAwake
  Reachable-IsAwake workers tasks p here = inl refl
  Reachable-IsAwake workers tasks p (then b p' r s) =
      Step-IsAwake b p (Reachable-IsAwake workers tasks b r) s

  -- Behind the notification no worker waits.
  none_waits :
      (p : ThreadPool Task) → IsAwake p → p.tasks.closed ≡ true → p.to_notify ≡ 0 → p.asleep ≡ 0
  unfolding IsAwake
  none_waits p w closed notified = elim w [
    | inl awake ↦ awake
    | inr (inl soon) ↦ absurd (omega (arith, soon, notified))
    | inr (inr opened) ↦ cc
  ]

  -- A run of all threads, with the number of its steps that are known to be workers'.
  pub data Run (start : ThreadPool Task) : ℕ → ThreadPool Task → Type 0 where
    rests : Run start zero start
    worker_moves :
        (n : ℕ) (p p' : ThreadPool Task) → Run start n p → WorkerStep p p' → Run start (suc n) p'
    thread_moves : (n : ℕ) (p p' : ThreadPool Task) → Run start n p → Step p p' → Run start n p'

  -- A queue that is closed, and no worker that waits.
  abbrev IsClosing : ThreadPool Task → Type 0
  IsClosing p = (p.tasks.closed ≡ true) × (p.asleep ≡ 0)

  -- This is kept, no task is accepted any more, and no thread adds to the work.
  abbrev Closes : ThreadPool Task → ThreadPool Task → Type 0
  Closes p p' = IsClosing p' × (p'.accepted ≡ p.accepted) × (work_left p' ≤ work_left p)

  WorkerStep-Closes : (p p' : ThreadPool Task) → WorkerStep p p' → IsClosing p → Closes p p'
  WorkerStep-Closes p p' (starts task n q e f) (c, a) =
      let (_, _, same) = pop_takes task p.tasks q f in
      let less = WorkerStep-work_left p p' (starts task n q e f) in
      ((same ∙ c, a), refl, omega (arith, less))
  WorkerStep-Closes p p' (ends n e) (c, a) = ((c, a), refl, omega (arith, e))
  WorkerStep-Closes p p' (sleeps n e f) (c, a) = let opened = pop_waits p.tasks f in cc
  WorkerStep-Closes p p' (leaves n q e f) (c, a) =
      let (kept, _, _) = pop_ends p.tasks q f in
      let less = WorkerStep-work_left p p' (leaves n q e f) in
      ((rw kept c, a), refl, omega (arith, less))

  Step-Closes : (p p' : ThreadPool Task) → Step p p' → IsClosing p → Closes p p'
  Step-Closes p p' (checks e) h = (h, refl, omega arith)
  Step-Closes p p' (counts n e) h = (h, refl, omega arith)
  Step-Closes p p' (pushes task n q e f) (c, a) =
      let (_, _, _, _, opened) = push_accepts task p.tasks q f in cc
  Step-Closes p p' (gives_up task n q e f) (c, a) =
      let (kept, _) = push_refuses task p.tasks q f in
      let same = ap (λ (t : BlockingQueue Task). length t.queue) kept in
      ((rw kept c, a), refl, omega (arith, same))
  Step-Closes p p' (notifies n e) (c, a) = ((c, omega (arith, a)), refl, omega (arith, a))
  Step-Closes p p' (shuts_down e) h = (h, refl, omega arith)
  Step-Closes p p' (closes n e) (c, a) = unfold close in ((refl, a), refl, omega arith)
  Step-Closes p p' (notifies_all n e) (c, a) = ((c, refl), refl, omega (arith, a))
  Step-Closes p p' (stirs n e) (c, a) = absurd (omega (arith, a, e))
  Step-Closes p p' (works b w) h = WorkerStep-Closes p p' w h

  Run-Closes :
      (p p' : ThreadPool Task) (n : ℕ)
      → Run p n p'
      → IsClosing p
      → IsClosing p' × (p'.accepted ≡ p.accepted) × (n + work_left p' ≤ work_left p)
  Run-Closes p p' n rests h = (h, refl, omega arith)
  Run-Closes p p' n (worker_moves m b b' r w) h =
      let (h', same, bound) = Run-Closes p b m r h in
      let (h'', same', _) = WorkerStep-Closes b p' w h' in
      let less = WorkerStep-work_left b p' w in (h'', same' ∙ same, omega (arith, bound, less))
  Run-Closes p p' n (thread_moves m b b' r s) h =
      let (h', same, bound) = Run-Closes p b m r h in
      let (h'', same', less) = Step-Closes b p' s h' in
      (h'', same' ∙ same, omega (arith, bound, less))

  Run-Reachable :
      (start p p' : ThreadPool Task) (n : ℕ) → Reachable start p → Run p n p' → Reachable start p'
  Run-Reachable start p p' n r rests = r
  Run-Reachable start p p' n r (worker_moves m b b' run w) =
      then b p' (Run-Reachable start p b m r run) (works p' w)
  Run-Reachable start p p' n r (thread_moves m b b' run s) =
      then b p' (Run-Reachable start p b m r run) s

  popped :
      (q : BlockingQueue Task)
      → q.closed ≡ true
      → ((pop q ≡ some (none, q)) × (q.queue ≡ []))
        ⊎ ((task : Task) × (q' : BlockingQueue Task) × (pop q ≡ some (some task, q'))
            × (q'.closed ≡ true))
  unfolding pop
  popped q c = of_queue q.queue refl
    where
      of_queue :
          (tasks : List Task)
          → q.queue ≡ tasks
          → ((pop q ≡ some (none, q)) × (q.queue ≡ []))
            ⊎ ((task : Task) × (q' : BlockingQueue Task) × (pop q ≡ some (some task, q'))
                × (q'.closed ≡ true))
      of_queue [] e = inl (ground arith, e)
      of_queue (task ∷ rest) e = inr (task, record q { queue = rest }, ground arith, c)

  work_goes_on :
      (p : ThreadPool Task)
      → p.tasks.closed ≡ true
      → ((p.idle ≡ 0) × (p.running ≡ 0)) ⊎ ((p' : ThreadPool Task) × WorkerStep p p')
  work_goes_on p c = of_counts p.idle p.running refl refl
    where
      of_counts :
          (i r : ℕ)
          → p.idle ≡ i
          → p.running ≡ r
          → ((p.idle ≡ 0) × (p.running ≡ 0)) ⊎ ((p' : ThreadPool Task) × WorkerStep p p')
      of_counts zero zero e f = inl (e, f)
      of_counts zero (suc n) e f = inr (_, ends n (omega (arith, f)))
      of_counts (suc n) r e f = elim (popped p.tasks c) [
        | inl (q, _) ↦ inr (_, leaves n p.tasks (omega (arith, e)) q)
        | inr (task, q', q, c') ↦ inr (_, starts task n q' (omega (arith, e)) q)
      ]

  -- In every run of all threads of a pool, from behind the `close` of its queue and the notification
  -- that follows it: the workers take no more steps than they had to do at its start, no task is
  -- accepted, and wherever the run stands, either all workers have left, none waits and every accepted
  -- task has ended, or a worker can go on.
  pub shutdown_drains :
      (workers : ℕ) (tasks : BlockingQueue Task) (p p' : ThreadPool Task) (n : ℕ)
      → 0 < workers
      → tasks.queue ≡ []
      → Reachable (new_pool Task workers tasks) p
      → p.tasks.closed ≡ true
      → p.to_notify ≡ 0
      → Run p n p'
      → (n ≤ work_left p)
        × (p'.accepted ≡ p.accepted)
        × (((p'.idle ≡ 0) × (p'.asleep ≡ 0) × (p'.running ≡ 0) × (length p'.accepted ≡ p'.ended))
            ⊎ ((p'' : ThreadPool Task) × WorkerStep p' p''))
  shutdown_drains workers tasks p p' n some_workers clean r c notified run =
      let awake = none_waits p (Reachable-IsAwake workers tasks p r) c notified in
      let ((c', awake'), same, bound) = Run-Closes p p' n run (c, awake) in
      let r' = Run-Reachable (new_pool Task workers tasks) p p' n r run in
      (
        omega (arith, bound),
        same,
        elim (work_goes_on p' c') [
          | inr more ↦ inr more
          | inl (no_idle, no_running) ↦
              let (_, _, all_ended, _) =
                joined_complete workers tasks p' some_workers clean r' no_idle awake' no_running in
              inl (no_idle, awake', no_running, all_ended)
        ],
      )
