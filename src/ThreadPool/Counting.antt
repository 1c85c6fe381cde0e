-- ===== src/ThreadPool/Counting.antt =====
-- What holds of the thread pool in every interleaving.
use becomeasystemsengineer.Prelude.{
  ℕ, ◌+◌, ◌%◌, ◌^◌, ◌≤◌, ◌≡◌, refl, List, [], ◌∷◌, ◌++◌, arith, length, length-append, append_assoc,
  ap, ◌∙◌, sym,
}
use becomeasystemsengineer.BlockingQueue.{
  BlockingQueue, close, push_accepts, push_refuses, pop_takes, pop_ends,
}
use becomeasystemsengineer.ThreadPool.{
  ThreadPool, new_pool, Step, checks, counts, pushes, gives_up, shuts_down, closes, notifies,
  notifies_all, stirs, sleeps, works, starts, ends, leaves, Reachable, here, then,
}

module _ {Task : Type 0} where
  -- The submitted tasks are those on their way, in the queue, in a worker or done; the tasks start
  -- in the order in which they were accepted; the queue keeps to its capacity; and a task that is
  -- accepted is not forgotten: those that have started are in a worker or done.
  pub record IsCounted (p : ThreadPool Task) : Type 0 where
    pub submitted_lem :
        p.submitted ≡ (p.pushing + length p.tasks.queue + p.running + p.ended) % 2 ^ 64
    pub completed_lem : p.completed ≡ p.ended % 2 ^ 64
    pub in_order : p.accepted ≡ p.started ++ p.tasks.queue
    pub within : length p.tasks.queue ≤ p.tasks.capacity
    pub started_lem : length p.started ≡ p.running + p.ended

  Step-IsCounted : (p p' : ThreadPool Task) → IsCounted p → Step p p' → IsCounted p'
  Step-IsCounted p p' c (checks e) = record {
    submitted_lem = c.submitted_lem;
    completed_lem = c.completed_lem;
    in_order = c.in_order;
    within = c.within;
    started_lem = c.started_lem;
  }
  Step-IsCounted p p' c (counts n e) = record {
    submitted_lem = omega (arith, c.submitted_lem);
    completed_lem = c.completed_lem;
    in_order = c.in_order;
    within = c.within;
    started_lem = c.started_lem;
  }
  Step-IsCounted p p' c (pushes task n q e f) =
      let (added, room, _, _, _) = push_accepts task p.tasks q f in
      let longer : length q.queue ≡ length p.tasks.queue + 1 =
        omega (arith, ap length added, length-append p.tasks.queue (task ∷ [])) in
      record {
        submitted_lem = omega (arith, c.submitted_lem, longer, e);
        completed_lem = c.completed_lem;
        in_order =
            ap (λ (x : List Task). x ++ task ∷ []) c.in_order
            ∙ append_assoc p.started p.tasks.queue (task ∷ [])
            ∙ ap (◌++◌ p.started) (sym added);
        within = room;
        started_lem = c.started_lem;
      }
  Step-IsCounted p p' c (gives_up task n q e f) =
      let (kept, _) = push_refuses task p.tasks q f in
      let same_length : length q.queue ≡ length p.tasks.queue =
        ap (λ (x : BlockingQueue Task). length x.queue) kept in
      record {
        submitted_lem = omega (arith, c.submitted_lem, same_length, e);
        completed_lem = c.completed_lem;
        in_order = rw kept c.in_order;
        within = rw kept c.within;
        started_lem = c.started_lem;
      }
  Step-IsCounted p p' c (shuts_down e) = record {
    submitted_lem = c.submitted_lem;
    completed_lem = c.completed_lem;
    in_order = c.in_order;
    within = c.within;
    started_lem = c.started_lem;
  }
  Step-IsCounted p p' c (notifies n e) = record {
    submitted_lem = c.submitted_lem;
    completed_lem = c.completed_lem;
    in_order = c.in_order;
    within = c.within;
    started_lem = c.started_lem;
  }
  Step-IsCounted p p' c (notifies_all n e) = record {
    submitted_lem = c.submitted_lem;
    completed_lem = c.completed_lem;
    in_order = c.in_order;
    within = c.within;
    started_lem = c.started_lem;
  }
  Step-IsCounted p p' c (stirs n e) = record {
    submitted_lem = c.submitted_lem;
    completed_lem = c.completed_lem;
    in_order = c.in_order;
    within = c.within;
    started_lem = c.started_lem;
  }
  Step-IsCounted p p' c (works b (sleeps n e f)) = record {
    submitted_lem = c.submitted_lem;
    completed_lem = c.completed_lem;
    in_order = c.in_order;
    within = c.within;
    started_lem = c.started_lem;
  }
  Step-IsCounted p p' c (closes n e) =
      unfold close in
      record {
        submitted_lem = c.submitted_lem;
        completed_lem = c.completed_lem;
        in_order = c.in_order;
        within = c.within;
        started_lem = c.started_lem;
      }
  Step-IsCounted p p' c (works b (starts task n q e f)) =
      let (taken, cap, _) = pop_takes task p.tasks q f in
      let shorter : length p.tasks.queue ≡ length q.queue + 1 = omega (arith, ap length taken) in
      record {
        submitted_lem = omega (arith, c.submitted_lem, shorter);
        completed_lem = c.completed_lem;
        in_order =
            c.in_order
            ∙ ap (◌++◌ p.started) taken
            ∙ sym (append_assoc p.started (task ∷ []) q.queue);
        within = omega (arith, c.within, shorter, cap);
        started_lem = omega (arith, c.started_lem, length-append p.started (task ∷ []));
      }
  Step-IsCounted p p' c (works b (ends n e)) = record {
    submitted_lem = omega (arith, c.submitted_lem, e);
    completed_lem = omega (arith, c.completed_lem);
    in_order = c.in_order;
    within = c.within;
    started_lem = omega (arith, c.started_lem, e);
  }
  Step-IsCounted p p' c (works b (leaves n q e f)) =
      let (kept, _, _) = pop_ends p.tasks q f in
      record {
        submitted_lem = rw kept c.submitted_lem;
        completed_lem = c.completed_lem;
        in_order = rw kept c.in_order;
        within = rw kept c.within;
        started_lem = c.started_lem;
      }

  -- In every state that a new pool reaches, in any interleaving of submitters, workers and a
  -- shutdown: tasks start in the order in which they were accepted and none is lost, the queue keeps
  -- to its capacity, and the counters are those of the tasks that are on their way, queued, running
  -- or done.
  pub Reachable-IsCounted :
      (workers : ℕ) (tasks : BlockingQueue Task) (p : ThreadPool Task)
      → tasks.queue ≡ []
      → Reachable (new_pool Task workers tasks) p
      → IsCounted p
  Reachable-IsCounted workers tasks p clean here =
      let none_queued : length tasks.queue ≡ 0 = ap length clean in
      record {
        submitted_lem = omega (arith, none_queued);
        completed_lem = omega arith;
        in_order = sym clean;
        within = omega (arith, none_queued);
        started_lem = refl;
      }
  Reachable-IsCounted workers tasks p clean (then b p' r s) =
      Step-IsCounted b p (Reachable-IsCounted workers tasks b clean r) s
