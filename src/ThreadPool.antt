-- ===== src/ThreadPool.antt =====
-- capstone/reference: include/netforge/thread_pool.hpp and src/thread_pool.cpp. The threads are
-- interleaved: a state of the pool, and a step for each access to the shared members that
-- changes them or decides what comes next. A submitter that waits for room stands before its push;
-- nothing is shown of when it goes on, so `not_full_` has no waiters here. The two loads of a STATS
-- request are in Server.Statistics.
pub mod Counting
pub mod Draining
pub mod Stopping
use becomeasystemsengineer.Prelude.{
  ℕ, ◌+◌, ◌-◌, ◌%◌, ◌^◌, ◌<◌, ◌≡◌, Bool, true, false, Option, none, some, List, [], ◌∷◌, ◌++◌,
}
use becomeasystemsengineer.BlockingQueue.{BlockingQueue, push, pop, close}

-- The members, and where the threads stand: `checked` callers of `submit` have read that the pool
-- is not shutting down, `pushing` of them are behind the count and before the push, `idle` workers
-- are before a pop, `asleep` ones wait on `not_empty_`, `running` workers are in a task. `waking`
-- submitters are behind their push and before its notification; the thread that shuts down is in
-- `to_close` before it closes the queue and in `to_notify` before it wakes the workers. `accepted`
-- and `started` are the tasks that were pushed and popped so far, `ended` counts those that are done.
pub record ThreadPool (Task : Type 0) : Type 0 where
  pub tasks : BlockingQueue Task
  pub shutting_down : Bool
  pub submitted : ℕ
  pub completed : ℕ
  pub checked : ℕ
  pub pushing : ℕ
  pub waking : ℕ
  pub to_close : ℕ
  pub to_notify : ℕ
  pub idle : ℕ
  pub asleep : ℕ
  pub running : ℕ
  pub accepted : List Task
  pub started : List Task
  pub ended : ℕ

-- The constructor, with as many workers.
abbrev pub new_pool : (Task : Type 0) → ℕ → BlockingQueue Task → ThreadPool Task
new_pool Task workers tasks = record {
  tasks = tasks;
  shutting_down = false;
  submitted = 0;
  completed = 0;
  checked = 0;
  pushing = 0;
  waking = 0;
  to_close = 0;
  to_notify = 0;
  idle = workers;
  asleep = 0;
  running = 0;
  accepted = [];
  started = [];
  ended = 0;
}

-- `fetch_add` and `fetch_sub` on a `std::uint64_t`.
abbrev pub incremented : ℕ → ℕ
incremented n = (n + 1) % 2 ^ 64

abbrev pub decremented : ℕ → ℕ
decremented n = (n + (2 ^ 64 - 1)) % 2 ^ 64

module _ {Task : Type 0} where
  -- `not_empty_.notify_one()`: a worker that waits looks at the queue again, if there is one.
  abbrev pub notify_one : ThreadPool Task → ThreadPool Task
  notify_one p = record p { asleep = p.asleep - 1; idle = p.idle + (p.asleep - (p.asleep - 1)) }

  -- `not_empty_.notify_all()`
  abbrev pub notify_all : ThreadPool Task → ThreadPool Task
  notify_all p = record p { asleep = 0; idle = p.idle + p.asleep }

  -- A round of `worker_loop`: before a task, behind it, the wait in
  -- `pop` on a queue that is open and empty, and the end.
  pub data WorkerStep (p : ThreadPool Task) : ThreadPool Task → Type 0 where
    starts :
        (task : Task) (n : ℕ) (q : BlockingQueue Task)
        → p.idle ≡ n + 1
        → pop p.tasks ≡ some (some task, q)
        → WorkerStep p (record p {
          tasks = q;
          idle = n;
          running = p.running + 1;
          started = p.started ++ task ∷ [];
        })
    ends :
        (n : ℕ)
        → p.running ≡ n + 1
        → WorkerStep p (record p {
          running = n;
          idle = p.idle + 1;
          completed = incremented p.completed;
          ended = p.ended + 1;
        })
    sleeps :
        (n : ℕ)
        → p.idle ≡ n + 1
        → pop p.tasks ≡ none
        → WorkerStep p (record p { idle = n; asleep = p.asleep + 1 })
    leaves :
        (n : ℕ) (q : BlockingQueue Task)
        → p.idle ≡ n + 1
        → pop p.tasks ≡ some (none, q)
        → WorkerStep p (record p { tasks = q; idle = n })

  -- What any thread does: a caller of `submit` or `shutdown`, or a worker.
  pub data Step (p : ThreadPool Task) : ThreadPool Task → Type 0 where
    checks : p.shutting_down ≡ false → Step p (record p { checked = p.checked + 1 })
    counts :
        (n : ℕ)
        → p.checked ≡ n + 1
        → Step p
            (record p { checked = n; submitted = incremented p.submitted; pushing = p.pushing + 1 })
    pushes :
        (task : Task) (n : ℕ) (q : BlockingQueue Task)
        → p.pushing ≡ n + 1
        → push task p.tasks ≡ some (true, q)
        → Step p (record p {
          tasks = q;
          pushing = n;
          waking = p.waking + 1;
          accepted = p.accepted ++ task ∷ [];
        })
    notifies : (n : ℕ) → p.waking ≡ n + 1 → Step p (record (notify_one p) { waking = n })
    gives_up :
        (task : Task) (n : ℕ) (q : BlockingQueue Task)
        → p.pushing ≡ n + 1
        → push task p.tasks ≡ some (false, q)
        → Step p (record p { tasks = q; pushing = n; submitted = decremented p.submitted })
    shuts_down :
        p.shutting_down ≡ false
        → Step p (record p { shutting_down = true; to_close = p.to_close + 1 })
    closes :
        (n : ℕ)
        → p.to_close ≡ n + 1
        → Step p (record p { tasks = close p.tasks; to_close = n; to_notify = p.to_notify + 1 })
    notifies_all : (n : ℕ) → p.to_notify ≡ n + 1 → Step p (record (notify_all p) { to_notify = n })
    -- a wake-up for no reason, which the standard permits
    stirs : (n : ℕ) → p.asleep ≡ n + 1 → Step p (record p { asleep = n; idle = p.idle + 1 })
    works : (p' : ThreadPool Task) → WorkerStep p p' → Step p p'

  pub data Reachable (start : ThreadPool Task) : ThreadPool Task → Type 0 where
    here : Reachable start start
    then : (p p' : ThreadPool Task) → Reachable start p → Step p p' → Reachable start p'
