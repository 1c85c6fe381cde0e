-- ===== src/Tests/Pool.antt =====
-- A pool with one worker that has run one task.
use becomeasystemsengineer.Prelude.{
  ℕ, ◌+◌, ◌%◌, ◌^◌, ◌≡◌, ◌≤◌, ◌⊎◌, refl, true, false, [], ◌∷◌, arith, length,
}
use becomeasystemsengineer.BlockingQueue.{BlockingQueue, push, pop, close}
use becomeasystemsengineer.ThreadPool.{
  ThreadPool, new_pool, checks, counts, pushes, works, shuts_down, closes, leaves, starts, ends,
  sleeps, notifies, notifies_all, WorkerStep, Reachable, here, then,
}
use becomeasystemsengineer.ThreadPool.Draining.{
  Works, stays, later, work_left, Works-work_left, joined_complete,
}
use becomeasystemsengineer.ThreadPool.Stopping.{Run, rests, worker_moves, shutdown_drains}
use becomeasystemsengineer.ThreadPool.Counting.{IsCounted, Reachable-IsCounted}
use becomeasystemsengineer.Server.Statistics.{load_counts-lag}

abbrev tasks : BlockingQueue ℕ
tasks = record { capacity = 2; queue = []; closed = false }

abbrev one_task : BlockingQueue ℕ
one_task = record { capacity = 2; queue = 7 ∷ []; closed = false }

abbrev start : ThreadPool ℕ
start = new_pool ℕ 1 tasks

abbrev dozing : ThreadPool ℕ
dozing = record start { idle = 0; asleep = 1 }

abbrev ready : ThreadPool ℕ
ready = record dozing { checked = 1 }

abbrev counted : ThreadPool ℕ
counted = record dozing { submitted = 1; pushing = 1 }

abbrev queued : ThreadPool ℕ
queued = record dozing { submitted = 1; waking = 1; tasks = one_task; accepted = 7 ∷ [] }

abbrev roused : ThreadPool ℕ
roused = record queued { waking = 0; idle = 1; asleep = 0 }

abbrev busy : ThreadPool ℕ
busy = record roused { tasks = tasks; started = 7 ∷ []; idle = 0; running = 1 }

abbrev done : ThreadPool ℕ
done = record busy { completed = 1; idle = 1; running = 0; ended = 1 }

queued-Reachable : Reachable start queued
unfolding push pop
queued-Reachable =
    then counted queued
      (then ready counted
        (then dozing ready (then start dozing here (works dozing (sleeps 0 refl refl)))
          (checks refl))
        (counts 0 refl))
      (pushes 7 0 one_task refl refl)

done-Reachable : Reachable start done
unfolding pop
done-Reachable =
    then busy done
      (then roused busy (then queued roused queued-Reachable (notifies 0 refl))
        (works busy (starts 7 0 tasks refl refl)))
      (works done (ends 0 refl))

Reachable-IsCounted_example : IsCounted queued
Reachable-IsCounted_example = Reachable-IsCounted 1 tasks queued refl queued-Reachable

-- One task is counted, run and completed between the two loads.
load_counts-lag_example : 1 + 0 ≤ 0 + 1
load_counts-lag_example = load_counts-lag 1 tasks start done refl here done-Reachable (omega arith)

abbrev closed_task : BlockingQueue ℕ
closed_task = record { capacity = 2; queue = 7 ∷ []; closed = true }

abbrev drained : BlockingQueue ℕ
drained = record { capacity = 2; queue = []; closed = true }

abbrev stopping : ThreadPool ℕ
stopping = record queued { shutting_down = true; to_close = 1 }

abbrev closing : ThreadPool ℕ
closing = record stopping { tasks = closed_task; to_close = 0; to_notify = 1 }

-- The worker slept until here.
abbrev awake : ThreadPool ℕ
awake = record closing { to_notify = 0; idle = 1; asleep = 0 }

abbrev last_run : ThreadPool ℕ
last_run = record awake { tasks = drained; idle = 0; running = 1; started = 7 ∷ [] }

abbrev last_done : ThreadPool ℕ
last_done = record last_run { idle = 1; running = 0; completed = 1; ended = 1 }

abbrev all_left : ThreadPool ℕ
all_left = record last_done { idle = 0 }

awake-Reachable : Reachable start awake
unfolding close
awake-Reachable =
    then closing awake
      (then stopping closing (then queued stopping queued-Reachable (shuts_down refl))
        (closes 0 refl))
      (notifies_all 0 refl)

awake-Works : Works awake 3 all_left
unfolding pop
awake-Works =
    later 2 last_done all_left
      (later 1 last_run last_done (later 0 awake last_run stays (starts 7 0 drained refl refl))
        (ends 0 refl))
      (leaves 0 drained refl refl)

all_left-Reachable : Reachable start all_left
unfolding pop
all_left-Reachable =
    then last_done all_left
      (then last_run last_done
        (then awake last_run awake-Reachable (works last_run (starts 7 0 drained refl refl)))
        (works last_done (ends 0 refl)))
      (works all_left (leaves 0 drained refl refl))

joined_complete_example :
    (all_left.tasks.closed ≡ true)
    × (all_left.accepted ≡ all_left.started)
    × (length all_left.accepted ≡ 1)
    × (all_left.submitted ≡ (all_left.completed + 0) % 2 ^ 64)
joined_complete_example =
    joined_complete 1 tasks all_left (omega arith) refl all_left-Reachable refl refl refl

awake-Run : Run awake 3 all_left
unfolding pop
awake-Run =
    worker_moves 2 last_done all_left
      (worker_moves 1 last_run last_done
        (worker_moves 0 awake last_run rests (starts 7 0 drained refl refl)) (ends 0 refl))
      (leaves 0 drained refl refl)

shutdown_drains_example :
    (3 ≤ work_left awake)
    × (all_left.accepted ≡ 7 ∷ [])
    × (((all_left.idle ≡ 0)
          × (all_left.asleep ≡ 0)
          × (all_left.running ≡ 0)
          × (length all_left.accepted ≡ all_left.ended))
        ⊎ ((p : ThreadPool ℕ) × WorkerStep all_left p))
shutdown_drains_example =
    shutdown_drains 1 tasks awake all_left 3 (omega arith) refl awake-Reachable refl refl awake-Run

Works-work_left_example : 3 + work_left all_left ≤ work_left awake
Works-work_left_example = Works-work_left awake all_left 3 awake-Works
