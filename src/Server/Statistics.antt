-- ===== src/Server/Statistics.antt =====
-- The counters in the answer to STATS, in `Server::execute` of capstone/reference/src/server.cpp: the
-- pool is read twice, and its threads go on in between.
use becomeasystemsengineer.Prelude.{
  ℕ, ◌+◌, ◌^◌, ◌≤◌, ◌<◌, ◌≡◌, [], arith, length, length-append, ap,
}
use becomeasystemsengineer.BlockingQueue.{BlockingQueue}
use becomeasystemsengineer.ThreadPool.{ThreadPool, new_pool, Reachable, here, then}
use becomeasystemsengineer.ThreadPool.Counting.{Reachable-IsCounted}
use becomeasystemsengineer.Server.{PoolCounts}

module _ {Task : Type 0} where
  -- `submitted()` is loaded in the first state, `completed()` in the second one.
  abbrev pub load_counts : ThreadPool Task → ThreadPool Task → PoolCounts
  load_counts p p' = record { submitted = p.submitted; completed = p'.completed }

  Reachable-trans :
      (start p p' : ThreadPool Task) → Reachable start p → Reachable p p' → Reachable start p'
  Reachable-trans start p p' r here = r
  Reachable-trans start p p' r (then b p'' r' s) = then b p' (Reachable-trans start p b r r') s

  -- A STATS answer, whatever the other threads do before, between and behind its two loads, shows at
  -- most as many completed tasks more than submitted ones as were accepted between the loads; if fewer
  -- than 2 ^ 64 tasks were counted at the first load.
  pub load_counts-lag :
      (workers : ℕ) (tasks : BlockingQueue Task) (p p' : ThreadPool Task)
      → tasks.queue ≡ []
      → Reachable (new_pool Task workers tasks) p
      → Reachable p p'
      → p.pushing + length p.tasks.queue + p.running + p.ended < 2 ^ 64
      → (load_counts p p').completed + length p.accepted
        ≤ (load_counts p p').submitted + length p'.accepted
  load_counts-lag workers tasks p p' clean r r' small =
      let c = Reachable-IsCounted workers tasks p clean r in
      let c' =
        Reachable-IsCounted workers tasks p' clean
          (Reachable-trans (new_pool Task workers tasks) p p' r r') in
      let first = ap length c.in_order in
      let first' = length-append p.started p.tasks.queue in
      let second = ap length c'.in_order in
      let second' = length-append p'.started p'.tasks.queue in
      omega (
        arith, c.submitted_lem, c.started_lem, c'.completed_lem, c'.started_lem, first, first',
        second, second',
      )
