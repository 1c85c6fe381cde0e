-- ===== src/Tests/Benchmarks.antt =====
-- A worker of the benchmark over the network of Network, shares and percentiles.
use becomeasystemsengineer.Prelude.{
  ℕ, ◌+◌, ◌*◌, ◌≤◌, ◌<◌, ◌≡◌, false, some, List, [], ◌∷◌, arith, length, get_elem?,
}
use becomeasystemsengineer.Prelude.Bytes.{codes}
use becomeasystemsengineer.Bench.{Report, percentile, worker_request_count, worker}
use becomeasystemsengineer.Bench.Samples.{total, worker_request_count-total, percentile-rank}
use becomeasystemsengineer.Bench.Workers.{worker-samples}
use becomeasystemsengineer.Tests.Network.{World, net, sockets, laws, start}

worker-samples_example :
    (r : Report) × (s' : World) × (worker net sockets 70000
        (codes "localhost")
        (codes "7070")
        0
        1
        start
      ≡ some (r, s'))
    × (s'.opened ≡ (λ fd. false))
    × (r.failed ≡ false → length r.samples ≡ 1)
worker-samples_example =
    worker-samples net sockets laws 70000 (codes "localhost") (codes "7070") 0 1 start (omega arith)

worker_request_count-total_example : total (worker_request_count 10 4) 4 ≡ 10
worker_request_count-total_example = worker_request_count-total 10 4 (omega arith)

abbrev three : List ℕ
three = 10 ∷ 20 ∷ 30 ∷ []

percentile-rank_example :
    (rank : ℕ) × (value : ℕ) × (percentile three 50 ≡ some value)
    × (get_elem? three rank ≡ some value)
    × (50 * length three ≤ 100 * (rank + 1))
    × (100 * rank < 50 * length three)
percentile-rank_example =
    percentile-rank three 50 (omega arith) (omega arith) (omega arith) (omega arith)
