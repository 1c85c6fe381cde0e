-- ===== src/Tests/Sums.antt =====
-- A sum of ten items on three threads.
use becomeasystemsengineer.Prelude.{◌≡◌, some, arith}
use becomeasystemsengineer.ParallelSum.{parallel_sum, sum_range, parallel_sum-sum_range}

parallel_sum-sum_range_example : parallel_sum 10 3 ≡ some (sum_range 0 10)
parallel_sum-sum_range_example =
    parallel_sum-sum_range 10 3 (omega arith) (omega arith) (omega arith)
