-- ===== src/Bench.antt =====
-- capstone/reference/apps/bench_main.cpp: the connections, pings and samples of a worker, its share of
-- the requests, and the percentiles. The numbers of its command line are in Arguments; the printing
-- is not modelled.
pub mod Samples
pub mod Workers
use becomeasystemsengineer.Prelude.{
  ℕ, zero, suc, ◌+◌, ◌-◌, ◌*◌, ◌/◌, ◌%◌, ◌^◌, Bool, true, false, Option, none, some, List, [], ◌∷◌,
  ◌++◌, ltb, ◌==◌, if◌then◌else◌, length, get_elem?,
}
use becomeasystemsengineer.Prelude.Bytes.{Bytes, codes, same}
use becomeasystemsengineer.Posix.{Posix, Reply, returns, fails}
use becomeasystemsengineer.Protocol.Frame.{default_max_payload}
use becomeasystemsengineer.Protocol.Io.{IoResult, FrameResult, is_ok, recv_frame, send_frame}
use becomeasystemsengineer.Sockets.{
  Sockets, close_on_exec, set_timeouts, first_prepared, ◌>>=◌, ◌>>◌,
}

-- `none` is an access out of the samples; the products are of `std::size_t`.
unfoldable pub percentile : List ℕ → ℕ → Option ℕ
percentile sorted percent =
    let rank = (percent * length sorted % 2 ^ 64 + 99) % 2 ^ 64 / 100 in
    get_elem? sorted ((if ltb 1 rank then rank else 1) - 1)

unfoldable pub worker_request_count : ℕ → ℕ → ℕ → ℕ
worker_request_count request_count concurrency worker =
    request_count / concurrency + (if ltb worker (request_count % concurrency) then 1 else 0)

-- What a worker leaves: whether it counted a failure, and its samples.
pub record Report : Type 0 where
  pub failed : Bool
  pub samples : List ℕ

module _ (p : Posix) (k : Sockets p) where
  open p use {Os, close}

  unfoldable pub prepare_connection : ℕ → k.Address → Os → Reply (Unit {0}) × Os
  unfolding close_on_exec set_timeouts
  prepare_connection fd address = do
    close_on_exec p k fd
    set_timeouts p k fd 10
    k.connect fd address

  unfoldable pub connect_first : List k.Address → Os → Option ℕ × Os
  unfolding prepare_connection first_prepared
  connect_first addresses s = first_prepared p k prepare_connection addresses s

  abbrev pub resolved : Reply (List k.Address) × Os → Option ℕ × Os
  resolved (fails code, s) = (none, s)
  resolved (returns addresses, s) = connect_first addresses s

  unfoldable pub connect_to : Bytes → Bytes → Os → Option ℕ × Os
  unfolding connect_first
  connect_to host service s = resolved (k.getaddrinfo host service false s)

  abbrev pub ponged : Option (FrameResult × Os) → Option (Bool × Os)
  ponged none = none
  ponged (some (response, s)) =
      some ((if is_ok p response.status then same response.payload (codes "PONG") else false), s)

  abbrev pub pinged : ℕ → ℕ → Option (IoResult × Os) → Option (Bool × Os)
  pinged fuel fd none = none
  pinged fuel fd (some (sent, s)) =
      if is_ok p sent.status
      then ponged (recv_frame p fuel fd default_max_payload s)
      else some (false, s)

  unfoldable pub ping : ℕ → ℕ → Os → Option (Bool × Os)
  ping fuel fd s = pinged fuel fd (send_frame p fuel fd (codes "PING") s)

  -- The warm-up: whether all the pings were answered.
  unfoldable pub warm_up : ℕ → ℕ → ℕ → Os → Option (Bool × Os)
  unfolding ping
  warm_up fuel fd zero s = some (true, s)
  warm_up fuel fd (suc left) s = elim (ping fuel fd s) [
    | none ↦ none
    | some (false, s') ↦ some (false, s')
    | some (true, s') ↦ warm_up fuel fd left s'
  ]

  unfoldable pub measure : ℕ → ℕ → ℕ → List ℕ → Os → Option (Report × Os)
  unfolding ping
  measure fuel fd zero samples s = some (record { failed = false; samples = samples }, s)
  measure fuel fd (suc left) samples s =
      let (start, s1) = k.now s in
      elim (ping fuel fd s1) [
        | none ↦ none
        | some (false, s2) ↦ some (record { failed = true; samples = samples }, s2)
        | some (true, s2) ↦
            let (stop, s3) = k.now s2 in measure fuel fd left (samples ++ (stop - start) ∷ []) s3
      ]

  abbrev pub no_samples : Report
  no_samples = record { failed = true; samples = [] }

  abbrev pub warmed : ℕ → ℕ → ℕ → Option (Bool × Os) → Option (Report × Os)
  warmed fuel fd count none = none
  warmed fuel fd count (some (false, s)) = some (no_samples, s)
  warmed fuel fd count (some (true, s)) = measure fuel fd count [] s

  abbrev pub hung_up : ℕ → Option (Report × Os) → Option (Report × Os)
  hung_up fd none = none
  hung_up fd (some (report, s)) = some (report, close fd s)

  abbrev pub attached : ℕ → ℕ → ℕ → Option ℕ × Os → Option (Report × Os)
  attached fuel warmups count (none, s) = some (no_samples, s)
  attached fuel warmups count (some fd, s) =
      hung_up fd (warmed fuel fd count (warm_up fuel fd warmups s))

  -- A worker; its connection is closed at its end.
  unfoldable pub worker : ℕ → Bytes → Bytes → ℕ → ℕ → Os → Option (Report × Os)
  unfolding connect_to warm_up measure
  worker fuel host service warmups count s = attached fuel warmups count (connect_to host service s)
