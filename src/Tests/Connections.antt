-- ===== src/Tests/Connections.antt =====
-- A request and a server over the network of Network.
use becomeasystemsengineer.Prelude.{ℕ, ◌≡◌, refl, false, some, [], arith, ◌==◌, set_at}
use becomeasystemsengineer.Prelude.Bytes.{Bytes, codes}
use becomeasystemsengineer.Client.{ClientResult, connect_with_timeout, request}
use becomeasystemsengineer.Client.Connecting.{Attempt, connect_with_timeout-Attempt}
use becomeasystemsengineer.Client.Requesting.{request_returns_descriptors}
use becomeasystemsengineer.Server.Starting.{ServerOptions}
use becomeasystemsengineer.Server.Listening.{Submission, queued, open_listener, accept_loop}
use becomeasystemsengineer.Server.Listening.Opening.{open_listener-Owns}
use becomeasystemsengineer.Sockets.Configuring.{Owns}
use becomeasystemsengineer.Server.Listening.Accepting.{accept_loop_hands_over}
use becomeasystemsengineer.Tests.Network.{World, net, sockets, laws, start}

connect_with_timeout-Attempt_example :
    Attempt net sockets laws start (connect_with_timeout net sockets 5 3 1 start)
connect_with_timeout-Attempt_example =
    connect_with_timeout-Attempt net sockets laws 5 3 1 start (omega arith)

request_returns_descriptors_example :
    (result : ClientResult) × (s' : World) × (request net sockets 70000
        (codes "localhost")
        7070
        (codes "PING")
        start
      ≡ some (result, s'))
    × (s'.opened ≡ (λ fd. false))
request_returns_descriptors_example =
    request_returns_descriptors net sockets laws 70000 (codes "localhost") 7070 (codes "PING") start
      (omega arith) (omega arith) (omega arith)

abbrev options : ServerOptions
options = record {
  bind_address = [];
  port = 7070;
  workers = 4;
  queue_capacity = 16;
  max_payload = 100;
  wal_path = [];
}

open_listener-Owns_example : Owns net sockets laws start (
  (open_listener net sockets options start).0.listener,
  (open_listener net sockets options start).1,
)
open_listener-Owns_example = open_listener-Owns net sockets laws options start

-- A task that closes its descriptor at once, so that the next connection has the same number.
abbrev submit_now : ℕ → World → Submission × World
submit_now fd w = (queued, record w { opened = set_at w.opened fd false })

-- Two connections, one behind the other.
accept_loop_hands_over_example :
    (error : Bytes) × (s' : World) × (accept_loop net sockets submit_now 3 100
        (λ rounds. rounds == 0)
        9
        []
        start
      ≡ some (error, s'))
    × (s'.opened ≡ (λ fd. false))
accept_loop_hands_over_example =
    accept_loop_hands_over net sockets laws submit_now (λ fd s own. (refl, omega arith)) 2 100
      (λ rounds. rounds == 0) 9 [] start refl (omega arith)
