-- ===== src/Server/Handling.antt =====
-- `Server::handle_client` of capstone/reference/src/server.cpp. The requests of a connection are
-- counted by fuel; `none` is its end.
use becomeasystemsengineer.Prelude.{
  ℕ, zero, suc, Bool, true, false, Option, none, some, if◌then◌else◌,
}
use becomeasystemsengineer.Prelude.Bytes.{codes}
use becomeasystemsengineer.Posix.{Posix}
use becomeasystemsengineer.Protocol.Io.{IoStatus, too_large, is_ok, recv_frame, send_frame}
use becomeasystemsengineer.Server.{Server, PoolCounts, execute}

abbrev is_too_large : IoStatus → Bool
is_too_large too_large = true
is_too_large _ = false

module _ (p : Posix) where
  open p use {Os, close}

  -- The rounds of the loop. `stop` is what the reads of `stop_requested_` give, by the rounds left;
  -- `counts` is what a STATS in that round reads of the pool.
  unfoldable pub client_loop :
      ℕ → ℕ → ℕ → (ℕ → Bool) → (ℕ → PoolCounts) → ℕ → Server → Os → Option (Server × Os)
  client_loop zero fuel max_payload stop counts fd srv s = none
  client_loop (suc rounds) fuel max_payload stop counts fd srv s =
      if stop rounds then some (srv, s) else elim (recv_frame p fuel fd max_payload s) [
        | none ↦ none
        | some (frame, s1) ↦ elim (is_ok p frame.status) [
          | true ↦ elim (execute p fuel srv (counts rounds) frame.payload s1) [
            | none ↦ none
            | some (reply, srv', s2) ↦ elim (send_frame p fuel fd reply s2) [
              | none ↦ none
              | some (sent, s3) ↦ elim (is_ok p sent.status) [
                | true ↦ client_loop rounds fuel max_payload stop counts fd srv' s3
                | false ↦ some (srv', s3)
              ]
            ]
          ]
          | false ↦ elim (is_too_large frame.status) [
            | true ↦ elim (send_frame p fuel fd (codes "ERR frame too large") s1) [
              | none ↦ none
              | some (sent, s2) ↦ some (srv, s2)
            ]
            | false ↦ some (srv, s1)
          ]
        ]
      ]

  abbrev hung_up : ℕ → Option (Server × Os) → Option (Server × Os)
  hung_up fd none = none
  hung_up fd (some (srv, s)) = some (srv, close fd s)

  -- The descriptor is the call's own, and is closed at its end.
  unfoldable pub handle_client :
      ℕ → ℕ → ℕ → (ℕ → Bool) → (ℕ → PoolCounts) → ℕ → Server → Os → Option (Server × Os)
  unfolding client_loop
  handle_client rounds fuel max_payload stop counts fd srv s =
      hung_up fd (client_loop rounds fuel max_payload stop counts fd srv s)
