-- ===== src/Client.antt =====
-- capstone/reference/src/client.cpp: a request over a connection of its own. The loops that signals
-- may interrupt take fuel; `none` is its end.
pub mod Awaiting
pub mod Connecting
pub mod Requesting
use becomeasystemsengineer.Prelude.{
  ℕ, zero, suc, ◌+◌, ◌-◌, ◌*◌, ◌/◌, Bool, true, false, ◌||◌, Option, none, some, List, [], ◌∷◌,
  ◌==◌, if◌then◌else◌,
}
use becomeasystemsengineer.Prelude.Bytes.{Bytes, codes}
use becomeasystemsengineer.Prelude.Decimal.{decimal}
use becomeasystemsengineer.Posix.{Posix, Reply, returns, fails, eintr, ewouldblock}
use becomeasystemsengineer.Protocol.Frame.{default_max_payload}
use becomeasystemsengineer.Protocol.Io.{is_ok, recv_frame, send_frame}
use becomeasystemsengineer.Sockets.{
  Sockets, close_on_exec, set_timeouts, or_flag, o_nonblock, econnrefused, etimedout, einprogress,
  ◌>>=◌, ◌>>◌,
}

-- `ClientResult`; the texts of `errno` are the system's.
pub record ClientResult : Type 0 where
  pub ok : Bool
  pub response : Bytes
  pub error : Bytes

module _ (p : Posix) where
  open p use {Os, close}

  abbrev pub failed : Bytes → ClientResult
  failed message = record { ok = false; response = []; error = message }

  -- What `request` does on a socket that is connected.
  unfoldable pub exchange : (ℕ → Bytes) → ℕ → ℕ → Bytes → Os → Option (ClientResult × Os)
  exchange error_message fuel fd request s = elim (send_frame p fuel fd request s) [
    | none ↦ none
    | some (sent, s1) ↦ elim (is_ok p sent.status) [
      | false ↦ some (failed (error_message sent.error_number), s1)
      | true ↦ elim (recv_frame p fuel fd default_max_payload s1) [
        | none ↦ none
        | some (received, s2) ↦ elim (is_ok p received.status) [
          | true ↦ some (record { ok = true; response = received.payload; error = [] }, s2)
          | false ↦ some (
            failed (
                if received.error_number == 0
                then codes "connection closed"
                else error_message received.error_number),
            s2,
          )
        ]
      ]
    ]
  ]

  module _ (k : Sockets p) where
    -- The number that is left in `errno`; the result is true if it is 0.
    unfoldable pub restore_blocking_mode : ℕ → ℕ → ℕ → Os → ℕ × Os
    restore_blocking_mode fd original_flags result_error s =
        let (reply, s') = k.set_status_flags fd original_flags s in
        elim reply [
          | returns u ↦ (result_error, s')
          | fails e ↦ (if result_error == 0 then e else result_error, s')
        ]

    abbrev pub as_reply : ℕ × Os → Reply (Unit {0}) × Os
    as_reply (zero, s) = (returns tt, s)
    as_reply (suc e, s) = (fails (suc e), s)

    -- What `SO_ERROR` says of the attempt, or why it could not be read.
    abbrev pub attempt_error : Reply ℕ × Os → ℕ × Os
    attempt_error (returns e, s) = (e, s)
    attempt_error (fails e, s) = (e, s)

    -- The loop over `poll`, with the error that it ends with.
    unfoldable pub await_connection : ℕ → ℕ → ℕ → Os → Option (ℕ × Os)
    await_connection zero fd deadline s = none
    await_connection (suc fuel) fd deadline s =
        let (now, s1) = k.now s in
        let remaining = (deadline - now) / 1000000 in
        elim (remaining == 0) [
          | true ↦ some (etimedout, s1)
          | false ↦
              let (reply, s2) = k.poll_output fd remaining s1 in
              elim reply [
                | fails e ↦ elim (e == eintr) [
                  | true ↦ await_connection fuel fd deadline s2
                  | false ↦ some (e, s2)
                ]
                | returns false ↦ some (etimedout, s2)
                | returns true ↦ some (attempt_error (k.socket_error fd s2))
              ]
        ]

    abbrev pub restored : ℕ → ℕ → Option (ℕ × Os) → Option (Reply (Unit {0}) × Os)
    restored fd original_flags none = none
    restored fd original_flags (some (result_error, s)) =
        some (as_reply (restore_blocking_mode fd original_flags result_error s))

    -- The time limit is two seconds.
    abbrev pub await_from : ℕ → ℕ → ℕ × Os → Option (ℕ × Os)
    await_from fuel fd (start, s) = await_connection fuel fd (start + 2000000000) s

    abbrev pub refusal : ℕ × Os → Reply (Unit {0}) × Os
    refusal (e, s) = (fails e, s)

    -- What follows the call of `connect`, which gave `reply`.
    abbrev pub connecting : ℕ → ℕ → ℕ → Reply (Unit {0}) × Os → Option (Reply (Unit {0}) × Os)
    connecting fuel fd original_flags (returns u, s) = restored fd original_flags (some (0, s))
    connecting fuel fd original_flags (fails e, s) =
        if e == einprogress || e == ewouldblock
        then restored fd original_flags (await_from fuel fd (k.now s))
        else some (refusal (restore_blocking_mode fd original_flags e s))

    -- The result is true where the reply returns; where it fails, it is with `errno`.
    unfoldable pub connect_with_timeout : ℕ → ℕ → k.Address → Os → Option (Reply (Unit {0}) × Os)
    unfolding await_connection restore_blocking_mode
    connect_with_timeout fuel fd address s =
        let (reply, s1) = k.get_status_flags fd s in
        elim reply [
          | fails e ↦ some (fails e, s1)
          | returns original_flags ↦
              let (reply', s2) = k.set_status_flags fd (or_flag original_flags o_nonblock) s1 in
              elim reply' [
                | fails e ↦ some (fails e, s2)
                | returns u ↦ connecting fuel fd original_flags (k.connect fd address s2)
              ]
        ]

    unfoldable pub configure_socket : ℕ → Os → Reply (Unit {0}) × Os
    unfolding close_on_exec set_timeouts
    configure_socket fd = do close_on_exec p k fd; set_timeouts p k fd 2

    -- The loop of `request` over the addresses: the descriptor of the connection, or the last error.
    -- A candidate that is given up is closed at the end of its round.
    unfoldable pub try_addresses : ℕ → List k.Address → ℕ → Os → Option (Reply ℕ × Os)
    unfolding connect_with_timeout configure_socket
    try_addresses fuel [] last_error s = some (fails last_error, s)
    try_addresses fuel (address ∷ rest) last_error s =
        let (reply, s1) = k.socket address s in
        elim reply [
          | fails e ↦ try_addresses fuel rest e s1
          | returns fd ↦
              let (reply', s2) = configure_socket fd s1 in
              elim reply' [
                | fails e ↦ try_addresses fuel rest e (close fd s2)
                | returns u ↦ elim (connect_with_timeout fuel fd address s2) [
                  | none ↦ none
                  | some (fails e, s3) ↦ try_addresses fuel rest e (close fd s3)
                  | some (returns u', s3) ↦ some (returns fd, s3)
                ]
              ]
        ]

    abbrev pub hung_up : ℕ → Option (ClientResult × Os) → Option (ClientResult × Os)
    hung_up fd none = none
    hung_up fd (some (result, s)) = some (result, close fd s)

    abbrev pub requested : ℕ → Bytes → Option (Reply ℕ × Os) → Option (ClientResult × Os)
    requested fuel command none = none
    requested fuel command (some (fails e, s)) = some (failed (k.strerror e), s)
    requested fuel command (some (returns fd, s)) =
        hung_up fd (exchange k.strerror fuel fd command s)

    abbrev pub looked_up : ℕ → Bytes → Reply (List k.Address) × Os → Option (ClientResult × Os)
    looked_up fuel command (fails code, s) = some (failed (k.gai_strerror code), s)
    looked_up fuel command (returns addresses, s) =
        requested fuel command (try_addresses fuel addresses econnrefused s)

    unfoldable pub request : ℕ → Bytes → ℕ → Bytes → Os → Option (ClientResult × Os)
    unfolding exchange try_addresses
    request fuel host port command s =
        looked_up fuel command (k.getaddrinfo host (decimal port) false s)
