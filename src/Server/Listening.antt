-- ===== src/Server/Listening.antt =====
-- `Server::open_listener` and `Server::run` of capstone/reference/src/server.cpp. The
-- `submit` of the pool is an argument; the pool itself is in ThreadPool, what its threads do with a
-- connection in Handling.
pub mod Opening
pub mod Accepting
use becomeasystemsengineer.Prelude.{
  ℕ, zero, suc, Bool, true, false, ◌||◌, Option, none, some, List, [], ◌∷◌, ◌==◌, if◌then◌else◌,
}
use becomeasystemsengineer.Prelude.Bytes.{Bytes, codes}
use becomeasystemsengineer.Prelude.Decimal.{decimal}
use becomeasystemsengineer.Posix.{Posix, Reply, returns, fails, eintr, eagain, ewouldblock}
use becomeasystemsengineer.Protocol.Io.{IoResult, send_frame}
use becomeasystemsengineer.Sockets.{
  Sockets, Events, close_on_exec, set_timeouts, first_prepared, ◌>>=◌, ◌>>◌,
}
use becomeasystemsengineer.Server.Starting.{ServerOptions}

-- `listener_`, `bound_port_` and `error_`.
pub record Listener : Type 0 where
  pub listener : Option ℕ
  pub bound_port : ℕ
  pub error : Bytes

-- What `submit` returned, or that it threw.
pub data Submission : Type 0 where
  queued overloaded threw : Submission

abbrev is_transient : ℕ → Bool
is_transient e = e == eintr || e == eagain || e == ewouldblock

abbrev pub backlog : ℕ
backlog = 128

abbrev no_listener : Bytes → Listener
no_listener error = record { listener = none; bound_port = 0; error = error }

abbrev listening : ℕ → Option ℕ → Listener
listening fd none = record { listener = some fd; bound_port = 0; error = [] }
listening fd (some port) = record { listener = some fd; bound_port = port; error = [] }

module _ (p : Posix) (k : Sockets p) where
  open p use {Os, close}

  -- A call whose failure is not looked at.
  abbrev pub ignoring : (Os → Reply (Unit {0}) × Os) → Os → Reply (Unit {0}) × Os
  ignoring m s = (returns tt, (m s).1)

  -- A round of the loop of `open_listener`, on a socket.
  unfoldable pub prepare : ℕ → k.Address → Os → Reply (Unit {0}) × Os
  unfolding close_on_exec
  prepare fd address = do
    close_on_exec p k fd
    ignoring (k.set_reuse_address fd)
    k.bind fd address
    k.listen fd backlog

  unfoldable pub find_listener : List k.Address → Os → Option ℕ × Os
  unfolding prepare first_prepared
  find_listener addresses s = first_prepared p k prepare addresses s

  abbrev pub named : ℕ → Reply (Option ℕ) × Os → Listener × Os
  named fd (fails e, s) = (no_listener (k.strerror e), close fd s)
  named fd (returns port, s) = (listening fd port, s)

  abbrev pub found : Option ℕ × Os → Listener × Os
  found (none, s) = (no_listener (k.strerror (k.errno s)), s)
  found (some fd, s) = named fd (k.getsockname fd s)

  abbrev pub resolved : Reply (List k.Address) × Os → Listener × Os
  resolved (fails code, s) = (no_listener (k.gai_strerror code), s)
  resolved (returns addresses, s) = found (find_listener addresses s)

  -- The empty address is the null pointer.
  unfoldable pub open_listener : ServerOptions → Os → Listener × Os
  unfolding find_listener
  open_listener options s =
      resolved (k.getaddrinfo options.bind_address (decimal options.port) true s)

  unfoldable pub configure_accepted : ℕ → Os → Reply (Unit {0}) × Os
  unfolding close_on_exec set_timeouts
  configure_accepted fd = do close_on_exec p k fd; set_timeouts p k fd 2

  -- How a round of the accept loop ends: with another round or out of the loop. The text is `error_`.
  pub data Turn : Type 0 where
    again leaves : Bytes → Os → Turn

  abbrev pub told : ℕ → Bytes → Option (IoResult × Os) → Option Turn
  told fd error none = none
  told fd error (some (sent, s)) = some (again error (close fd s))

  -- What follows the call of `submit`. The holder of a connection that was not taken over is destroyed,
  -- and with it the descriptor.
  abbrev pub hand_over : ℕ → ℕ → Bytes → Submission × Os → Option Turn
  hand_over fuel fd error (queued, s) = some (again error s)
  hand_over fuel fd error (overloaded, s) =
      told fd error (send_frame p fuel fd (codes "ERR overloaded") s)
  hand_over fuel fd error (threw, s) =
      some (leaves (codes "could not queue accepted client work") (close fd s))

  -- `submit` hands the descriptor to a task. The pool and its threads are outside the thread of the
  -- loop: they run on between any two of its calls.
  module _ (submit : ℕ → Os → Submission × Os) where
    abbrev pub configured : ℕ → ℕ → Bytes → Reply (Unit {0}) × Os → Option Turn
    configured fuel fd error (fails e, s) = some (again error (close fd s))
    configured fuel fd error (returns u, s) = hand_over fuel fd error (submit fd s)

    abbrev pub accepted : ℕ → Bytes → Reply ℕ × Os → Option Turn
    accepted fuel error (fails e, s) =
        if is_transient e then some (again error s) else some (again (k.strerror e) s)
    accepted fuel error (returns fd, s) = configured fuel fd error (configure_accepted fd s)

    abbrev pub polled : ℕ → ℕ → Bytes → Reply (Option Events) × Os → Option Turn
    polled fuel listener error (fails e, s) =
        if e == eintr then some (again error s) else some (leaves (k.strerror e) s)
    polled fuel listener error (returns none, s) = some (again error s)
    polled fuel listener error (returns (some events), s) =
        if events.input
        then accepted fuel error (k.accept listener s)
        else if events.broken
        then some (leaves error s)
        else some (again error s)

    -- The loop. `stop` is what the reads of `stop_requested_` give, by the rounds left. The shutdown of
    -- the pool follows.
    unfoldable pub accept_loop : ℕ → ℕ → (ℕ → Bool) → ℕ → Bytes → Os → Option (Bytes × Os)
    accept_loop zero fuel stop listener error s = none
    accept_loop (suc rounds) fuel stop listener error s = elim (stop rounds) [
      | true ↦ some (error, s)
      | false ↦ elim (polled fuel listener error (k.poll_input listener 100 s)) [
        | none ↦ none
        | some (leaves error' s') ↦ some (error', s')
        | some (again error' s') ↦ accept_loop rounds fuel stop listener error' s'
      ]
    ]

    unfoldable pub run : ℕ → ℕ → (ℕ → Bool) → Listener → Os → Option (Bytes × Os)
    unfolding accept_loop
    run rounds fuel stop l s = elim l.listener [
      | none ↦ some (l.error, s)
      | some fd ↦ accept_loop rounds fuel stop fd l.error s
    ]
