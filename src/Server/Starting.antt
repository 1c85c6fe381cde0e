-- ===== src/Server/Starting.antt =====
-- The start of the server: the constructor of server.cpp up to the call of `open_listener`, and
-- `ServerOptions`. The pool that the constructor makes is in ThreadPool.
use Prim.Native.String.{String}
use becomeasystemsengineer.Prelude.{
  ℕ, ◌+◌, ◌≤◌, ◌<◌, ◌≡◌, ◌≢◌, Bool, ◌&&◌, not, Option, none, some, List, [], ◌++◌, arith, length,
  All, ltb, if◌then◌else◌,
}
use becomeasystemsengineer.Prelude.Bytes.{Bytes, is_empty}
use becomeasystemsengineer.Posix.{Posix, returns}
use becomeasystemsengineer.UniqueFd.{owning, is_open}
use becomeasystemsengineer.Store.{KvStore, empty_store}
use becomeasystemsengineer.Protocol.Frame.{header_size, default_max_payload}
use becomeasystemsengineer.Protocol.Command.{Command}
use becomeasystemsengineer.Protocol.Command.RoundTrip.{is_empty-ne-nil}
use becomeasystemsengineer.Wal.{Wal, new_wal, enabled, recover}
use becomeasystemsengineer.Wal.Log.{IsRecord, IsTorn, log_bytes, replay}
use becomeasystemsengineer.Wal.LogFile.{LogFile}
use becomeasystemsengineer.Wal.Recovering.{recover-replay}
use becomeasystemsengineer.Server.{Server}

pub record ServerOptions : Type 0 where
  pub bind_address : Bytes
  pub port : ℕ
  pub workers : ℕ
  pub queue_capacity : ℕ
  pub max_payload : ℕ
  pub wal_path : Bytes

module _ (p : Posix) where
  open p use {Os}

  -- `error_` after the recovery, and the members; the empty text is no error.
  abbrev recovered : Wal → Option (Bool × KvStore × Os) → Option (String × Server × Os)
  recovered wal none = none
  recovered wal (some (done, store, s)) = some (
    (if done then "" else "could not recover the write-ahead log"),
    record { store = store; wal = wal },
    s,
  )

  abbrev started : ℕ → ℕ → ServerOptions → Wal × Os → Option (String × Server × Os)
  started rounds fuel options (wal, s) =
      let srv : Server = record { store = empty_store; wal = wal } in
      if ltb default_max_payload options.max_payload
      then some ("max_payload exceeds the supported protocol limit", srv, s)
      else if not (is_empty options.wal_path) && not (enabled p wal)
      then some ("could not open the configured write-ahead log", srv, s)
      else recovered wal (recover p rounds fuel wal empty_store s)

  unfoldable pub new_server : ℕ → ℕ → ServerOptions → Os → Option (String × Server × Os)
  new_server rounds fuel options s = started rounds fuel options (new_wal p options.wal_path s)

module _ (p : Posix) (fd : ℕ) (file : LogFile p fd) (rounds fuel : ℕ)
    (options : ServerOptions) where
  -- A server with a permitted payload limit and a log that could be opened, whose file holds a log
  -- and perhaps a torn tail, starts without an error and with exactly the store that the log stands
  -- for, if reading and repairing the file meet no error but interruptions, and given enough rounds
  -- and fuel.
  pub new_server-replay :
      (log : List Command) (torn : Bytes) (fd' : ℕ) (s s1 s' : p.Os)
      → options.max_payload ≤ default_max_payload
      → options.wal_path ≢ []
      → new_wal p options.wal_path s ≡ (record { path = options.wal_path; fd = owning fd' }, s1)
      → p.open_rdwr options.wal_path s1 ≡ (returns fd, s')
      → file.content s' ≡ log_bytes log ++ torn
      → file.unread s' ≡ log_bytes log ++ torn
      → All IsRecord log
      → IsTorn torn
      → length log < rounds
      → header_size + default_max_payload + file.signals s' + 1 < fuel
      → (s'' : p.Os) × (new_server p rounds fuel options s
          ≡ some (
            "",
            record {
              store = replay log empty_store;
              wal = record { path = options.wal_path; fd = owning fd' };
            },
            p.close fd s'',
          ))
        × (file.content s'' ≡ log_bytes log)
  unfolding new_server enabled is_open
  new_server-replay log torn fd' s s1 s' small named made opened c u rs t k h =
      let (s'', e, kept) =
        recover-replay p fd file fuel (record { path = options.wal_path; fd = owning fd' }) log torn
          rounds empty_store s1 s' named opened c u rs t k h in
      (s'', rw made (ground (arith, is_empty-ne-nil options.wal_path named, e)), kept)
