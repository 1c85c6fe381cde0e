-- ===== src/Wal.antt =====
-- capstone/reference: include/netforge/wal.hpp and src/wal.cpp, the write-ahead log. The lock makes
-- each method one step. The loops over system calls take fuel, `none` is its end.
pub mod Log
pub mod Appending
pub mod LogFile
pub mod Recovering
use becomeasystemsengineer.Prelude.{
  ℕ, zero, suc, Bool, true, false, Option, none, some, List, [], ◌∷◌, ◌++◌, ltb, ◌==◌,
  if◌then◌else◌, length, drop, not,
}
use becomeasystemsengineer.Prelude.Bytes.{Bytes, codes, is_empty}
use becomeasystemsengineer.Posix.{Posix, Reply, returns, fails, eintr, enoent}
use becomeasystemsengineer.UniqueFd.{UniqueFd, no_fd, owning, is_open, reset}
use becomeasystemsengineer.Store.{KvStore}
use becomeasystemsengineer.Store
use becomeasystemsengineer.Protocol.Frame.{
  header_size, host_length, encode_frame, default_max_payload,
}
use becomeasystemsengineer.Protocol.Io.{
  IoStatus, ok, eof, would_block, error, too_large, malformed, IoResult, read_exact,
}
use becomeasystemsengineer.Protocol.Command.{
  Command, ping, stats, get, del, set, ParseResult, command, parse_error, parse_command,
}

pub record Wal : Type 0 where
  pub path : Bytes
  pub fd : UniqueFd

-- The text of the records.
abbrev pub set_record : Bytes → Bytes → Bytes
set_record key value = codes "SET " ++ (key ++ (codes " " ++ value))

abbrev pub del_record : Bytes → Bytes
del_record key = codes "DEL " ++ key

module _ (p : Posix) where
  open p use {
    Os, write, fsync, ftruncate, lseek, open_append, open_rdwr, close, parent_path,
    create_directories,
  }

  unfoldable pub write_file_all : ℕ → ℕ → Bytes → Os → Option (Bool × Os)
  write_file_all zero fd bytes s = none
  write_file_all (suc fuel) fd [] s = some (true, s)
  write_file_all (suc fuel) fd (b ∷ bytes) s =
      let (reply, s') = write fd (b ∷ bytes) s in
      elim reply [
        | returns zero ↦ some (false, s')
        | returns (suc count) ↦ write_file_all fuel fd (drop (suc count) (b ∷ bytes)) s'
        | fails errno ↦ elim (errno == eintr) [
          | true ↦ write_file_all fuel fd (b ∷ bytes) s'
          | false ↦ some (false, s')
        ]
      ]

  unfoldable pub sync_file : ℕ → ℕ → Os → Option (Bool × Os)
  sync_file zero fd s = none
  sync_file (suc fuel) fd s =
      let (reply, s') = fsync fd s in
      elim reply [
        | returns done ↦ some (true, s')
        | fails errno ↦ elim (errno == eintr) [
          | true ↦ sync_file fuel fd s'
          | false ↦ some (false, s')
        ]
      ]

  truncate_file : ℕ → ℕ → ℕ → Os → Option (Bool × Os)
  truncate_file zero fd complete_size s = none
  truncate_file (suc fuel) fd complete_size s =
      let (reply, s') = ftruncate fd complete_size s in
      elim reply [
        | returns done ↦ some (true, s')
        | fails errno ↦ elim (errno == eintr) [
          | true ↦ truncate_file fuel fd complete_size s'
          | false ↦ some (false, s')
        ]
      ]

  -- What goes on after a step that succeeded; a failure or the end of the fuel is passed on.
  abbrev pub and_then : Option (Bool × Os) → (Os → Option (Bool × Os)) → Option (Bool × Os)
  and_then none next = none
  and_then (some (false, s)) next = some (false, s)
  and_then (some (true, s)) next = next s

  unfoldable pub repair_torn_tail : ℕ → ℕ → ℕ → Os → Option (Bool × Os)
  unfolding truncate_file
  repair_torn_tail fuel fd complete_size s =
      and_then (truncate_file fuel fd complete_size s) (sync_file fuel fd)

  abbrev opened : Reply ℕ × Os → UniqueFd × Os
  opened (returns n, s) = (owning n, s)
  opened (fails errno, s) = (no_fd, s)

  -- The constructor.
  unfoldable pub new_wal : Bytes → Os → Wal × Os
  new_wal path s =
      if is_empty path
      then (record { path = path; fd = no_fd }, s)
      else let parent = parent_path path in
        let (made, s') = if is_empty parent then (true, s) else create_directories parent s in
        let (fd, s'') = if made then opened (open_append path s') else (no_fd, s') in
        (record { path = path; fd = fd }, s'')

  unfoldable pub enabled : Wal → Bool
  enabled w = is_open w.fd

  -- `fd_.reset()` after a write or a sync that failed.
  abbrev pub append_result : Wal → Option (Bool × Os) → Option (Bool × Wal × Os)
  append_result w none = none
  append_result w (some (true, s)) = some (true, w, s)
  append_result w (some (false, s)) =
      let (fd, s') = reset p none w.fd s in some (false, record w { fd = fd }, s')

  abbrev pub append_to : ℕ → Wal → Bytes → Option ℕ → Os → Option (Bool × Wal × Os)
  append_to fuel w entry none s = some (false, w, s)
  append_to fuel w entry (some fd) s = elim (encode_frame entry) [
    | none ↦ none
    | some bytes ↦ append_result w (and_then (write_file_all fuel fd bytes s) (sync_file fuel fd))
  ]

  unfoldable pub append_record : ℕ → Wal → Bytes → Os → Option (Bool × Wal × Os)
  append_record fuel w entry s =
      if is_empty w.path then some (true, w, s) else append_to fuel w entry w.fd.fd s

  unfoldable pub append_set : ℕ → Wal → Bytes → Bytes → Os → Option (Bool × Wal × Os)
  unfolding append_record
  append_set fuel w key value s = append_record fuel w (set_record key value) s

  unfoldable pub append_del : ℕ → Wal → Bytes → Os → Option (Bool × Wal × Os)
  unfolding append_record
  append_del fuel w key s = append_record fuel w (del_record key) s

  -- A record applied to the store; `none` for a text that is no mutation.
  abbrev pub apply_record : ParseResult → KvStore → Option KvStore
  apply_record (command (set key value)) store = some (Store.set key value store)
  apply_record (command (del key)) store = some (Store.erase key store).1
  apply_record (command ping) store = none
  apply_record (command stats) store = none
  apply_record (command (get key)) store = none
  apply_record (parse_error message) store = none

  abbrev with_store : KvStore → Option (Bool × Os) → Option (Bool × KvStore × Os)
  with_store store none = none
  with_store store (some (done, s)) = some (done, store, s)

  -- The loop of `recover`, one record a round; `fuel` is that of each loop below it.
  unfoldable pub recover_loop : ℕ → ℕ → ℕ → ℕ → KvStore → Os → Option (Bool × KvStore × Os)
  recover_loop zero fuel fd complete_size store s = none
  recover_loop (suc rounds) fuel fd complete_size store s =
      elim (read_exact p fuel fd header_size 0 [] s) [
        | none ↦ none
        | some (r, header, s1) ↦ elim r.status [
          | eof ↦ elim (r.bytes == 0) [
            | true ↦ some (true, store, s1)
            | false ↦ with_store store (repair_torn_tail fuel fd complete_size s1)
          ]
          | ok ↦
              let size = host_length header in
              elim (ltb default_max_payload size) [
                | true ↦ some (false, store, s1)
                | false ↦ elim (read_exact p fuel fd size 0 [] s1) [
                  | none ↦ none
                  | some (r', payload, s2) ↦ elim r'.status [
                    | eof ↦ with_store store (repair_torn_tail fuel fd complete_size s2)
                    | ok ↦ elim (apply_record (parse_command payload) store) [
                      | none ↦ some (false, store, s2)
                      | some store' ↦
                          let (reply, s3) = lseek fd s2 in
                          elim reply [
                            | returns current_size ↦
                                recover_loop rounds fuel fd current_size store' s3
                            | fails errno ↦ some (false, store', s3)
                          ]
                    ]
                    | _ ↦ some (false, store, s2)
                  ]
                ]
              ]
          | _ ↦ some (false, store, s1)
        ]
      ]

  -- The destructor of `input` closes the descriptor.
  abbrev closing : ℕ → Option (Bool × KvStore × Os) → Option (Bool × KvStore × Os)
  closing fd none = none
  closing fd (some (done, store, s)) = some (done, store, close fd s)

  abbrev recover_from : ℕ → ℕ → KvStore → Reply ℕ × Os → Option (Bool × KvStore × Os)
  recover_from rounds fuel store (fails errno, s) = some (errno == enoent, store, s)
  recover_from rounds fuel store (returns fd, s) =
      closing fd (recover_loop rounds fuel fd 0 store s)

  unfoldable pub recover : ℕ → ℕ → Wal → KvStore → Os → Option (Bool × KvStore × Os)
  recover rounds fuel w store s =
      if is_empty w.path
      then some (true, store, s)
      else recover_from rounds fuel store (open_rdwr w.path s)
