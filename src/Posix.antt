-- ===== src/Posix.antt =====
-- The system calls that the program uses, as an interface: NetForge is modelled over any value of
-- `Posix`. The laws below are what POSIX documents of the calls; each theorem names those it needs.
use becomeasystemsengineer.Prelude.{ℕ, ◌≤◌, ◌<◌, ◌≡◌, Bool, [], ◌∷◌, ◌++◌, length, take}
use becomeasystemsengineer.Prelude.Bytes.{Bytes}

-- What a call returns: a value, or -1 with `errno`.
pub data Reply {ℓ} (A : Type ℓ) : Type ℓ where
  returns : A → Reply A
  fails : ℕ → Reply A

-- The numbers of `errno` on Linux.
abbrev pub enoent : ℕ
enoent = 2

abbrev pub eintr : ℕ
eintr = 4

abbrev pub eio : ℕ
eio = 5

abbrev pub eagain : ℕ
eagain = 11

abbrev pub ewouldblock : ℕ
ewouldblock = 11

abbrev pub emsgsize : ℕ
emsgsize = 90

-- `Os` is the state of all that is outside the process. A descriptor is a number.
pub record Posix : Type 1 where
  pub Os : Type 0
  -- `read(fd, …, n)`: the bytes that were read
  pub read : ℕ → ℕ → Os → Reply Bytes × Os
  -- `send(fd, bytes, …, MSG_NOSIGNAL)` and `write(fd, bytes, …)`: how many were taken
  pub send : ℕ → Bytes → Os → Reply ℕ × Os
  pub write : ℕ → Bytes → Os → Reply ℕ × Os
  pub fsync : ℕ → Os → Reply (Unit {0}) × Os
  pub ftruncate : ℕ → ℕ → Os → Reply (Unit {0}) × Os
  -- `lseek(fd, 0, SEEK_CUR)`
  pub lseek : ℕ → Os → Reply ℕ × Os
  -- `path.parent_path()`, and `create_directories`: whether it succeeded
  pub parent_path : Bytes → Bytes
  pub create_directories : Bytes → Os → Bool × Os
  -- `open(path, O_CREAT | O_APPEND | O_WRONLY | O_CLOEXEC, 0600)`
  pub open_append : Bytes → Os → Reply ℕ × Os
  -- `open(path, O_RDWR | O_CLOEXEC)`
  pub open_rdwr : Bytes → Os → Reply ℕ × Os
  pub close : ℕ → Os → Os

-- A descriptor that is read as a stream of bytes, and a bound on the signals that still interrupt.
pub record Stream (p : Posix) (fd : ℕ) : Type 0 where
  pub unread : p.Os → Bytes
  pub signals : p.Os → ℕ
  pub read_some :
      (n : ℕ) (bs : Bytes) (s s' : p.Os)
      → 0 < n
      → p.read fd n s ≡ (returns bs, s')
      → (unread s ≡ bs ++ unread s') × (length bs ≤ n) × (signals s' ≤ signals s)
  -- a count of 0 is the end of the stream
  pub read_end : (n : ℕ) (s s' : p.Os) → 0 < n → p.read fd n s ≡ (returns [], s') → unread s ≡ []
  pub read_interrupted :
      (n : ℕ) (s s' : p.Os)
      → p.read fd n s ≡ (fails eintr, s')
      → (unread s' ≡ unread s) × (signals s' < signals s)

-- Reading fails by interruption alone: no timeout passes and the device does not break.
abbrev pub ReadsWell : (p : Posix) → ℕ → Type 0
ReadsWell p fd = (n e : ℕ) (s s' : p.Os) → p.read fd n s ≡ (fails e, s') → e ≡ eintr

-- A descriptor that is written: a call takes some of the bytes, in order, or is interrupted. `taken`
-- are the bytes that were taken so far.
pub record Sink (p : Posix) (write : ℕ → Bytes → p.Os → Reply ℕ × p.Os) (fd : ℕ) : Type 0 where
  pub taken : p.Os → Bytes
  pub signals : p.Os → ℕ
  pub write_some :
      (bs : Bytes) (n : ℕ) (s s' : p.Os)
      → write fd bs s ≡ (returns n, s')
      → (n ≤ length bs) × (taken s' ≡ taken s ++ take n bs) × (signals s' ≤ signals s)
  -- a call that fails has taken nothing
  pub write_failed :
      (bs : Bytes) (e : ℕ) (s s' : p.Os)
      → write fd bs s ≡ (fails e, s')
      → (taken s' ≡ taken s) × (signals s' ≤ signals s)
  pub write_interrupted :
      (bs : Bytes) (s s' : p.Os) → write fd bs s ≡ (fails eintr, s') → signals s' < signals s

-- Writing fails by interruption alone, and takes at least a byte of those it is given.
pub record WritesWell (p : Posix) (write : ℕ → Bytes → p.Os → Reply ℕ × p.Os) (fd : ℕ)
    : Type 0 where
  pub write_progress :
      (b : ℕ) (bs : Bytes) (n : ℕ) (s s' : p.Os) → write fd (b ∷ bs) s ≡ (returns n, s') → 0 < n
  pub write_fails : (bs : Bytes) (e : ℕ) (s s' : p.Os) → write fd bs s ≡ (fails e, s') → e ≡ eintr
