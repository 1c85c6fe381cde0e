-- ===== src/Sockets.antt =====
-- The calls that set up connections, as an interface beside `Posix`, and what they leave as it was:
-- the descriptors of the process, the flags of a socket, and the signals that still interrupt.
pub mod Transfers
pub mod Configuring
use becomeasystemsengineer.Prelude.{
  ℕ, ◌+◌, ◌%◌, ◌/◌, ◌≤◌, ◌<◌, ◌≡◌, Bool, true, false, Option, none, some, List, [], ◌∷◌, ◌==◌,
  if◌then◌else◌, set_at, length, arith, refl, ◌∙◌,
}
use becomeasystemsengineer.Prelude.Bytes.{Bytes}
use becomeasystemsengineer.Posix.{Posix, Reply, returns, fails, eintr}

infixl 1 ◌>>=◌
infixl 1 ◌>>◌
abbrev pub econnrefused : ℕ
econnrefused = 111

abbrev pub etimedout : ℕ
etimedout = 110

abbrev pub einprogress : ℕ
einprogress = 115

abbrev pub fd_cloexec : ℕ
fd_cloexec = 1

abbrev pub o_nonblock : ℕ
o_nonblock = 2048

-- `flags | bit`, for a power of two
unfoldable pub or_flag : ℕ → ℕ → ℕ
or_flag flags bit = if flags / bit % 2 == 1 then flags else flags + bit

-- `revents` of a poll for input: `POLLIN`, and one of `POLLERR`, `POLLHUP` and `POLLNVAL`.
pub record Events : Type 0 where
  pub input : Bool
  pub broken : Bool

-- Timeouts of sockets are in seconds, those of `poll` in milliseconds, the clock in nanoseconds.
pub record Sockets (p : Posix) : Type 1 where
  -- `addrinfo`
  pub Address : Type 0
  -- node, service, and whether `AI_PASSIVE` is set; a failure is a code of `gai_strerror`
  pub getaddrinfo : Bytes → Bytes → Bool → p.Os → Reply (List Address) × p.Os
  pub socket : Address → p.Os → Reply ℕ × p.Os
  -- `F_GETFD` and `F_SETFD`, `F_GETFL` and `F_SETFL`
  pub get_descriptor_flags : ℕ → p.Os → Reply ℕ × p.Os
  pub set_descriptor_flags : ℕ → ℕ → p.Os → Reply (Unit {0}) × p.Os
  pub get_status_flags : ℕ → p.Os → Reply ℕ × p.Os
  pub set_status_flags : ℕ → ℕ → p.Os → Reply (Unit {0}) × p.Os
  -- `SO_RCVTIMEO`, `SO_SNDTIMEO` and `SO_REUSEADDR`; `SO_NOSIGPIPE` is not defined on Linux
  pub set_receive_timeout : ℕ → ℕ → p.Os → Reply (Unit {0}) × p.Os
  pub set_send_timeout : ℕ → ℕ → p.Os → Reply (Unit {0}) × p.Os
  pub set_reuse_address : ℕ → p.Os → Reply (Unit {0}) × p.Os
  -- `SO_ERROR`
  pub socket_error : ℕ → p.Os → Reply ℕ × p.Os
  pub connect : ℕ → Address → p.Os → Reply (Unit {0}) × p.Os
  pub bind : ℕ → Address → p.Os → Reply (Unit {0}) × p.Os
  pub listen : ℕ → ℕ → p.Os → Reply (Unit {0}) × p.Os
  -- the port of an address of IPv4 or IPv6
  pub getsockname : ℕ → p.Os → Reply (Option ℕ) × p.Os
  pub accept : ℕ → p.Os → Reply ℕ × p.Os
  -- whether the descriptor was ready before the time was over, for output; what was found, for input
  pub poll_output : ℕ → ℕ → p.Os → Reply Bool × p.Os
  pub poll_input : ℕ → ℕ → p.Os → Reply (Option Events) × p.Os
  pub now : p.Os → ℕ × p.Os
  pub errno : p.Os → ℕ
  pub strerror : ℕ → Bytes
  pub gai_strerror : ℕ → Bytes

-- The next call is made unless one fails.
abbrev pub ◌>>=◌ :
    {Os A B : Type 0} → (Os → Reply A × Os) → (A → Os → Reply B × Os) → Os → Reply B × Os
(m >>= f) s = let (reply, s') = m s in elim reply [ returns a ↦ f a s' | fails e ↦ (fails e, s') ]

abbrev pub ◌>>◌ : {Os A B : Type 0} → (Os → Reply A × Os) → (Os → Reply B × Os) → Os → Reply B × Os
m >> n = m >>= (λ a. n)

module _ (p : Posix) (k : Sockets p) where
  open p use {Os}

  unfoldable pub close_on_exec : ℕ → Os → Reply (Unit {0}) × Os
  close_on_exec fd = do
    flags ← k.get_descriptor_flags fd
    k.set_descriptor_flags fd (or_flag flags fd_cloexec)

  unfoldable pub set_timeouts : ℕ → ℕ → Os → Reply (Unit {0}) × Os
  set_timeouts fd seconds = do k.set_receive_timeout fd seconds; k.set_send_timeout fd seconds

  -- The loops over the addresses: the first socket that `prepare` succeeds on. Another one is closed.
  unfoldable pub first_prepared :
      (ℕ → k.Address → Os → Reply (Unit {0}) × Os) → List k.Address → Os → Option ℕ × Os
  first_prepared prepare [] s = (none, s)
  first_prepared prepare (address ∷ rest) s =
      let (reply, s1) = k.socket address s in
      elim reply [
        | fails e ↦ first_prepared prepare rest s1
        | returns fd ↦
            let (reply', s2) = prepare fd address s1 in
            elim reply' [
              | fails e ↦ first_prepared prepare rest (p.close fd s2)
              | returns u ↦ (some fd, s2)
            ]
      ]

-- What a state shows: which descriptors are open, and the status flags of each. Where other threads
-- open and close descriptors of their own, these are the descriptors that belong to the calling
-- thread: those that it has opened and has neither closed nor given away.
pub record View (Os : Type 0) : Type 0 where
  pub opened : Os → ℕ → Bool
  pub flags : Os → ℕ → ℕ
  pub signals : Os → ℕ

-- A call that opens and closes nothing and changes no status flags.
abbrev pub Calm : {Os : Type 0} → View Os → Os → Os → Type 0
Calm v s s' = (v.opened s' ≡ v.opened s) × (v.flags s' ≡ v.flags s) × (v.signals s' ≤ v.signals s)

-- A call that may open a descriptor, which was not open.
abbrev pub Opens : {Os : Type 0} → View Os → Os → Reply ℕ × Os → Type 0
Opens v s (returns n, s') =
    (v.opened s n ≡ false)
    × (v.opened s' ≡ set_at (v.opened s) n true)
    × (v.signals s' ≤ v.signals s)
Opens v s (fails e, s') = Calm v s s'

-- What POSIX documents of the calls.
pub record SocketLaws (p : Posix) (k : Sockets p) : Type 0 where
  pub view : View p.Os
  pub open view use *
  pub getaddrinfo_lem :
      (node service : Bytes) (b : Bool) (s : p.Os) → Calm view s (k.getaddrinfo node service b s).1
  pub socket_lem : (a : k.Address) (s : p.Os) → Opens view s (k.socket a s)
  pub accept_lem : (fd : ℕ) (s : p.Os) → Opens view s (k.accept fd s)
  -- nothing is known of what closing another descriptor does
  pub opened-close :
      (fd : ℕ) (s : p.Os) → opened s fd ≡ true → opened (p.close fd s) ≡ set_at (opened s) fd false
  pub signals-close : (fd : ℕ) (s : p.Os) → signals (p.close fd s) ≤ signals s
  pub get_descriptor_flags_lem : (fd : ℕ) (s : p.Os) → Calm view s (k.get_descriptor_flags fd s).1
  pub set_descriptor_flags_lem :
      (fd n : ℕ) (s : p.Os) → Calm view s (k.set_descriptor_flags fd n s).1
  pub get_status_flags_lem : (fd : ℕ) (s : p.Os) → Calm view s (k.get_status_flags fd s).1
  pub got_status_flags :
      (fd n : ℕ) (s s' : p.Os) → k.get_status_flags fd s ≡ (returns n, s') → n ≡ flags s fd
  pub set_status_flags_opened :
      (fd n : ℕ) (s : p.Os) → opened (k.set_status_flags fd n s).1 ≡ opened s
  pub set_status_flags_signals :
      (fd n : ℕ) (s : p.Os) → signals (k.set_status_flags fd n s).1 ≤ signals s
  pub set_status_flags_done :
      (fd n : ℕ) (s s' : p.Os)
      → k.set_status_flags fd n s ≡ (returns tt, s')
      → flags s' ≡ set_at (flags s) fd n
  pub set_status_flags_fails :
      (fd n e : ℕ) (s s' : p.Os) → k.set_status_flags fd n s ≡ (fails e, s') → 0 < e
  pub set_receive_timeout_lem : (fd n : ℕ) (s : p.Os) → Calm view s (k.set_receive_timeout fd n s).1
  pub set_send_timeout_lem : (fd n : ℕ) (s : p.Os) → Calm view s (k.set_send_timeout fd n s).1
  pub set_reuse_address_lem : (fd : ℕ) (s : p.Os) → Calm view s (k.set_reuse_address fd s).1
  pub socket_error_lem : (fd : ℕ) (s : p.Os) → Calm view s (k.socket_error fd s).1
  pub connect_lem : (fd : ℕ) (a : k.Address) (s : p.Os) → Calm view s (k.connect fd a s).1
  -- a call that failed gave a number for it
  pub connect_fails :
      (fd e : ℕ) (a : k.Address) (s s' : p.Os) → k.connect fd a s ≡ (fails e, s') → 0 < e
  pub bind_lem : (fd : ℕ) (a : k.Address) (s : p.Os) → Calm view s (k.bind fd a s).1
  pub listen_lem : (fd n : ℕ) (s : p.Os) → Calm view s (k.listen fd n s).1
  pub getsockname_lem : (fd : ℕ) (s : p.Os) → Calm view s (k.getsockname fd s).1
  pub poll_output_lem : (fd ms : ℕ) (s : p.Os) → Calm view s (k.poll_output fd ms s).1
  pub poll_output_interrupted :
      (fd ms : ℕ) (s s' : p.Os) → k.poll_output fd ms s ≡ (fails eintr, s') → signals s' < signals s
  pub poll_input_lem : (fd ms : ℕ) (s : p.Os) → Calm view s (k.poll_input fd ms s).1
  pub now_lem : (s : p.Os) → Calm view s (k.now s).1
  pub read_lem : (fd n : ℕ) (s : p.Os) → Calm view s (p.read fd n s).1
  pub read_interrupted :
      (fd n : ℕ) (s s' : p.Os) → p.read fd n s ≡ (fails eintr, s') → signals s' < signals s
  pub send_lem : (fd : ℕ) (bs : Bytes) (s : p.Os) → Calm view s (p.send fd bs s).1
  pub send_count :
      (fd n : ℕ) (bs : Bytes) (s s' : p.Os) → p.send fd bs s ≡ (returns n, s') → n ≤ length bs
  pub send_interrupted :
      (fd : ℕ) (bs : Bytes) (s s' : p.Os)
      → p.send fd bs s ≡ (fails eintr, s')
      → signals s' < signals s

pub Calm-trans :
    {Os : Type 0} (v : View Os) (s s' s'' : Os) → Calm v s s' → Calm v s' s'' → Calm v s s''
Calm-trans v s s' s'' (o, f, g) (o', f', g') = (o' ∙ o, f' ∙ f, omega (arith, g, g'))

pub Calm-refl : {Os : Type 0} (v : View Os) (s : Os) → Calm v s s
Calm-refl v s = (refl, refl, omega arith)
