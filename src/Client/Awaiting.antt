-- ===== src/Client/Awaiting.antt =====
-- The loop over `poll` ends, and what `restore_blocking_mode` restores.
use becomeasystemsengineer.Prelude.{
  ℕ, zero, suc, ◌-◌, ◌/◌, ◌≤◌, ◌<◌, ◌≡◌, refl, inl, inr, Bool, true, false, some, ◌==◌, ==_iff,
  Bool-cases, arith, ap, sym, set_at, subst,
}
use becomeasystemsengineer.Posix.{Posix, Reply, returns, fails, eintr}
use becomeasystemsengineer.Sockets.{Sockets, SocketLaws, Calm, Calm-trans, etimedout}
use becomeasystemsengineer.Client.{attempt_error, restore_blocking_mode, await_connection}

module _ (p : Posix) (k : Sockets p) (l : SocketLaws p k) where
  open l use {
    view, opened, flags, signals, socket_lem, opened-close, signals-close, get_status_flags_lem,
    got_status_flags, set_status_flags_opened, set_status_flags_signals, set_status_flags_done,
    set_status_flags_fails, socket_error_lem, connect_lem, connect_fails, poll_output_lem,
    poll_output_interrupted, now_lem, get_descriptor_flags_lem, set_descriptor_flags_lem,
    set_receive_timeout_lem, set_send_timeout_lem,
  }

  abbrev pub Restores : ℕ → ℕ → p.Os → ℕ × p.Os → Type 0
  Restores fd original s (e, s') =
      (opened s' ≡ opened s)
      × (signals s' ≤ signals s)
      × (e ≡ 0 → flags s' ≡ set_at (flags s) fd original)

  pub restore-Restores :
      (fd original e : ℕ) (s : p.Os)
      → Restores fd original s (restore_blocking_mode p k fd original e s)
  restore-Restores fd original e s =
      of_reply (k.set_status_flags fd original s).0 (k.set_status_flags fd original s).1 refl
        (set_status_flags_opened fd original s) (set_status_flags_signals fd original s)
    where
      of_reply :
          (r : Reply (Unit {0})) (s' : p.Os)
          → k.set_status_flags fd original s ≡ (r, s')
          → opened s' ≡ opened s
          → signals s' ≤ signals s
          → Restores fd original s (restore_blocking_mode p k fd original e s)
      of_reply (returns u) s' h o g =
          let out : restore_blocking_mode p k fd original e s ≡ (e, s') =
            unfold restore_blocking_mode in ground (arith, h) in
          subst (Restores fd original s) (sym out)
            (o, g, λ q. set_status_flags_done fd original s s' h)
      of_reply (fails e') s' h o g = elim (Bool-cases (e == 0)) [
        | inl none_yet ↦
            let out : restore_blocking_mode p k fd original e s ≡ (e', s') =
              unfold restore_blocking_mode in ground (arith, h, none_yet) in
            subst (Restores fd original s) (sym out)
              (o, g, λ q. absurd (omega (arith, q, set_status_flags_fails fd original e' s s' h)))
        | inr before ↦
            let out : restore_blocking_mode p k fd original e s ≡ (e, s') =
              unfold restore_blocking_mode in ground (arith, h, before) in
            subst (Restores fd original s) (sym out) (o, g, λ q. absurd (ground (arith, q, before)))
      ]

  abbrev pub Awaits : ℕ → ℕ → ℕ → p.Os → Type 0
  Awaits fd fuel deadline s =
      (e : ℕ) × (s' : p.Os) × (await_connection p k fuel fd deadline s ≡ some (e, s'))
      × Calm view s s'

  pub await-Calm : (fd fuel deadline : ℕ) (s : p.Os) → signals s < fuel → Awaits fd fuel deadline s
  await-Calm fd zero deadline s h = absurd (omega arith)
  await-Calm fd (suc fuel) deadline s h =
      elim (Bool-cases ((deadline - (k.now s).0) / 1000000 == 0)) [
        | inl over ↦
            (etimedout, (k.now s).1, unfold await_connection in ground (arith, over), now_lem s)
        | inr left ↦
            of_reply left (k.poll_output fd remaining (k.now s).1).0
              (k.poll_output fd remaining (k.now s).1).1 refl
              (Calm-trans view s (k.now s).1 (k.poll_output fd remaining (k.now s).1).1 (now_lem s)
                (poll_output_lem fd remaining (k.now s).1))
              (λ s1. await-Calm fd fuel deadline s1)
      ]
    where
      remaining : ℕ
      remaining = (deadline - (k.now s).0) / 1000000

      attempt :
          (r : Reply ℕ) (s1 s2 : p.Os)
          → k.socket_error fd s1 ≡ (r, s2)
          → (e : ℕ) × (attempt_error p k (k.socket_error fd s1) ≡ (e, s2))
      attempt (returns e) s1 s2 q = (e, ap (attempt_error p k) q)
      attempt (fails e) s1 s2 q = (e, ap (attempt_error p k) q)

      of_reply :
          remaining == 0 ≡ false
          → (r : Reply Bool) (s' : p.Os) → k.poll_output fd remaining (k.now s).1 ≡ (r, s')
          → Calm view s s'
          → ((s1 : p.Os) → signals s1 < fuel → Awaits fd fuel deadline s1)
          → Awaits fd (suc fuel) deadline s
      of_reply left (returns true) s' q calm ih =
          let (e, out) = attempt (k.socket_error fd s').0 s' (k.socket_error fd s').1 refl in
          (
            e,
            (k.socket_error fd s').1,
            unfold await_connection in ground (arith, left, q, out),
            Calm-trans view s s' (k.socket_error fd s').1 calm (socket_error_lem fd s'),
          )
      of_reply left (returns false) s' q calm ih =
          (etimedout, s', unfold await_connection in ground (arith, left, q), calm)
      of_reply left (fails e) s' q calm ih = elim (Bool-cases (e == eintr)) [
        | inl again ↦
            let fewer =
              poll_output_interrupted fd remaining (k.now s).1 s'
                (rw ((==_iff e eintr).0 again) at q) in
            let before = (now_lem s).2 in
            let (e', s'', out, calm') = ih s' (omega (arith, fewer, before, h)) in
            (
              e',
              s'',
              unfold await_connection in ground (arith, left, q, again, out),
              Calm-trans view s s' s'' calm calm',
            )
        | inr other ↦ (e, s', unfold await_connection in ground (arith, left, q, other), calm)
      ]
