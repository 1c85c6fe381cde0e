-- ===== src/Client/Connecting.antt =====
-- The set-up of a connection by `connect_with_timeout`.
use becomeasystemsengineer.Prelude.{
  ℕ, zero, suc, ◌+◌, ◌≤◌, ◌<◌, ◌≡◌, refl, inl, inr, ◌||◌, Option, some, ◌==◌, Bool-cases, arith, ap,
  sym, ◌∙◌, set_at, set_at-undone, subst,
}
use becomeasystemsengineer.Posix.{Posix, Reply, returns, fails, ewouldblock}
use becomeasystemsengineer.Sockets.{
  Sockets, SocketLaws, Calm, Calm-trans, or_flag, o_nonblock, einprogress,
}
use becomeasystemsengineer.Client.{
  as_reply, restored, connecting, restore_blocking_mode, connect_with_timeout,
}
use becomeasystemsengineer.Client.Awaiting.{Restores, restore-Restores, await-Calm}

module _ (p : Posix) (k : Sockets p) (l : SocketLaws p k) where
  open l use {
    view, opened, flags, signals, socket_lem, opened-close, signals-close, get_status_flags_lem,
    got_status_flags, set_status_flags_opened, set_status_flags_signals, set_status_flags_done,
    set_status_flags_fails, socket_error_lem, connect_lem, connect_fails, poll_output_lem,
    poll_output_interrupted, now_lem, get_descriptor_flags_lem, set_descriptor_flags_lem,
    set_receive_timeout_lem, set_send_timeout_lem,
  }

  -- How the set-up of a connection ends: it is there, with the socket in the mode it was in, or it is
  -- not; either way no descriptor was opened or closed.
  pub data Attempt (s : p.Os) : Option (Reply (Unit {0}) × p.Os) → Type 0 where
    made : (s' : p.Os) → Calm view s s' → Attempt s (some (returns tt, s'))
    missed :
        (e : ℕ) (s' : p.Os)
        → opened s' ≡ opened s
        → signals s' ≤ signals s
        → Attempt s (some (fails e, s'))

  -- What the attempt is once the error that it ends with is known.
  settled :
      (fd : ℕ) (e : ℕ) (s s2 s3 : p.Os)
      → opened s2 ≡ opened s
      → signals s2 ≤ signals s
      → flags s2 ≡ set_at (flags s) fd (or_flag (flags s fd) o_nonblock)
      → Calm view s2 s3
      → Attempt s (restored p k fd (flags s fd) (some (e, s3)))
  settled fd e s s2 s3 o g f (o', f', g') =
      of_end (restore_blocking_mode p k fd (flags s fd) e s3).0
        (restore_blocking_mode p k fd (flags s fd) e s3).1
        (restore-Restores p k l fd (flags s fd) e s3)
    where
      of_end :
          (e' : ℕ) (s' : p.Os)
          → Restores p k l fd (flags s fd) s3 (e', s')
          → Attempt s (some (as_reply p k (e', s')))
      of_end zero s' (o'', g'', f'') = made s' (
        o'' ∙ o' ∙ o,
        f'' refl
            ∙ ap (λ (x : ℕ → ℕ). set_at x fd (flags s fd)) (f' ∙ f)
            ∙ set_at-undone (flags s) fd (or_flag (flags s fd) o_nonblock) (flags s fd) refl,
        omega (arith, g, g', g''),
      )
      of_end (suc e') s' (o'', g'', f'') =
          missed (suc e') s' (o'' ∙ o' ∙ o) (omega (arith, g, g', g''))

  connecting-Attempt :
      (fuel fd : ℕ) (s s2 : p.Os) (reply : Reply (Unit {0})) (s3 : p.Os)
      → opened s2 ≡ opened s
      → signals s2 ≤ signals s
      → flags s2 ≡ set_at (flags s) fd (or_flag (flags s fd) o_nonblock)
      → Calm view s2 s3
      → signals s < fuel
      → Attempt s (connecting p k fuel fd (flags s fd) (reply, s3))
  connecting-Attempt fuel fd s s2 (returns u) s3 o g f calm h = settled fd 0 s s2 s3 o g f calm
  connecting-Attempt fuel fd s s2 (fails e) s3 o g f calm h =
      elim (Bool-cases (e == einprogress || e == ewouldblock)) [
        | inl pending ↦
            let start = (k.now s3).1 in
            let before = (now_lem s3).2 in
            let fewer = calm.2 in
            let (e', s4, out, calm') =
              await-Calm p k l fd fuel ((k.now s3).0 + 2000000000) start
                (omega (arith, before, fewer, g, h)) in
            rw (pending, out)
              (settled fd e' s s2 s4 o g f
                (Calm-trans view s2 s3 s4 calm (Calm-trans view s3 start s4 (now_lem s3) calm')))
        | inr final ↦
            let (o', g', _) = restore-Restores p k l fd (flags s fd) e s3 in
            let fewer = calm.2 in
            rw final (
              missed (restore_blocking_mode p k fd (flags s fd) e s3).0
                (restore_blocking_mode p k fd (flags s fd) e s3).1 (o' ∙ calm.0 ∙ o)
                (omega (arith, g, g', fewer)))
      ]

  -- An attempt to connect ends, given fuel above the signals that still interrupt, and opens and closes
  -- no descriptor; and if it succeeds, the status flags of every descriptor are what they were before:
  -- the socket is out of the non-blocking mode that the attempt has put it into.
  pub connect_with_timeout-Attempt :
      (fuel fd : ℕ) (address : k.Address) (s : p.Os)
      → signals s < fuel
      → Attempt s (connect_with_timeout p k fuel fd address s)
  connect_with_timeout-Attempt fuel fd address s h =
      of_flags (k.get_status_flags fd s).0 (k.get_status_flags fd s).1 refl
        (get_status_flags_lem fd s)
    where
      of_set :
          (n : ℕ) (s1 : p.Os) (r : Reply (Unit {0})) (s2 : p.Os)
          → k.get_status_flags fd s ≡ (returns n, s1)
          → Calm view s s1
          → k.set_status_flags fd (or_flag n o_nonblock) s1 ≡ (r, s2)
          → opened s2 ≡ opened s1
          → signals s2 ≤ signals s1
          → Attempt s (connect_with_timeout p k fuel fd address s)
      of_set n s1 (fails e) s2 got (o, f, g) q o' g' =
          let out : connect_with_timeout p k fuel fd address s ≡ some (fails e, s2) =
            unfold connect_with_timeout in ground (arith, got, q) in
          subst (Attempt s) (sym out) (missed e s2 (o' ∙ o) (omega (arith, g, g')))
      of_set n s1 (returns u) s2 got (o, f, g) q o' g' =
          let found : n ≡ flags s fd = got_status_flags fd n s s1 got in
          let out : connect_with_timeout p k fuel fd address s
              ≡ connecting p k fuel fd n (k.connect fd address s2) =
            unfold connect_with_timeout in ground (arith, got, q) in
          let set : flags s2 ≡ set_at (flags s) fd (or_flag (flags s fd) o_nonblock) =
            set_status_flags_done fd (or_flag n o_nonblock) s1 s2 q
            ∙ ap (λ (x : ℕ → ℕ). set_at x fd (or_flag n o_nonblock)) f
            ∙ ap (λ (x : ℕ). set_at (flags s) fd (or_flag x o_nonblock)) found in
          subst (Attempt s)
            (sym (out ∙ ap (λ (x : ℕ). connecting p k fuel fd x (k.connect fd address s2)) found))
            (connecting-Attempt fuel fd s s2 (k.connect fd address s2).0 (k.connect fd address s2).1
              (o' ∙ o) (omega (arith, g, g')) set (connect_lem fd address s2) h)

      of_flags :
          (r : Reply ℕ) (s1 : p.Os)
          → k.get_status_flags fd s ≡ (r, s1)
          → Calm view s s1
          → Attempt s (connect_with_timeout p k fuel fd address s)
      of_flags (fails e) s1 got (o, f, g) =
          let out : connect_with_timeout p k fuel fd address s ≡ some (fails e, s1) =
            unfold connect_with_timeout in ground (arith, got) in
          subst (Attempt s) (sym out) (missed e s1 o g)
      of_flags (returns n) s1 got calm =
          of_set n s1 (k.set_status_flags fd (or_flag n o_nonblock) s1).0
            (k.set_status_flags fd (or_flag n o_nonblock) s1).1 got calm refl
            (set_status_flags_opened fd (or_flag n o_nonblock) s1)
            (set_status_flags_signals fd (or_flag n o_nonblock) s1)
