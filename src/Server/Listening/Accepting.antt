-- ===== src/Server/Listening/Accepting.antt =====
-- The descriptors of the accept loop.
use becomeasystemsengineer.Prelude.{
  ℕ, zero, suc, ◌+◌, ◌≤◌, ◌<◌, ◌≡◌, refl, inl, inr, Bool, true, false, Option, none, some, ◌==◌,
  Bool-cases, arith, ap, sym, ◌∙◌, subst, set_at, set_at-same, set_at-undone,
}
use becomeasystemsengineer.Prelude.Bytes.{Bytes, codes}
use becomeasystemsengineer.Posix.{Posix, Reply, returns, fails, eintr}
use becomeasystemsengineer.Protocol.Frame.{header_size}
use becomeasystemsengineer.Sockets.{
  Sockets, SocketLaws, View, Calm, Opens, Events, close_on_exec, set_timeouts,
}
use becomeasystemsengineer.Sockets.Transfers.{send_frame-EndsCalm}
use becomeasystemsengineer.Sockets.Configuring.{
  closed_again, Calm->>=, close_on_exec-Calm, set_timeouts-Calm,
}
use becomeasystemsengineer.Server.Listening.{
  Submission, queued, overloaded, threw, is_transient, configure_accepted, Turn, again, leaves,
  told, hand_over, configured, accepted, polled, accept_loop,
}

-- What `submit` does with a descriptor of the calling thread: a task takes it over, or it stays.
abbrev pub Takes : {Os : Type 0} → View Os → Os → ℕ → Submission × Os → Type 0
Takes v s fd (queued, s') =
    (v.opened s' ≡ set_at (v.opened s) fd false) × (v.signals s' ≤ v.signals s)
Takes v s fd (overloaded, s') = (v.opened s' ≡ v.opened s) × (v.signals s' ≤ v.signals s)
Takes v s fd (threw, s') = (v.opened s' ≡ v.opened s) × (v.signals s' ≤ v.signals s)

module _ (p : Posix) (k : Sockets p) (l : SocketLaws p k) where
  open l use {
    view, opened, signals, socket_lem, accept_lem, opened-close, signals-close, getaddrinfo_lem,
    getsockname_lem,
  }

  configure_accepted-Calm : (fd : ℕ) (s : p.Os) → Calm view s (configure_accepted p k fd s).1
  unfolding configure_accepted
  configure_accepted-Calm fd s =
      Calm->>= view (close_on_exec p k fd) (λ u. set_timeouts p k fd 2) s
        (close_on_exec-Calm p k l fd s) (λ u s'. set_timeouts-Calm p k l fd 2 s')

  -- What the accept loop keeps, from a state with the open descriptors `f` and at most `b` signals.
  abbrev Holds : (ℕ → Bool) → ℕ → p.Os → Type 0
  Holds f b s = (opened s ≡ f) × (signals s ≤ b)

  data GoodTurn (f : ℕ → Bool) (b : ℕ) : Option (Turn p k) → Type 0 where
    goes_on : (error : Bytes) (s : p.Os) → Holds f b s → GoodTurn f b (some (again error s))
    ends : (error : Bytes) (s : p.Os) → Holds f b s → GoodTurn f b (some (leaves error s))

  -- Giving a descriptor away leaves those from before it was opened.
  given_away :
      (fd : ℕ) (s s1 s2 : p.Os)
      → opened s fd ≡ false
      → opened s1 ≡ set_at (opened s) fd true
      → opened s2 ≡ set_at (opened s1) fd false
      → opened s2 ≡ opened s
  given_away fd s s1 s2 new o o' =
      o' ∙ ap (λ (x : ℕ → Bool). set_at x fd false) o ∙ set_at-undone (opened s) fd true false new

  module _ (f : ℕ → Bool) (b fuel : ℕ) (room : header_size + 14 + b < fuel) where
    hand_over-Good :
        (fd : ℕ) (error : Bytes) (s1 s : p.Os) (submission : Submission) (s2 : p.Os)
        → Holds f b s1
        → opened s1 fd ≡ false
        → opened s ≡ set_at (opened s1) fd true
        → signals s ≤ b
        → Takes view s fd (submission, s2)
        → GoodTurn f b (hand_over p k fuel fd error (submission, s2))
    hand_over-Good fd error s1 s queued s2 (o, g) new o' g' (t, u) =
        goes_on error s2 (given_away fd s1 s s2 new o' t ∙ o, omega (arith, g', u))
    hand_over-Good fd error s1 s overloaded s2 (o, g) new o' g' (t, u) =
        let (sent, s3, out, (o'', f'', g'')) =
          send_frame-EndsCalm p k l fd fuel (codes "ERR overloaded") s2 (omega arith)
            (omega (arith, room, g', u)) in
        let less = signals-close fd s3 in
        subst (GoodTurn f b) (sym (ap (told p k fd error) out)) (
          goes_on error (p.close fd s3)
            (closed_again p k l fd s1 s3 new (o'' ∙ t ∙ o') ∙ o, omega (arith, less, g', u, g'')))
    hand_over-Good fd error s1 s threw s2 (o, g) new o' g' (t, u) =
        let less = signals-close fd s2 in
        ends (codes "could not queue accepted client work") (p.close fd s2)
          (closed_again p k l fd s1 s2 new (t ∙ o') ∙ o, omega (arith, less, g', u))

    module _ (submit : ℕ → p.Os → Submission × p.Os)
        (takes : (fd : ℕ) (s : p.Os) → opened s fd ≡ true → Takes view s fd (submit fd s)) where
      configured-Good :
          (fd : ℕ) (error : Bytes) (s1 : p.Os) (r : Reply (Unit {0})) (s : p.Os)
          → Holds f b s1
          → opened s1 fd ≡ false
          → opened s ≡ set_at (opened s1) fd true
          → signals s ≤ b
          → GoodTurn f b (configured p k submit fuel fd error (r, s))
      configured-Good fd error s1 (fails e) s (o, g) new o' g' =
          let less = signals-close fd s in
          goes_on error (p.close fd s)
            (closed_again p k l fd s1 s new o' ∙ o, omega (arith, less, g'))
      configured-Good fd error s1 (returns u) s h new o' g' =
          let own = ap (λ (x : ℕ → Bool). x fd) o' ∙ set_at-same (opened s1) fd true in
          hand_over-Good fd error s1 s (submit fd s).0 (submit fd s).1 h new o' g' (takes fd s own)

      accepted-Good :
          (error : Bytes) (s1 : p.Os) (r : Reply ℕ) (s : p.Os)
          → Holds f b s1
          → Opens view s1 (r, s)
          → GoodTurn f b (accepted p k submit fuel error (r, s))
      accepted-Good error s1 (fails e) s (o, g) (o', f', g') = elim (Bool-cases (is_transient e)) [
        | inl later ↦ rw later (goes_on error s (o' ∙ o, omega (arith, g, g')))
        | inr for_good ↦ rw for_good (goes_on (k.strerror e) s (o' ∙ o, omega (arith, g, g')))
      ]
      accepted-Good error s1 (returns fd) s h (new, o', g') =
          let (o'', f'', g'') = configure_accepted-Calm fd s in
          let before = h.1 in
          configured-Good fd error s1 (configure_accepted p k fd s).0
            (configure_accepted p k fd s).1 h new (o'' ∙ o') (omega (arith, g', g'', before))

      polled-Good :
          (listener : ℕ) (error : Bytes) (s1 : p.Os) (r : Reply (Option Events)) (s : p.Os)
          → Holds f b s1
          → Calm view s1 s
          → GoodTurn f b (polled p k submit fuel listener error (r, s))
      polled-Good listener error s1 (fails e) s (o, g) (o', f', g') =
          elim (Bool-cases (e == eintr)) [
            | inl later ↦ rw later (goes_on error s (o' ∙ o, omega (arith, g, g')))
            | inr for_good ↦ rw for_good (ends (k.strerror e) s (o' ∙ o, omega (arith, g, g')))
          ]
      polled-Good listener error s1 (returns none) s (o, g) (o', f', g') =
          goes_on error s (o' ∙ o, omega (arith, g, g'))
      polled-Good listener error s1 (returns (some events)) s (o, g) (o', f', g') =
          elim (Bool-cases events.input) [
            | inl there ↦ rw there (
                accepted-Good error s (k.accept listener s).0 (k.accept listener s).1
                  (o' ∙ o, omega (arith, g, g')) (accept_lem listener s))
            | inr nothing ↦ elim (Bool-cases events.broken) [
              | inl gone ↦ rw (nothing, gone) (ends error s (o' ∙ o, omega (arith, g, g')))
              | inr odd ↦ rw (nothing, odd) (goes_on error s (o' ∙ o, omega (arith, g, g')))
            ]
          ]

      module _ (stop : ℕ → Bool) (listener : ℕ) (requested : stop 0 ≡ true) where
        abbrev EndsHolding : Option (Bytes × p.Os) → Type 0
        EndsHolding out = (error' : Bytes) × (s' : p.Os) × (out ≡ some (error', s')) × Holds f b s'

        loop-Holds :
            (rounds : ℕ) (error : Bytes) (s : p.Os)
            → Holds f b s
            → EndsHolding (accept_loop p k submit (suc rounds) fuel stop listener error s)
        loop-Holds zero error s h = (error, s, unfold accept_loop in ground (arith, requested), h)
        loop-Holds (suc rounds) error s h = elim (Bool-cases (stop (suc rounds))) [
          | inl stopped ↦ (error, s, unfold accept_loop in ground (arith, stopped), h)
          | inr running ↦
              of_turn running (polled p k submit fuel listener error (k.poll_input listener 100 s))
                refl
                (polled-Good listener error s (k.poll_input listener 100 s).0
                  (k.poll_input listener 100 s).1 h (l.poll_input_lem listener 100 s))
                (λ error' s'. loop-Holds rounds error' s')
        ]
          where
            of_turn :
                stop (suc rounds) ≡ false
                → (out : Option (Turn p k))
                → polled p k submit fuel listener error (k.poll_input listener 100 s) ≡ out
                → GoodTurn f b out
                → ((error' : Bytes) (s' : p.Os)
                    → Holds f b s'
                    → EndsHolding
                        (accept_loop p k submit (suc rounds) fuel stop listener error' s'))
                → EndsHolding (accept_loop p k submit (suc (suc rounds)) fuel stop listener error s)
            of_turn running out q (ends error' s' h') ih =
                (error', s', unfold accept_loop in ground (arith, running, q), h')
            of_turn running out q (goes_on error' s' h') ih =
                let (error'', s'', end, h'') = ih error' s' h' in
                (error'', s'', unfold accept_loop in ground (arith, running, q, end), h'')

  -- Once a stop is requested, the accept loop ends, given fuel above the bytes of the refusal and the
  -- signals that still interrupt; and then the descriptors of its thread are exactly those from before.
  -- So each connection that it accepted was closed or taken over by a task, whatever number it had:
  -- the tasks may close theirs at any time, and `accept` may give a number out again. What `submit`
  -- does is known for a descriptor of the thread only, and so it is for `close`.
  pub accept_loop_hands_over :
      (submit : ℕ → p.Os → Submission × p.Os)
      → ((fd : ℕ) (s : p.Os) → opened s fd ≡ true → Takes view s fd (submit fd s))
      → (rounds fuel : ℕ) (stop : ℕ → Bool) (listener : ℕ) (error : Bytes) (s : p.Os)
      → stop 0 ≡ true
      → header_size + 14 + signals s < fuel
      → (error' : Bytes) × (s' : p.Os) × (accept_loop p k submit
            (suc rounds)
            fuel
            stop
            listener
            error
            s
          ≡ some (error', s'))
        × (opened s' ≡ opened s)
  accept_loop_hands_over submit takes rounds fuel stop listener error s requested room =
      let (error', s', out, (o, g)) =
        loop-Holds (opened s) (signals s) fuel room submit takes stop listener requested rounds
          error s (refl, omega arith) in
      (error', s', out, o)
