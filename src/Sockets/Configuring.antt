-- ===== src/Sockets/Configuring.antt =====
-- Chains of calls that open and close nothing, and a descriptor that is closed again.
use becomeasystemsengineer.Prelude.{
  refl, ◌≤◌, ℕ, ◌≡◌, Bool, true, false, ap, ◌∙◌, sym, subst, arith, Option, none, some, List, [],
  ◌∷◌, set_at, set_at-same, set_at-undone,
}
use becomeasystemsengineer.Posix.{Posix, Reply, returns, fails}
use becomeasystemsengineer.Sockets.{
  Sockets, SocketLaws, View, Calm, Calm-trans, close_on_exec, set_timeouts, first_prepared, Opens,
  ◌>>=◌, or_flag, fd_cloexec,
}

-- A chain changes nothing if neither of its calls does, the second one from any state.
pub Calm->>= :
    {Os A B : Type 0} (v : View Os) (m : Os → Reply A × Os) (f : A → Os → Reply B × Os) (s : Os)
    → Calm v s (m s).1
    → ((a : A) (s' : Os) → Calm v s' (f a s').1)
    → Calm v s ((m >>= f) s).1
Calm->>= {Os} {A} {B} v m f s first then = of_reply (m s).0 (m s).1 first
  where
    of_reply :
        (r : Reply A) (s' : Os)
        → Calm v s s'
        → Calm v s
            (elim r as (λ x. Reply B × Os) [ returns a ↦ f a s' | fails e ↦ (fails e, s') ]).1
    of_reply (returns a) s' calm = Calm-trans v s s' (f a s').1 calm (then a s')
    of_reply (fails e) s' calm = calm

module _ (p : Posix) (k : Sockets p) (l : SocketLaws p k) where
  open l use {view, opened, signals, signals-close, opened-close, socket_lem}

  -- Closing a descriptor undoes its opening.
  pub closed_again :
      (fd : ℕ) (s s3 : p.Os)
      → opened s fd ≡ false
      → opened s3 ≡ set_at (opened s) fd true
      → opened (p.close fd s3) ≡ opened s
  closed_again fd s s3 new o =
      opened-close fd s3 (ap (λ (x : ℕ → Bool). x fd) o ∙ set_at-same (opened s) fd true)
      ∙ ap (λ (x : ℕ → Bool). set_at x fd false) o
      ∙ set_at-undone (opened s) fd true false new

  pub close_on_exec-Calm : (fd : ℕ) (s : p.Os) → Calm l.view s (close_on_exec p k fd s).1
  unfolding close_on_exec
  close_on_exec-Calm fd s =
      Calm->>= l.view (k.get_descriptor_flags fd)
        (λ flags. k.set_descriptor_flags fd (or_flag flags fd_cloexec)) s
        (l.get_descriptor_flags_lem fd s)
        (λ flags s'. l.set_descriptor_flags_lem fd (or_flag flags fd_cloexec) s')

  pub set_timeouts-Calm :
      (fd seconds : ℕ) (s : p.Os) → Calm l.view s (set_timeouts p k fd seconds s).1
  unfolding set_timeouts
  set_timeouts-Calm fd seconds s =
      Calm->>= l.view (k.set_receive_timeout fd seconds) (λ u. k.set_send_timeout fd seconds) s
        (l.set_receive_timeout_lem fd seconds s) (λ u s'. l.set_send_timeout_lem fd seconds s')

  -- What is found owns the only descriptor that is opened and still open.
  abbrev pub Owns : p.Os → Option ℕ × p.Os → Type 0
  Owns s (none, s') = (opened s' ≡ opened s) × (signals s' ≤ signals s)
  Owns s (some fd, s') =
      (opened s fd ≡ false) × (opened s' ≡ set_at (opened s) fd true) × (signals s' ≤ signals s)

  pub Owns-later :
      (s s1 : p.Os) (r : Option ℕ) (s' : p.Os)
      → opened s1 ≡ opened s
      → signals s1 ≤ signals s
      → Owns s1 (r, s')
      → Owns s (r, s')
  Owns-later s s1 none s' o g (h, g') = (h ∙ o, omega (arith, g, g'))
  Owns-later s s1 (some fd) s' o g (new, h, g') = (
    ap (λ (x : ℕ → Bool). x fd) (sym o) ∙ new,
    h ∙ ap (λ (x : ℕ → Bool). set_at x fd true) o,
    omega (arith, g, g'),
  )

  pub first_prepared-Owns :
      (prepare : ℕ → k.Address → p.Os → Reply (Unit {0}) × p.Os)
      → ((fd : ℕ) (a : k.Address) (s' : p.Os) → Calm view s' (prepare fd a s').1)
      → (addresses : List k.Address) (s : p.Os) → Owns s (first_prepared p k prepare addresses s)
  first_prepared-Owns prepare calm [] s = unfold first_prepared in (refl, omega arith)
  first_prepared-Owns prepare calm (address ∷ rest) s =
      of_socket (k.socket address s).0 (k.socket address s).1 refl (socket_lem address s) (λ s' o g.
        Owns-later s s' (first_prepared p k prepare rest s').0
          (first_prepared p k prepare rest s').1 o g (first_prepared-Owns prepare calm rest s'))
    where
      Rest : Type 0
      Rest =
          (s' : p.Os)
          → opened s' ≡ opened s
          → signals s' ≤ signals s
          → Owns s (first_prepared p k prepare rest s')

      of_prepare :
          (fd : ℕ) (s1 : p.Os) (r : Reply (Unit {0})) (s2 : p.Os)
          → k.socket address s ≡ (returns fd, s1)
          → prepare fd address s1 ≡ (r, s2)
          → opened s fd ≡ false
          → opened s2 ≡ set_at (opened s) fd true
          → signals s2 ≤ signals s
          → Rest
          → Owns s (first_prepared p k prepare (address ∷ rest) s)
      of_prepare fd s1 (fails e) s2 q q' new o g next =
          let end : first_prepared p k prepare (address ∷ rest) s
              ≡ first_prepared p k prepare rest (p.close fd s2) =
            unfold first_prepared in ground (arith, q, q') in
          subst (Owns s) (sym end) (
            next (p.close fd s2) (closed_again fd s s2 new o)
              (let less = signals-close fd s2 in omega (arith, g, less)))
      of_prepare fd s1 (returns u) s2 q q' new o g next =
          let end : first_prepared p k prepare (address ∷ rest) s ≡ (some fd, s2) =
            unfold first_prepared in ground (arith, q, q') in
          subst (Owns s) (sym end) (new, o, g)

      of_socket :
          (r : Reply ℕ) (s1 : p.Os)
          → k.socket address s ≡ (r, s1)
          → Opens view s (r, s1)
          → Rest
          → Owns s (first_prepared p k prepare (address ∷ rest) s)
      of_socket (fails e) s1 q (o, f, g) next =
          let end : first_prepared p k prepare (address ∷ rest) s
              ≡ first_prepared p k prepare rest s1 =
            unfold first_prepared in ground (arith, q) in
          subst (Owns s) (sym end) (next s1 o g)
      of_socket (returns fd) s1 q (new, o, g) next =
          of_prepare fd s1 (prepare fd address s1).0 (prepare fd address s1).1 q refl new
            ((calm fd address s1).0 ∙ o)
            (let less = (calm fd address s1).2 in omega (arith, g, less)) next
