-- ===== src/UniqueFd.antt =====
-- capstone/reference/include/netforge/unique_fd.hpp. `none` is a descriptor below 0, which owns
-- nothing; the value -1 of the source.
use becomeasystemsengineer.Prelude.{ℕ, Bool, true, false, Option, none, some}
use becomeasystemsengineer.Posix.{Posix}

pub record UniqueFd : Type 0 where
  pub fd : Option ℕ

abbrev pub no_fd : UniqueFd
no_fd = record { fd = none }

abbrev pub owning : ℕ → UniqueFd
owning n = record { fd = some n }

-- `operator bool`
unfoldable pub is_open : UniqueFd → Bool
is_open u = elim u.fd [ none ↦ false | some n ↦ true ]

-- The descriptor, and the holder that no longer owns it.
unfoldable pub release : UniqueFd → Option ℕ × UniqueFd
release u = (u.fd, no_fd)

module _ (p : Posix) where
  abbrev close_old : Option ℕ → p.Os → p.Os
  close_old none s = s
  close_old (some n) s = p.close n s

  -- The old descriptor is closed if there is one, and once: after the exchange.
  unfoldable pub reset : Option ℕ → UniqueFd → p.Os → UniqueFd × p.Os
  reset replacement u s = (record { fd = replacement }, close_old u.fd s)

  -- Assignment from another holder, which is left empty.
  unfoldable pub move_assign : UniqueFd → UniqueFd → p.Os → UniqueFd × UniqueFd × p.Os
  unfolding release reset
  move_assign u other s =
      let (n, other') = release other in let (u', s') = reset n u s in (u', other', s')
