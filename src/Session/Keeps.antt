-- ===== src/Session/Keeps.antt =====
-- Invariants of the database that a request keeps, in what it has committed and in what it sees.
use stashd.Prelude.{◌≡◌, ◌≢◌, refl, inl, inr, Bool-cases}
use stashd.Domain.Errors.{Result, ok, err}
use stashd.Models.{Db}
use stashd.Session.{Session, Exec, continue, ◌>>=◌, ◌>>◌, pure, lift, reads, writes, commit, after}
use stashd.Session.Rows.{constraints_hold}

pub record Both {ℓ} (P : Db → Type ℓ) (s : Session) : Type ℓ where
  pub committed : P s.committed
  pub working : P s.working

-- `m` keeps `P`, whether it returns or raises.
pub record Keeps {ℓ} {A : Type 0} (P : Db → Type ℓ) (m : Exec A) : Type ℓ where
  pub at : (s : Session) → Both P s → Both P (m s).1

module _ {ℓ} {P : Db → Type ℓ} where
  module _ {A : Type 0} where
    pub Keeps-pure : (a : A) → Keeps P (pure a)
    unfolding pure
    Keeps-pure a = record { at = λ s h. h }

    pub Keeps-lift : (r : Result A) → Keeps P (lift r)
    unfolding lift
    Keeps-lift r = record { at = λ s h. h }

    pub Keeps-reads : (g : Db → A) → Keeps P (reads g)
    unfolding reads
    Keeps-reads g = record { at = λ s h. h }

  pub Keeps-writes : (g : Db → Db) → ((db : Db) → P db → P (g db)) → Keeps P (writes g)
  unfolding writes
  Keeps-writes g k = record {
    at = λ s h. record { committed = h.committed; working = k s.working h.working };
  }

  pub Keeps-commit : Keeps P commit
  unfolding commit
  Keeps-commit = record {
    at = λ s h. elim (Bool-cases (constraints_hold s.working)) [
      | inl e ↦ rw e record { committed = h.working; working = h.working }
      | inr e ↦ rw e record { committed = h.committed; working = h.committed }
    ];
  }

module _ {ℓ} {P : Db → Type ℓ} {A B : Type 0} where
  continued :
      (r : Result A) (s : Session) (f : A → Exec B)
      → Both P s
      → ((a : A) → r ≡ ok a → Keeps P (f a))
      → Both P (continue (r, s) f).1
  continued (ok a) s f h kf = (kf a refl).at s h
  continued (err e) s f h kf = h

  pub Keeps-bind :
      (m : Exec A) (f : A → Exec B) → Keeps P m → ((a : A) → Keeps P (f a)) → Keeps P (m >>= f)
  unfolding ◌>>=◌
  Keeps-bind m f km kf = record {
    at = λ s h. continued (m s).0 (m s).1 f (km.at s h) (λ a _. kf a);
  }

  -- The rest may use that `r` did not raise.
  pub Keeps-bind-lift :
      (r : Result A) (f : A → Exec B)
      → ((a : A) → r ≡ ok a → Keeps P (f a))
      → Keeps P (lift r >>= f)
  unfolding ◌>>=◌ lift
  Keeps-bind-lift r f kf = record { at = λ s h. continued r s f h kf }

  -- The rest may use what `P` says of the rows that were read.
  pub Keeps-bind-reads :
      (g : Db → A) (f : A → Exec B)
      → ((db : Db) → P db → Keeps P (f (g db)))
      → Keeps P (reads g >>= f)
  unfolding ◌>>=◌ reads
  Keeps-bind-reads g f kf = record { at = λ s h. (kf s.working h.working).at s h }

-- What a request that keeps `P` leaves in the database.
pub Keeps-after {ℓ} :
    {P : Db → Type ℓ} {A : Type 0} (m : Exec A) (db : Db) → Keeps P m → P db → P (after m db)
unfolding after
Keeps-after m db k h =
    (k.at (record { committed = db; working = db })
      (record { committed = h; working = h })).committed

pub ruleset keeps_rules =
    (Keeps-pure, Keeps-lift, Keeps-reads, Keeps-writes, Keeps-commit, Keeps-bind)

-- A result raised before anything was written leaves the committed rows alone.
pub after-lift {ℓ} :
    {A B : Type 0} (C : Db → Type ℓ) (r : Result A) (f : A → Exec B) (s : Session)
    → C s.committed
    → ((a : A) → r ≡ ok a → C (f a s).1.committed)
    → C ((lift r >>= f) s).1.committed
unfolding ◌>>=◌ lift
after-lift C (ok a) f s h k = k a refl
after-lift C (err e) f s h k = h

-- What follows an action that only raises is not run.
pub Keeps-never {ℓ} :
    {P : Db → Type ℓ} {A B : Type 0} (m : Exec A) (f : A → Exec B)
    → Keeps P m
    → ((s : Session) (a : A) → (m s).0 ≢ ok a)
    → Keeps P (m >>= f)
unfolding ◌>>=◌
Keeps-never {P} m f k raises = record { at = λ s h. stops (m s).0 (m s).1 (k.at s h) (raises s) }
  where
    stops :
        (r : Result _) (s : Session)
        → Both P s
        → ((a : _) → r ≢ ok a)
        → Both P (continue (r, s) f).1
    stops (ok a) s h never = absurd (never a refl)
    stops (err e) s h never = h

pub after-reads {ℓ} :
    {A B : Type 0} (C : Db → Type ℓ) (g : Db → A) (f : A → Exec B) (s : Session)
    → C (f (g s.working) s).1.committed
    → C ((reads g >>= f) s).1.committed
unfolding ◌>>=◌ reads
after-reads C g f s h = h

-- A commit leaves the session's rows, or the rows that were committed before.
pub after-commit {ℓ} :
    {A : Type 0} (C : Db → Type ℓ) (a : A) (s : Session)
    → C s.committed
    → C s.working
    → C ((commit >> pure a) s).1.committed
unfolding ◌>>=◌ commit pure
after-commit C a s h k = elim (Bool-cases (constraints_hold s.working)) [
  | inl e ↦ rw e k
  | inr e ↦ rw e h
]
