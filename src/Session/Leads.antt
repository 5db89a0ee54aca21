-- ===== src/Session/Leads.antt =====
-- What holds of the session where an action returned a value.
use stashd.Prelude.{◌≡◌, refl, subst, true, List, [], ◌∷◌, All, ◌==◌, inl, inr, Bool-cases, arith}
use stashd.Domain.Errors.{Result, ok, err, StashError}
use stashd.Models.{Fileset, Db}
use stashd.Session.{Session, Exec, continue, ◌>>=◌, pure, lift, reads, writes, commit}
use stashd.Session.Rows.{constraints_hold, put_row_fileset}

-- From a session with `P`, a returned `a` comes with `Q a`.
pub record Leads {ℓ} {A : Type 0} (P : Session → Type ℓ) (m : Exec A) (Q : A → Session → Type ℓ)
    : Type ℓ where
  pub at : (s : Session) → P s → (a : A) → (m s).0 ≡ ok a → Q a (m s).1

module _ {ℓ} {A : Type 0} (P : Session → Type ℓ) where
  pub Leads-lift : (r : Result A) → Leads P (lift r) (λ a s. (r ≡ ok a) × P s)
  unfolding lift
  Leads-lift r = record { at = λ s h a q. (q, h) }

  pub Leads-reads : (g : Db → A) → Leads P (reads g) (λ a s. (a ≡ g s.working) × P s)
  unfolding reads
  Leads-reads g = record { at = λ s h a q. (ground arith, h) }

module _ {ℓ} {A : Type 0} {P : Session → Type ℓ} where
  pub Leads-pure :
      (a : A) (Q : A → Session → Type ℓ) → ((s : Session) → P s → Q a s) → Leads P (pure a) Q
  unfolding pure
  Leads-pure a Q k = record { at = λ s h b q. subst (λ x. Q x s) (ground arith) (k s h) }

  pub Leads-err : (e : StashError) (Q : A → Session → Type ℓ) → Leads P (lift (err e)) Q
  unfolding lift
  Leads-err e Q = record { at = λ s h b q. absurd (ground arith) }

module _ {ℓ} {P : Session → Type ℓ} where
  pub Leads-writes :
      (g : Db → Db) (Q : Session → Type ℓ)
      → ((s : Session) → P s → Q (record s { working = g s.working }))
      → Leads P (writes g) (λ _ s. Q s)
  unfolding writes
  Leads-writes g Q k = record { at = λ s h a q. k s h }

-- What was seen is what was committed.
pub Leads-commit {ℓ} :
    (P : Db → Type ℓ) → Leads (λ s. P s.working) commit (λ _ s. P s.committed × P s.working)
unfolding commit
Leads-commit P = record {
  at = λ s h a q. elim (Bool-cases (constraints_hold s.working)) [
    | inl e ↦ rw e (h, h)
    | inr e ↦ absurd (ground arith)
  ];
}

module _ {ℓ} {A B : Type 0} (R : B → Session → Type ℓ) where
  continued :
      (r : Result A) (s : Session) (f : A → Exec B) (b : B)
      → (continue (r, s) f).0 ≡ ok b
      → ((a : A) → r ≡ ok a → (f a s).0 ≡ ok b → R b (f a s).1)
      → R b (continue (r, s) f).1
  continued (ok a) s f b q k = k a refl q
  continued (err e) s f b q k = absurd (ground arith)

module _ {ℓ} {A B : Type 0} {P : Session → Type ℓ} {R : B → Session → Type ℓ} where
  pub Leads-bind :
      (m : Exec A) (f : A → Exec B) (Q : A → Session → Type ℓ)
      → Leads P m Q
      → ((a : A) → Leads (Q a) (f a) R)
      → Leads P (m >>= f) R
  unfolding ◌>>=◌
  Leads-bind m f Q km kf = record {
    at = λ s h b q.
        continued R (m s).0 (m s).1 f b q (λ a e q'. (kf a).at (m s).1 (km.at s h a e) b q');
  }

pub Leads-any {ℓ} : {A : Type 0} {P : Session → Type ℓ} (m : Exec A) → Leads P m (λ _ _. Unit {ℓ})
Leads-any m = record { at = λ _ _ _ _. tt }

pub Leads-weaken {ℓ} :
    {A : Type 0} {P P' : Session → Type ℓ} {Q : A → Session → Type ℓ} (m : Exec A)
    → ((s : Session) → P s → P' s)
    → Leads P' m Q
    → Leads P m Q
Leads-weaken m k l = record { at = λ s h a q. l.at s (k s h) a q }

-- Every row of the id that was written is like the row written.
pub put-All {ℓ} :
    (C : Fileset → Type ℓ) (f : Fileset) (rows : List Fileset)
    → C f
    → All (λ r. (r.id == f.id) ≡ true → C r) (put_row_fileset f rows)
put-All C f [] c = tt
put-All C f (r ∷ rows) c = elim (Bool-cases (r.id == f.id)) [
  | inl q ↦ rw q (λ _. c, put-All C f rows c)
  | inr q ↦ rw q (λ q'. absurd (ground arith), put-All C f rows c)
]
