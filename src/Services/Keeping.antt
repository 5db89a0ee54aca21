-- ===== src/Services/Keeping.antt =====
-- The writes of the services that leave the filesets as they are.
use stashd.Prelude.{ℕ, Text, String, List, Option, ◌≡◌, refl}
use stashd.Domain.Errors.{ErrorCode, StashError, Result, ok, err, Detail}
use stashd.Domain.Floats.{Float, FloatOps}
use stashd.Domain.Identity.{Principal}
use stashd.Models.{Fileset, Transfer}
use stashd.Session.{Session, Exec, ◌>>=◌, pure, writes, commit}
use stashd.Session.Keeps.{
  Both, Keeps, Keeps-writes, Keeps-bind, Keeps-commit, Keeps-lift, Keeps-never,
}
use stashd.Session.Leads.{Leads, Leads-bind, Leads-any, Leads-err}
use stashd.Services.Admitting.{audited_refusal}
use stashd.Session.Rows.{put_transfer, add_transfer}
use stashd.Services.Accounting.{record_event, charge}

refusal-raises :
    {A : Type 0} (note : StashError → Exec (Unit {0})) (e : StashError)
    → Leads (λ _. Unit {0}) (audited_refusal {A = A} note (err e)) (λ _ _. ⊥)
refusal-raises note e =
    Leads-bind _ _ _ (Leads-any (note e))
      λ _. Leads-bind _ _ _ (Leads-any commit) λ _. Leads-err e _

module _ {ℓ} (Q : List Fileset → Type ℓ) where
  pub Keeps-record_event :
      (now : ℕ) (actor : Principal) (user : Text) (type : String) (id : Text) (action : String)
      (result : Option ErrorCode) (detail : List (String × Detail))
      → Keeps (λ db. Q db.filesets) (record_event now actor user type id action result detail)
  unfolding record_event
  Keeps-record_event now actor user type id action result detail = Keeps-writes _ (λ db h. h)

  pub Keeps-charge :
      (f : FloatOps) (now : ℕ) (user : Text) (points : Float) (half_life : ℕ)
      → Keeps (λ db. Q db.filesets) (charge f now user points half_life)
  unfolding charge
  Keeps-charge f now user points half_life = Keeps-writes _ (λ db h. h)

  pub Keeps-put_transfer : (t : Transfer) → Keeps (λ db. Q db.filesets) (writes (put_transfer t))
  Keeps-put_transfer t = Keeps-writes (put_transfer t) (λ db h. h)

  pub Keeps-add_transfer : (t : Transfer) → Keeps (λ db. Q db.filesets) (writes (add_transfer t))
  Keeps-add_transfer t = Keeps-writes (add_transfer t) (λ db h. h)

  -- A refusal that is audited leaves the filesets alone.
  pub audited-after :
      {A B : Type 0} (note : StashError → Exec (Unit {0})) (r : Result A) (f : A → Exec B)
      (s : Session)
      → Both (λ db. Q db.filesets) s
      → ((e : StashError) → Keeps (λ db. Q db.filesets) (note e))
      → ((a : A) → r ≡ ok a → Q (f a s).1.committed.filesets)
      → Q ((audited_refusal note r >>= f) s).1.committed.filesets
  unfolding ◌>>=◌ pure
  audited-after note (ok a) f s h kn k = k a refl
  audited-after note (err e) f s h kn k =
      ((Keeps-never (audited_refusal note (err e)) f
          (Keeps-bind _ _ (kn e) λ _. Keeps-bind _ _ Keeps-commit λ _. Keeps-lift _)
          λ s' a. (refusal-raises note e).at s' tt a).at
        s h).committed
