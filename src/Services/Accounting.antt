-- ===== src/Services/Accounting.antt =====
-- services/audit.py and services/fairshare.py: what every request writes beside its own rows.
use stashd.Prelude.{
  ℕ, Text, same, String, List, [], ◌∷◌, ◌++◌, map, any, select, find_first, Option, none, some,
  if◌then◌else◌,
}
use stashd.Domain.Errors.{ErrorCode, Detail}
use stashd.Domain.Floats.{Float, FloatOps}
use stashd.Domain.Fairshare.{FairShareAccount, decayed, with_points}
use stashd.Domain.Identity.{Principal}
use stashd.Models.{Db}
use stashd.Session.{Exec, writes}

-- `audit.record`: the caller commits the event with its own change.
unfoldable pub record_event :
    ℕ
    → Principal
    → Text
    → String
    → Text
    → String
    → Option ErrorCode
    → List (String × Detail)
    → Exec (Unit {0})
record_event now actor subject_user object_type object_id action result detail = writes λ db.
    record db {
      audit =
          db.audit
          ++ (record {
            ts = now;
            actor_uid = actor.uid;
            subject_user = subject_user;
            object_type = object_type;
            object_id = object_id;
            action = action;
            result = result;
            detail = detail;
          }
              ∷ []);
    }

abbrev account_for : FloatOps → ℕ → Text → List FairShareAccount → FairShareAccount
account_for f now user rows = elim (find_first (λ a. same a.user user) rows) [
  | none ↦ record { user = user; points = f.zero; decayed_at = now }
  | some a ↦ a
]

-- The account's row replaced, or added where the user has none.
unfoldable pub put_account : FairShareAccount → List FairShareAccount → List FairShareAccount
unfolding same
put_account a [] = a ∷ []
put_account a (r ∷ rows) = if same r.user a.user then a ∷ rows else r ∷ put_account a rows

-- `fairshare.charge`.
unfoldable pub charge : FloatOps → ℕ → Text → Float → ℕ → Exec (Unit {0})
unfolding same put_account
charge f now user points half_life = writes λ db. record db {
  accounts =
      put_account (with_points f (account_for f now user db.accounts) points now half_life)
        db.accounts;
}

-- `fairshare.accounts_for`: what each user owes now, with the decay applied on reading.
unfoldable pub accounts_for : FloatOps → ℕ → List Text → ℕ → Db → List FairShareAccount
unfolding same
accounts_for f now users half_life db =
    map (λ a. decayed f a now half_life) (select (λ a. any (λ u. same u a.user) users) db.accounts)
