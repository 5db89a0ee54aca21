-- ===== src/Domain/Priority.antt =====
-- domain/priority.py: queue ordering. `sorted` is stable, and is an insertion sort here.
pub mod Order
use stashd.Prelude.{
  ℕ, Text, same, Bool, List, [], ◌∷◌, find_first, ltb, ◌==◌, Option, none, some, if◌then◌else◌,
}
use stashd.Domain.Floats.{Float, FloatOps}
use stashd.Domain.Fairshare.{FairShareAccount, decayed}
use stashd.Domain.Scheduling.{QueuedTransfer}

-- The key `(points, submitted_at, id)`.
pub record Key : Type 0 where
  pub points : Float
  pub submitted_at : ℕ
  pub id : ℕ

-- `a < b` on tuples: the first place where they differ decides.
unfoldable pub key_lt : FloatOps → Key → Key → Bool
key_lt f a b =
    if f.eq a.points b.points
    then (if a.submitted_at == b.submitted_at
        then ltb a.id b.id
        else ltb a.submitted_at b.submitted_at)
    else f.lt a.points b.points

-- `DecayingFairShare.key`.
unfoldable pub key_of : FloatOps → ℕ → QueuedTransfer → FairShareAccount → ℕ → Key
key_of f half_life transfer account now = record {
  points = (decayed f account now half_life).points;
  submitted_at = transfer.submitted_at;
  id = transfer.id;
}

-- `accounts.get(user) or FairShareAccount(user, 0.0, now)`.
unfoldable pub account_of : FloatOps → List FairShareAccount → ℕ → Text → FairShareAccount
unfolding same
account_of f accounts now user = elim (find_first (λ a. same a.user user) accounts) [
  | none ↦ record { user = user; points = f.zero; decayed_at = now }
  | some a ↦ a
]

module _ {ℓ} {A : Type ℓ} (lt : A → A → Bool) where
  -- An earlier element goes before the first that is not smaller.
  unfoldable pub insert : A → List A → List A
  insert x [] = x ∷ []
  insert x (y ∷ ys) = if lt y x then y ∷ insert x ys else x ∷ y ∷ ys

  unfoldable pub sorted : List A → List A
  unfolding insert
  sorted [] = []
  sorted (x ∷ xs) = insert x (sorted xs)

unfoldable pub transfer_lt :
    FloatOps → ℕ → List FairShareAccount → ℕ → QueuedTransfer → QueuedTransfer → Bool
unfolding key_lt key_of account_of
transfer_lt f half_life accounts now a b =
    key_lt f (key_of f half_life a (account_of f accounts now a.user) now)
      (key_of f half_life b (account_of f accounts now b.user) now)

unfoldable pub order_queue :
    FloatOps → ℕ → List QueuedTransfer → List FairShareAccount → ℕ → List QueuedTransfer
unfolding sorted transfer_lt
order_queue f half_life transfers accounts now =
    sorted (transfer_lt f half_life accounts now) transfers
