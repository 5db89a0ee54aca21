-- ===== src/Domain/Priority/Order.antt =====
-- The order of the queue (domain/priority.py).
use mathlib.Core.List.{Perm}
use mathlib.Core.List.Perm
use stashd.Prelude.{
  ℕ, ◌≤◌, ◌<◌, ◌⊎◌, ◌≡◌, inl, inr, Bool, true, false, Bool-cases, List, [], ◌∷◌, arith,
}
use stashd.Domain.Floats.{Float, FloatOps}
use stashd.Domain.Fairshare.{FairShareAccount, decayed}
use stashd.Domain.Scheduling.{QueuedTransfer}
use stashd.Domain.Priority.{
  Key, key_lt, key_of, account_of, insert, sorted, transfer_lt, order_queue,
}

module _ {A : Type 0} (lt : A → A → Bool) where
  insert-perm : (x : A) (xs : List A) → Perm (insert lt x xs) (x ∷ xs)
  unfolding insert
  insert-perm x [] = Perm.refl (x ∷ [])
  insert-perm x (y ∷ ys) = elim (Bool-cases (lt y x)) [
    | inl e ↦ rw e (Perm.trans (Perm.cons y (insert-perm x ys)) (Perm.swap x y ys))
    | inr e ↦ rw e (Perm.refl (x ∷ y ∷ ys))
  ]

  sorted-perm : (xs : List A) → Perm (sorted lt xs) xs
  unfolding sorted
  sorted-perm [] = Perm.refl []
  sorted-perm (x ∷ xs) = Perm.trans (insert-perm x (sorted lt xs)) (Perm.cons x (sorted-perm xs))

  -- No element comes directly before one that is smaller.
  abbrev IsSorted : List A → Type 0
  IsSorted [] = Unit
  IsSorted (x ∷ []) = Unit
  IsSorted (x ∷ y ∷ ys) = (lt y x ≡ false) × IsSorted (y ∷ ys)

  module _ (asym : (a b : A) → lt a b ≡ true → lt b a ≡ false) where
    insert-IsSorted : (x : A) (xs : List A) → IsSorted xs → IsSorted (insert lt x xs)
    unfolding insert
    insert-IsSorted x [] h = tt
    insert-IsSorted x (y ∷ []) h = ground (arith, asym y x)
    insert-IsSorted x (y ∷ z ∷ zs) h = ground (arith, asym y x, insert-IsSorted x (z ∷ zs))

    sorted-IsSorted : (xs : List A) → IsSorted (sorted lt xs)
    unfolding sorted
    sorted-IsSorted [] = tt
    sorted-IsSorted (x ∷ xs) = insert-IsSorted x (sorted lt xs) (sorted-IsSorted xs)

-- Laws that IEEE comparisons have on every value, NaN included.
pub record Comparisons (f : FloatOps) : Type 0 where
  pub eq_symm : (a b : Float) → f.eq a b ≡ f.eq b a
  pub lt_asymm : (a b : Float) → f.lt a b ≡ true → f.lt b a ≡ false

key_lt_asymm :
    (f : FloatOps) → Comparisons f → (a b : Key) → key_lt f a b ≡ true → key_lt f b a ≡ false
unfolding key_lt
key_lt_asymm f c a b h = ground (arith, c.eq_symm a.points b.points, c.lt_asymm a.points b.points)

transfer_lt_asymm :
    (f : FloatOps) (half_life : ℕ) (accounts : List FairShareAccount) (now : ℕ)
    → Comparisons f
    → (a b : QueuedTransfer) → transfer_lt f half_life accounts now a b ≡ true
    → transfer_lt f half_life accounts now b a ≡ false
unfolding transfer_lt
transfer_lt_asymm f half_life accounts now c a b =
    key_lt_asymm f c (key_of f half_life a (account_of f accounts now a.user) now)
      (key_of f half_life b (account_of f accounts now b.user) now)

module _ (f : FloatOps) (half_life : ℕ) (accounts : List FairShareAccount) (now : ℕ) where
  -- The points that the user of a transfer owes now.
  abbrev pub owed : QueuedTransfer → Float
  owed t = (decayed f (account_of f accounts now t.user) now half_life).points

  -- `a` may stand directly before `b`: what its user owes is other and not more, or it is the same
  -- and `a` was submitted earlier, or then too and `a` has the smaller id.
  abbrev pub May : QueuedTransfer → QueuedTransfer → Type 0
  May a b =
      ((f.eq (owed a) (owed b) ≡ false) × (f.lt (owed b) (owed a) ≡ false))
      ⊎ ((f.eq (owed a) (owed b) ≡ true)
          × ((a.submitted_at < b.submitted_at)
              ⊎ ((a.submitted_at ≡ b.submitted_at) × (a.id ≤ b.id))))

  abbrev pub InOrder : List QueuedTransfer → Type 0
  InOrder [] = Unit
  InOrder (a ∷ []) = Unit
  InOrder (a ∷ b ∷ ts) = May a b × InOrder (b ∷ ts)

  transfer_lt-May :
      (a b : QueuedTransfer)
      → Comparisons f
      → transfer_lt f half_life accounts now b a ≡ false
      → May a b
  unfolding transfer_lt key_lt key_of
  transfer_lt-May a b c h = ground (arith, c.eq_symm (owed a) (owed b))

  IsSorted-InOrder :
      (ts : List QueuedTransfer)
      → Comparisons f
      → IsSorted (transfer_lt f half_life accounts now) ts
      → InOrder ts
  IsSorted-InOrder [] c h = tt
  IsSorted-InOrder (a ∷ []) c h = tt
  IsSorted-InOrder (a ∷ b ∷ ts) c h = (transfer_lt-May a b c h.0, IsSorted-InOrder (b ∷ ts) c h.1)

  -- The queue holds the transfers it was given, none lost and none repeated, in an order in which
  -- each directly follows one whose user owes other points and not more, or owes the same and was
  -- submitted earlier, or then too and has no larger id. The comparisons of points have the laws of
  -- IEEE comparisons.
  pub order_queue-InOrder :
      (transfers : List QueuedTransfer)
      → Comparisons f
      → Perm (order_queue f half_life transfers accounts now) transfers
        × InOrder (order_queue f half_life transfers accounts now)
  unfolding order_queue
  order_queue-InOrder transfers c = (
    sorted-perm (transfer_lt f half_life accounts now) transfers,
    IsSorted-InOrder _ c (
        sorted-IsSorted (transfer_lt f half_life accounts now)
          (transfer_lt_asymm f half_life accounts now c) transfers),
  )
