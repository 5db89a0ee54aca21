-- ===== src/Domain/Scheduling/Limits.antt =====
-- What the plan of domain/scheduling.py keeps within, and what it leaves behind.
use stashd.Prelude.{
  ℕ, ◌+◌, max, ◌≤◌, ◌<◌, ◌≡◌, refl, inl, inr, Text, same, same_iff, Bool, true, false, Bool-cases,
  ◌&&◌, List, [], ◌∷◌, length, sum_of, if◌then◌else◌, arith,
}
use stashd.Domain.Routes.{route_text}
use stashd.Domain.Transfers.{moves_data}
use stashd.Domain.Scheduling.{
  QueuedTransfer, storages, ConcurrencyLimits, BandwidthLimits, bump, bump_all, Load, Dispatch, mem,
  skipped, taken, walk,
}

abbrev one_if : Bool → ℕ
one_if b = if b then 1 else 0

-- How many slots a transfer takes: on a storage, of a user, on a route.
abbrev pub on_storage : Text → QueuedTransfer → ℕ
on_storage s t = one_if (mem s (storages t))

abbrev pub of_user : Text → QueuedTransfer → ℕ
of_user u t = one_if (same t.user u)

abbrev pub on_route : Text → QueuedTransfer → ℕ
on_route r t = one_if (moves_data t.kind && same (route_text t.route) r)

pub per_storage-taken :
    (t : QueuedTransfer) (load : Load) (s : Text)
    → (taken t load).per_storage s ≡ load.per_storage s + on_storage s t
unfolding taken bump_all storages
per_storage-taken t load s = ground (
  arith,
  same_iff t.route.source s,
  same_iff t.route.target s,
  same_iff t.route.source t.route.target,
)

pub per_user-taken :
    (t : QueuedTransfer) (load : Load) (u : Text)
    → (taken t load).per_user u ≡ load.per_user u + of_user u t
unfolding taken bump
per_user-taken t load u = ground arith

pub per_route-taken :
    (t : QueuedTransfer) (load : Load) (r : Text)
    → (taken t load).per_route r ≡ load.per_route r + on_route r t
unfolding taken bump
per_route-taken t load r = ground arith

pub total-taken : (t : QueuedTransfer) (load : Load) → (taken t load).total ≡ load.total + 1
unfolding taken
total-taken t load = refl

-- What an unskipped transfer has room for.
pub record HasRoom (t : QueuedTransfer) (load : Load) (limits : ConcurrencyLimits) : Type 0 where
  pub total : load.total < limits.global
  pub storage : (s : Text) → mem s (storages t) ≡ true → load.per_storage s < limits.per_storage
  pub user : load.per_user t.user < limits.per_user
  pub route : moves_data t.kind ≡ true → load.per_route (route_text t.route) < limits.per_route

HasRoom-of :
    (t : QueuedTransfer) (load : Load) (limits : ConcurrencyLimits) (drained : List Text)
    → skipped t load limits drained ≡ false
    → HasRoom t load limits
unfolding skipped storages
HasRoom-of t load limits drained h = record {
  total = ground arith;
  storage = λ s m. ground (arith, same_iff t.route.source s, same_iff t.route.target s);
  user = ground arith;
  route = λ m. ground arith;
}

module _ (t : QueuedTransfer) (load : Load) (limits : ConcurrencyLimits)
    (free : HasRoom t load limits) where
  storage_room :
      (s : Text) → load.per_storage s + on_storage s t ≤ max (load.per_storage s) limits.per_storage
  storage_room s = elim (Bool-cases (mem s (storages t))) [
    | inl m ↦ rw m (omega (arith, free.storage s m))
    | inr m ↦ rw m (omega arith)
  ]

  user_room : (u : Text) → load.per_user u + of_user u t ≤ max (load.per_user u) limits.per_user
  user_room u = ground (arith, same_iff t.user u, free.user)

  route_room :
      (r : Text) → load.per_route r + on_route r t ≤ max (load.per_route r) limits.per_route
  route_room r = ground (arith, same_iff (route_text t.route) r, free.route)

module _ (limits : ConcurrencyLimits) (bandwidth : BandwidthLimits) (drained : List Text) where
  abbrev planned : List QueuedTransfer → Load → List (QueuedTransfer × Dispatch)
  planned queue load = (walk queue load limits bandwidth drained).0

  abbrev end_load : List QueuedTransfer → Load → Load
  end_load queue load = (walk queue load limits bandwidth drained).1

  -- One counter of the load: how it is read, how many slots a transfer takes of it, and its cap.
  module _ (get : Load → ℕ) (slots : QueuedTransfer → ℕ) (cap : ℕ)
      (adds : (t : QueuedTransfer) (load : Load) → get (taken t load) ≡ get load + slots t)
      (room : (t : QueuedTransfer) (load : Load)
        → skipped t load limits drained ≡ false
        → get load + slots t ≤ max (get load) cap) where
    scope_counts :
        (queue : List QueuedTransfer) (load : Load)
        → get (end_load queue load) ≡ get load + sum_of (λ p. slots p.0) (planned queue load)
    unfolding walk
    scope_counts [] load = omega arith
    scope_counts (t ∷ queue) load = elim (Bool-cases (skipped t load limits drained)) [
      | inl busy ↦ rw busy (scope_counts queue load)
      | inr free ↦ rw free (omega (arith, scope_counts queue (taken t load), adds t load))
    ]

    scope_cap :
        (queue : List QueuedTransfer) (load : Load) → get (end_load queue load) ≤ max (get load) cap
    unfolding walk
    scope_cap [] load = omega arith
    scope_cap (t ∷ queue) load = elim (Bool-cases (skipped t load limits drained)) [
      | inl busy ↦ rw busy (scope_cap queue load)
      | inr free ↦
          rw free (omega (arith, scope_cap queue (taken t load), adds t load, room t load free))
    ]

    scope_within :
        (queue : List QueuedTransfer) (load : Load)
        → get load + sum_of (λ p. slots p.0) (planned queue load) ≤ max (get load) cap
    scope_within queue load = omega (arith, scope_counts queue load, scope_cap queue load)

  -- In every scope what runs already and what the plan adds stay within the limit, or the plan adds
  -- nothing there.
  pub record Within (load : Load) (plan : List (QueuedTransfer × Dispatch)) : Type 0 where
    pub total : load.total + length plan ≤ max load.total limits.global
    pub per_storage :
        (s : Text)
        → load.per_storage s + sum_of (λ p. on_storage s p.0) plan
          ≤ max (load.per_storage s) limits.per_storage
    pub per_user :
        (u : Text)
        → load.per_user u + sum_of (λ p. of_user u p.0) plan ≤ max (load.per_user u) limits.per_user
    pub per_route :
        (r : Text)
        → load.per_route r + sum_of (λ p. on_route r p.0) plan
          ≤ max (load.per_route r) limits.per_route

  length-sum_of : (plan : List (QueuedTransfer × Dispatch)) → sum_of (λ p. 1) plan ≡ length plan
  length-sum_of [] = refl
  length-sum_of (p ∷ plan) = omega (arith, length-sum_of plan)

  -- The plan keeps every concurrency limit: globally, on each storage, for each user and on each
  -- route, what was running and what it starts stay within the limit, or it starts nothing there.
  pub walk-Within : (queue : List QueuedTransfer) (load : Load) → Within load (planned queue load)
  walk-Within queue load = record {
    total = omega (
      arith,
      scope_within (λ l. l.total) (λ t. 1) limits.global total-taken
          (λ t l h. omega (arith, (HasRoom-of t l limits drained h).total)) queue load,
      length-sum_of (planned queue load),
    );
    per_storage = λ s.
        scope_within (λ l. l.per_storage s) (on_storage s) limits.per_storage
          (λ t l. per_storage-taken t l s)
          (λ t l h. storage_room t l limits (HasRoom-of t l limits drained h) s) queue load;
    per_user = λ u.
        scope_within (λ l. l.per_user u) (of_user u) limits.per_user (λ t l. per_user-taken t l u)
          (λ t l h. user_room t l limits (HasRoom-of t l limits drained h) u) queue load;
    per_route = λ r.
        scope_within (λ l. l.per_route r) (on_route r) limits.per_route
          (λ t l. per_route-taken t l r)
          (λ t l h. route_room t l limits (HasRoom-of t l limits drained h) r) queue load;
  }
