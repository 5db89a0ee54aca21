-- ===== src/Domain/Scheduling/Progress.antt =====
-- Which transfers the plan of domain/scheduling.py takes, and with which bandwidth.
use stashd.Prelude.{
  ℕ, max, ◌≤◌, ◌≡◌, refl, inl, inr, Text, same, same_refl, ◌||◌, leb, leb→le, Bool, true, false,
  Bool-cases, List, [], ◌∷◌, any, none, some, arith,
}
use stashd.Domain.Routes.{route_text}
use stashd.Domain.Transfers.{moves_data}
use stashd.Domain.Scheduling.{
  QueuedTransfer, storages, ConcurrencyLimits, BandwidthLimits, Load, Dispatch, bandwidth_share,
  mem, skipped, dispatch_of, taken, walk,
}
use stashd.Domain.Scheduling.Limits.{
  per_storage-taken, per_user-taken, per_route-taken, total-taken,
}

-- Every counter of `a` is at most that of `b`.
record Grows (a b : Load) : Type 0 where
  total : a.total ≤ b.total
  per_storage : (s : Text) → a.per_storage s ≤ b.per_storage s
  per_user : (u : Text) → a.per_user u ≤ b.per_user u
  per_route : (r : Text) → a.per_route r ≤ b.per_route r

Grows-refl : (a : Load) → Grows a a
Grows-refl a = record {
  total = omega arith;
  per_storage = λ s. omega arith;
  per_user = λ u. omega arith;
  per_route = λ r. omega arith;
}

Grows-taken : (t : QueuedTransfer) (a b : Load) → Grows (taken t a) b → Grows a b
Grows-taken t a b g = record {
  total = omega (arith, total-taken t a, g.total);
  per_storage = λ s. omega (arith, per_storage-taken t a s, g.per_storage s);
  per_user = λ u. omega (arith, per_user-taken t a u, g.per_user u);
  per_route = λ r. omega (arith, per_route-taken t a r, g.per_route r);
}

or_true : (b : Bool) → (b || true) ≡ true
or_true true = refl
or_true false = refl

any-mem :
    (p : Text → Bool) (xs : List Text)
    → any p xs ≡ true
    → (s : Text) × (mem s xs ≡ true) × (p s ≡ true)
any-mem p [] h = absurd (ground arith)
any-mem p (x ∷ xs) h = elim (Bool-cases (p x)) [
  | inl e ↦ (x, rw (same_refl x), e)
  | inr e ↦ let (s, m, q) = any-mem p xs (rw e at h) in (s, rw m (or_true (same x s)), q)
]

-- Why a transfer is left in the queue, over the counters of a load.
pub data Blocked (t : QueuedTransfer) (load : Load) (limits : ConcurrencyLimits)
    (drained : List Text) : Type 0 where
  on_drained : any (λ s. mem s drained) (storages t) ≡ true → Blocked t load limits drained
  global_full : limits.global ≤ load.total → Blocked t load limits drained
  storage_full :
      (s : Text)
      → mem s (storages t) ≡ true
      → limits.per_storage ≤ load.per_storage s
      → Blocked t load limits drained
  user_full : limits.per_user ≤ load.per_user t.user → Blocked t load limits drained
  route_full :
      moves_data t.kind ≡ true
      → limits.per_route ≤ load.per_route (route_text t.route)
      → Blocked t load limits drained

-- What an entry of the plan says of its transfer: its id, that neither end is drained, and a
-- bandwidth within the configured bounds for one that moves data, none for a release.
pub record Entry (t : QueuedTransfer) (d : Dispatch) (limits : BandwidthLimits)
    (drained : List Text) : Type 0 where
  pub id : d.transfer_id ≡ t.id
  pub open_ends : any (λ s. mem s drained) (storages t) ≡ false
  pub no_limit : moves_data t.kind ≡ false → d.bwlimit_bytes_per_s ≡ none
  pub limited :
      moves_data t.kind ≡ true
      → (b : ℕ) × (d.bwlimit_bytes_per_s ≡ some b)
        × (limits.min_per_transfer ≤ b)
        × (b ≤ max limits.max_per_transfer limits.min_per_transfer)

-- The plan is the queue, in its order, less transfers that are blocked at the final load.
pub data Planned (end : Load) (limits : ConcurrencyLimits) (bandwidth : BandwidthLimits)
    (drained : List Text) : List QueuedTransfer → List (QueuedTransfer × Dispatch) → Type 0 where
  done : Planned end limits bandwidth drained [] []
  take :
      {t : QueuedTransfer} {d : Dispatch} {queue : List QueuedTransfer}
      {plan : List (QueuedTransfer × Dispatch)}
      → Entry t d bandwidth drained
      → Planned end limits bandwidth drained queue plan
      → Planned end limits bandwidth drained (t ∷ queue) ((t, d) ∷ plan)
  leave :
      {t : QueuedTransfer} {queue : List QueuedTransfer} {plan : List (QueuedTransfer × Dispatch)}
      → Blocked t end limits drained
      → Planned end limits bandwidth drained queue plan
      → Planned end limits bandwidth drained (t ∷ queue) plan

bandwidth_share_bounds :
    (n : ℕ) (limits : BandwidthLimits)
    → (limits.min_per_transfer ≤ bandwidth_share n limits)
      × (bandwidth_share n limits ≤ max limits.max_per_transfer limits.min_per_transfer)
unfolding bandwidth_share
bandwidth_share_bounds n limits = omega arith

module _ (t : QueuedTransfer) (load : Load) (limits : ConcurrencyLimits) (drained : List Text) where
  Entry-dispatch_of :
      (bandwidth : BandwidthLimits)
      → skipped t load limits drained ≡ false
      → Entry t (dispatch_of t load bandwidth) bandwidth drained
  unfolding dispatch_of skipped
  Entry-dispatch_of bandwidth h = record {
    id = refl;
    open_ends = ground arith;
    no_limit = λ m. ground arith;
    limited = λ m. (
      bandwidth_share (load.per_route (route_text t.route)) bandwidth,
      ground arith,
      (bandwidth_share_bounds _ bandwidth).0,
      (bandwidth_share_bounds _ bandwidth).1,
    );
  }

  Blocked-of :
      (end : Load)
      → Grows load end
      → skipped t load limits drained ≡ true
      → Blocked t end limits drained
  unfolding skipped
  Blocked-of end g h = elim (Bool-cases (any (λ s. mem s drained) (storages t))) [
    | inl d ↦ on_drained d
    | inr d ↦ elim (Bool-cases (leb limits.global load.total)) [
      | inl n ↦ global_full (omega (arith, leb→le limits.global load.total n, g.total))
      | inr n ↦
          elim (Bool-cases (any (λ s. leb limits.per_storage (load.per_storage s)) (storages t))) [
            | inl full ↦
                let (s, m, k) =
                  any-mem (λ s. leb limits.per_storage (load.per_storage s)) (storages t) full in
                storage_full s m
                  (omega (arith, leb→le limits.per_storage (load.per_storage s) k, g.per_storage s))
            | inr room ↦ elim (Bool-cases (leb limits.per_user (load.per_user t.user))) [
              | inl k ↦ user_full (
                  omega (arith, leb→le limits.per_user (load.per_user t.user) k, g.per_user t.user))
              | inr k ↦ route_full (ground arith) (ground (arith, g.per_route (route_text t.route)))
            ]
          ]
    ]
  ]

module _ (limits : ConcurrencyLimits) (bandwidth : BandwidthLimits) (drained : List Text) where
  Grows-walk :
      (queue : List QueuedTransfer) (load : Load)
      → Grows load (walk queue load limits bandwidth drained).1
  unfolding walk
  Grows-walk [] load = Grows-refl load
  Grows-walk (t ∷ queue) load = elim (Bool-cases (skipped t load limits drained)) [
    | inl busy ↦ rw busy (Grows-walk queue load)
    | inr free ↦ rw free (Grows-taken t load _ (Grows-walk queue (taken t load)))
  ]

  -- The plan takes transfers in queue order, each with both ends open and a bandwidth in bounds; a
  -- transfer that it leaves out is on a drained storage or has a full scope at the final load, so
  -- none that would still fit is left behind.
  pub walk-Planned :
      (queue : List QueuedTransfer) (load : Load)
      → let (plan, end) = walk queue load limits bandwidth drained in
        Planned end limits bandwidth drained queue plan
  unfolding walk
  walk-Planned [] load = done
  walk-Planned (t ∷ queue) load = elim (Bool-cases (skipped t load limits drained)) [
    | inl busy ↦ rw busy (
        leave (Blocked-of t load limits drained _ (Grows-walk queue load) busy)
          (walk-Planned queue load))
    | inr free ↦ rw free (
        take (Entry-dispatch_of t load limits drained bandwidth free)
          (walk-Planned queue (taken t load)))
  ]
