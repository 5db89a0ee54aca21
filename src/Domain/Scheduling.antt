-- ===== src/Domain/Scheduling.antt =====
-- domain/scheduling.py: the dispatch walk.
pub mod Limits
pub mod Progress
use stashd.Prelude.{
  ℕ, ◌+◌, ◌/◌, min, max, Text, same, Bool, not, ◌&&◌, ◌||◌, List, [], ◌∷◌, any, leb, Option, none,
  some, if◌then◌else◌, map,
}
use stashd.Domain.Routes.{Route, route_text}
use stashd.Domain.Transfers.{TransferKind, moves_data}

pub record QueuedTransfer : Type 0 where
  pub id : ℕ
  pub user : Text
  pub kind : TransferKind
  pub route : Route
  pub bytes_total : ℕ
  pub submitted_at : ℕ

-- `frozenset({source, target})`, as a list with no repetition.
unfoldable pub storages : QueuedTransfer → List Text
storages t =
    if same t.route.source t.route.target
    then t.route.source ∷ []
    else t.route.source ∷ t.route.target ∷ []

pub record ConcurrencyLimits : Type 0 where
  pub global : ℕ
  pub per_storage : ℕ
  pub per_user : ℕ
  pub per_route : ℕ

pub record BandwidthLimits : Type 0 where
  pub per_route_aggregate : ℕ
  pub max_per_transfer : ℕ
  pub min_per_transfer : ℕ

-- A `dict[str, int]` that is only read by `get(key, 0)` and raised by one.
abbrev pub Counts : Type 0
Counts = Text → ℕ

unfoldable pub bump : Counts → Text → Counts
bump c k j = if same k j then c j + 1 else c j

unfoldable pub bump_all : Counts → List Text → Counts
unfolding bump
bump_all c [] = c
bump_all c (k ∷ ks) = bump_all (bump c k) ks

-- How many transfers are running, by scope.
pub record Load : Type 0 where
  pub total : ℕ
  pub per_storage : Counts
  pub per_user : Counts
  pub per_route : Counts

pub record Dispatch : Type 0 where
  pub transfer_id : ℕ
  pub bwlimit_bytes_per_s : Option ℕ

unfoldable pub bandwidth_share : ℕ → BandwidthLimits → ℕ
bandwidth_share active_on_route limits =
    let share = limits.per_route_aggregate / (active_on_route + 1) in
    max (min share limits.max_per_transfer) limits.min_per_transfer

-- `transfer.storages & drained`.
abbrev pub mem : Text → List Text → Bool
mem s l = any (λ x. same x s) l

-- The five tests of the loop that `continue`.
unfoldable pub skipped : QueuedTransfer → Load → ConcurrencyLimits → List Text → Bool
skipped t load limits drained =
    any (λ s. mem s drained) (storages t)
    || leb limits.global load.total
    || any (λ s. leb limits.per_storage (load.per_storage s)) (storages t)
    || leb limits.per_user (load.per_user t.user)
    || moves_data t.kind && leb limits.per_route (load.per_route (route_text t.route))

unfoldable pub dispatch_of : QueuedTransfer → Load → BandwidthLimits → Dispatch
dispatch_of t load bandwidth = record {
  transfer_id = t.id;
  bwlimit_bytes_per_s =
      if moves_data t.kind
      then some (bandwidth_share (load.per_route (route_text t.route)) bandwidth)
      else none;
}

-- The counters after a transfer was put in the plan.
unfoldable pub taken : QueuedTransfer → Load → Load
taken t load = record {
  total = load.total + 1;
  per_user = bump load.per_user t.user;
  per_storage = bump_all load.per_storage (storages t);
  per_route =
      if moves_data t.kind then bump load.per_route (route_text t.route) else load.per_route;
}

-- The `for` loop, with each transfer kept beside its entry of the plan, and the final counters.
pub walk :
    List QueuedTransfer
    → Load
    → ConcurrencyLimits
    → BandwidthLimits
    → List Text
    → List (QueuedTransfer × Dispatch) × Load
walk [] load limits bandwidth drained = ([], load)
walk (t ∷ queue) load limits bandwidth drained =
    let busy = skipped t load limits drained in
    let (plan, end) = walk queue (if busy then load else taken t load) limits bandwidth drained in
    (if busy then plan else (t, dispatch_of t load bandwidth) ∷ plan, end)

unfoldable pub plan_dispatch :
    List QueuedTransfer → Load → ConcurrencyLimits → BandwidthLimits → List Text → List Dispatch
unfolding walk
plan_dispatch queue load limits bandwidth drained =
    map (λ p. p.1) (walk queue load limits bandwidth drained).0
