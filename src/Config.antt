-- ===== src/Config.antt =====
-- config/cluster.py: the parts of the cluster config that the controller reads. What pydantic does
-- to one field is not modelled; durations are microseconds.
pub mod Checks
pub mod Sound
pub mod Distribution
pub mod Modes
use stashd.Prelude.{
  ℕ, Text, same, Bool, true, false, List, any, select, find_first, Option, none, some,
}
use stashd.Domain.Floats.{Float}
use stashd.Domain.Transfers.{FailureClass}
use stashd.Domain.Scheduling.{ConcurrencyLimits, BandwidthLimits}
use stashd.Domain.Identity.{Group}
use stashd.Paths.{PosixPath}

pub data StorageRole : Type 0 where
  source cache : StorageRole

abbrev pub is_role : StorageRole → StorageRole → Bool
is_role source source = true
is_role cache cache = true
is_role _ _ = false

pub record Daemon : Type 0 where
  pub id : Text
  pub host : Text

pub record Location : Type 0 where
  pub id : Text
  pub name : Text
  pub enabled : Bool

pub record Storage : Type 0 where
  pub id : Text
  pub location : Text
  pub root : PosixPath
  pub fileset_prefix : PosixPath
  pub fileset_mode : ℕ
  pub roles : List StorageRole
  pub capacity_bytes : Option ℕ
  pub fill_limit : Float
  pub default_user_allocation_limit_bytes : Option ℕ
  pub daemon : Text

unfoldable pub has_role : Storage → StorageRole → Bool
has_role storage role = any (λ r. is_role r role) storage.roles

pub record Limits : Type 0 where
  pub user_total_cache_allocation_bytes : ℕ
  pub max_filesets_per_user : ℕ
  pub queued_transfers_per_user : ℕ
  pub concurrency : ConcurrencyLimits
  pub bandwidth : BandwidthLimits

pub record Retries : Type 0 where
  pub count : ℕ
  pub backoff : ℕ
  pub retry_on : List FailureClass

pub record NominalThroughput : Type 0 where
  pub default : ℕ
  pub routes : List (Text × ℕ)

-- `scheduling.fairshare`, `scheduling.allocation_headroom`, `transfer.retries`,
-- `transfer.nominal_throughput`, `timeouts`, `retention` and `auth`.
pub record ClusterConfig : Type 0 where
  pub revision : ℕ
  pub locations : List Location
  pub daemons : List Daemon
  pub storages : List Storage
  pub limits : Limits
  pub half_life : ℕ
  pub points_per_gib : Float
  pub allocation_headroom : Float
  pub retries : Retries
  pub nominal_throughput : NominalThroughput
  pub daemon_unreachable : ℕ
  pub keep_transfers : ℕ
  pub keep_audit : ℕ
  pub admin_uids : List ℕ
  pub admin_gids : List Group

-- `none` where the source raises KeyError.
unfoldable pub daemon : ClusterConfig → Text → Option Daemon
unfolding same
daemon c daemon_id = find_first (λ d. same d.id daemon_id) c.daemons

unfoldable pub storage : ClusterConfig → Text → Option Storage
unfolding same
storage c storage_id = find_first (λ s. same s.id storage_id) c.storages

unfoldable pub daemon_for : ClusterConfig → Text → Option Daemon
unfolding daemon storage
daemon_for c storage_id = elim (storage c storage_id) [ none ↦ none | some s ↦ daemon c s.daemon ]

unfoldable pub cache_storages : ClusterConfig → List Storage
unfolding has_role
cache_storages c = select (λ s. has_role s cache) c.storages

unfoldable pub storages_of : ClusterConfig → Text → List Storage
unfolding same
storages_of c daemon_id = select (λ s. same s.daemon daemon_id) c.storages
