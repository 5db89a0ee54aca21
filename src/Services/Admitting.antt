-- ===== src/Services/Admitting.antt =====
-- services/allocations.py, services/drain.py and the admission in services/filesets.py: the sums
-- that an admission decision needs, and the operations that reserve.
use stashd.Prelude.{
  ℕ, Text, same, Bool, true, false, ◌&&◌, List, [], ◌∷◌, map, any, select, find_first, sum_of,
  length, Option, none, some, if◌then◌else◌,
}
use stashd.Domain.Errors.{ErrorCode, StashError, text, Result, ok, err, raise}
use stashd.Domain.Allocation.{AllocationState}
use stashd.Domain.Filesets.{FilesetKind, FilesetState, holds_allocation}
use stashd.Config.{ClusterConfig, Storage, cache, storage, has_role, cache_storages}
use stashd.Models.{Fileset, Db}
use stashd.Session.{Exec, ◌>>◌, pure, lift, commit}
use stashd.Services.Releases.{Owner, live_fileset}

abbrev pub is_live : Fileset → Bool
is_live f = holds_allocation f.state

abbrev pub or_zero : Option ℕ → ℕ
or_zero none = 0
or_zero (some n) = n

abbrev pub total_of : (Fileset → Bool) → Db → ℕ
total_of p db = sum_of (λ f. f.allocated_bytes) (select p db.filesets)

-- The `sum(allocated_bytes)` of the live filesets of one storage, and of one user there.
unfoldable pub storage_allocated : Text → Db → ℕ
unfolding same holds_allocation
storage_allocated storage_id = total_of (λ f. same f.storage_id storage_id && is_live f)

unfoldable pub user_allocated : Text → Text → Db → ℕ
unfolding same holds_allocation
user_allocated user storage_id =
    total_of (λ f. same f.owner_user user && same f.storage_id storage_id && is_live f)

-- What a user holds on the storages that have the cache role.
unfoldable pub user_on_caches : ClusterConfig → Text → Db → ℕ
unfolding same holds_allocation
user_on_caches cluster user = total_of (λ f.
    same f.owner_user user
    && any (λ (s : Storage). same s.id f.storage_id) (cache_storages cluster)
    && is_live f)

unfoldable pub user_fileset_count : Text → Db → ℕ
unfolding same holds_allocation
user_fileset_count user db = length (select (λ f. same f.owner_user user && is_live f) db.filesets)

unfoldable pub offenders : Text → Db → List Text
unfolding same holds_allocation
offenders user db =
    map (λ f. f.name)
      (select (λ f. same f.owner_user user && f.over_allocation && is_live f) db.filesets)

-- `limits_of(user).get(storage_id)`, and `.get(None)`.
abbrev pub limit_matches : Option Text → Option Text → Bool
limit_matches none none = true
limit_matches (some s) (some t) = same s t
limit_matches _ _ = false

unfoldable pub limit_of : Text → Option Text → Db → Option ℕ
unfolding same
limit_of user storage_id db =
    elim (find_first (λ l. same l.user user && limit_matches l.storage_id storage_id) db.limits) [
      | none ↦ none
      | some l ↦ some l.allocation_limit_bytes
    ]

unfoldable pub storage_limit : Storage → Option ℕ → ℕ
storage_limit s none = or_zero s.default_user_allocation_limit_bytes
storage_limit s (some override) = override

unfoldable pub total_limit : ClusterConfig → Option ℕ → ℕ
total_limit cluster none = cluster.limits.user_total_cache_allocation_bytes
total_limit cluster (some override) = override

-- `drained_storages`.
unfoldable pub drained_storages : Db → List Text
drained_storages db = map (λ s. s.storage_id) (select (λ s. s.drained) db.storage_states)

unfoldable pub admission_state : ClusterConfig → Text → Storage → Db → AllocationState
unfolding same
admission_state cluster user s db = record {
  user_allocated_on_storage = user_allocated user s.id db;
  user_limit_on_storage = storage_limit s (limit_of user (some s.id) db);
  user_allocated_on_caches = user_on_caches cluster user db;
  user_total_limit = total_limit cluster (limit_of user none db);
  storage_allocated = storage_allocated s.id db;
  storage_capacity_bytes = or_zero s.capacity_bytes;
  fill_limit = s.fill_limit;
  user_fileset_count = user_fileset_count user db;
  max_filesets_per_user = cluster.limits.max_filesets_per_user;
  over_allocation_filesets = offenders user db;
  storage_drained = any (λ d. same d s.id) (drained_storages db);
}

-- `cache_storage`: the storage must be known and hold filesets.
unfoldable pub cache_storage : ClusterConfig → Text → Result Storage
cache_storage cluster storage_id = elim (storage cluster storage_id) [
  | none ↦ raise ErrorCode.not_found (("storage", text storage_id) ∷ [])
  | some s ↦
      (if has_role s cache
        then ok s
        else raise ErrorCode.not_a_cache_storage (("storage", text storage_id) ∷ []))
]

-- `except StashError as refusal`: the refusal is audited and committed, then raised again.
abbrev pub audited_refusal : {A : Type 0} → (StashError → Exec (Unit {0})) → Result A → Exec A
audited_refusal note (ok a) = pure a
audited_refusal note (err refusal) = do note refusal; commit; lift (err refusal)

unfoldable pub name_taken : Text → Text → Text → Db → Result (Unit {0})
unfolding live_fileset
name_taken user storage_id name db = elim (live_fileset user storage_id name db) [
  | none ↦ ok tt
  | some f ↦
      raise ErrorCode.fileset_exists (("storage", text storage_id) ∷ ("name", text name) ∷ [])
]

unfoldable pub new_output : ℕ → ℕ → Owner → Text → Text → ℕ → Fileset
new_output id now owner storage_id name size_bytes = record {
  id = id;
  name = name;
  owner_user = owner.user;
  owner_uid = owner.uid;
  owner_gid = owner.gid;
  storage_id = storage_id;
  kind = FilesetKind.output;
  state = FilesetState.creating;
  path = [];
  allocated_bytes = size_bytes;
  used_bytes = 0;
  used_bytes_at = none;
  file_count = none;
  over_allocation = false;
  source_storage_id = none;
  source_path = none;
  created_at = now;
  warm_started_at = none;
  warm_finished_at = none;
  last_flushed_at = none;
  last_flush_target = none;
  released_at = none;
  last_transfer_id = none;
}
