-- ===== src/Api/Allocations.antt =====
-- api/public/allocations.py: what a user holds and may still reserve. The ids of the cache storages
-- are distinct (Config.Checks).
pub mod Granted
use stashd.Prelude.{ℕ, ◌-◌, Text, same, ◌&&◌, List, map, any, select, sum_of, Option, none, some}
use stashd.Domain.Filesets.{holds_allocation}
use stashd.Domain.Identity.{Principal}
use stashd.Config.{ClusterConfig, Storage, cache_storages}
use stashd.Models.{Fileset, Db}
use stashd.Services.Admitting.{
  is_live, user_allocated, user_on_caches, limit_of, storage_limit, total_limit,
}
use stashd.Api.Access.{wanted_user}

pub record AllocationTotals : Type 0 where
  pub limit_bytes : ℕ
  pub allocated_bytes : ℕ
  pub used_bytes : ℕ
  pub free_bytes : ℕ

pub record StorageAllocation : Type 0 where
  pub storage_id : Text
  pub totals : AllocationTotals

pub record Allocations : Type 0 where
  pub user : Text
  pub total : AllocationTotals
  pub storages : List StorageAllocation

-- The `sum(used_bytes)` of a user's live filesets on one storage, and on all caches.
unfoldable user_used : Text → Text → Db → ℕ
unfolding same holds_allocation
user_used user storage_id db =
    sum_of (λ f. f.used_bytes)
      (select (λ f. same f.owner_user user && same f.storage_id storage_id && is_live f)
        db.filesets)

unfoldable used_on_caches : ClusterConfig → Text → Db → ℕ
unfolding same holds_allocation cache_storages
used_on_caches cluster user db =
    sum_of (λ f. f.used_bytes)
      (select
        (λ f.
          same f.owner_user user
          && any (λ (s : Storage). same s.id f.storage_id) (cache_storages cluster)
          && is_live f)
        db.filesets)

-- `max(limit - allocated, 0)` is the subtraction of ℕ.
abbrev totals_of : ℕ → ℕ → ℕ → AllocationTotals
totals_of limit allocated used = record {
  limit_bytes = limit;
  allocated_bytes = allocated;
  used_bytes = used;
  free_bytes = limit - allocated;
}

unfoldable pub storage_allocation : Text → Db → Storage → StorageAllocation
unfolding user_allocated user_used storage_limit limit_of
storage_allocation user db s = record {
  storage_id = s.id;
  totals =
      totals_of (storage_limit s (limit_of user (some s.id) db)) (user_allocated user s.id db)
        (user_used user s.id db);
}

unfoldable pub allocations : ClusterConfig → Principal → Option Text → Db → Allocations
unfolding user_on_caches used_on_caches total_limit limit_of storage_allocation cache_storages
    wanted_user
allocations cluster caller user db =
    let subject = wanted_user user caller in
    record {
      user = subject;
      total =
          totals_of (total_limit cluster (limit_of subject none db))
            (user_on_caches cluster subject db) (used_on_caches cluster subject db);
      storages = map (storage_allocation subject db) (cache_storages cluster);
    }
