-- ===== src/Examples/Access.antt =====
-- The theorems on requests at work.
use stashd.Prelude.Int.{pos}
use stashd.Domain.Allocation.{AllocationRequest, admit}
use stashd.Config.{cache_storages}
use stashd.Services.Admitting.{
  admission_state, drained_storages, offenders, user_fileset_count, user_allocated, storage_limit,
  limit_of, user_on_caches, total_limit, storage_allocated,
}
use stashd.Api.Allocations.{storage_allocation, allocations}
use stashd.Api.Allocations.Granted.{admit-free}
use stashd.Prelude.{
  ◌≤◌, ℕ, Text, if◌then◌else◌, ◌≡◌, refl, ◌↔◌, codes, [], Option, none, some, same, ◌≢◌, Bool,
  false, arith,
}
use stashd.Domain.Errors.{ErrorCode, Result, ok, err, raise}
use stashd.Domain.Units.{strip}
use stashd.Services.Releases.{Owner}
use stashd.Api.Access.{
  Identity, partition_space, munge_provider, principal, wanted_user, subject_owner,
}
use stashd.Api.Access.Verified.{ActsAs, subject_owner-Verified}
use stashd.Api.Access.{caller_is_admin}
use stashd.Api.Transfers.{Submit, submit_transfer}
use stashd.Api.Transfers.Guarded.{refusal, submit_transfer-refused}
use stashd.Examples.{nvme, cluster, ada, ada_owner, hundredths, store, dispatcher, db}

-- One credential is known, and it is ada's.
abbrev decode : Text → Option (ℕ × ℕ)
decode credential = if same credential (codes "AwQ") then some (7, 7) else none

abbrev groups_of : ℕ → ℕ → Result Identity
groups_of uid gid = ok (record { username = codes "ada"; groups = []; gids = [] })

abbrev nobody : Text → Result Owner
nobody user = raise ErrorCode.not_found []

abbrev header : Text
header = codes "munge  AwQ "

header_accepted : principal (munge_provider decode groups_of) header ≡ ok ada
unfolding principal munge_provider
header_accepted = refl

subject_owner-Verified_example :
    (decode (strip (partition_space header).1) ≡ some (7, 7))
    × ((subject_owner cluster nobody ada none ≡ ok ada_owner)
        ↔ ActsAs cluster nobody ada (wanted_user none ada) ada_owner)
subject_owner-Verified_example =
    subject_owner-Verified decode groups_of cluster nobody header ada none ada_owner header_accepted

abbrev trial : Bool → Option Text → Submit
trial dry_run user = Submit.warm (record {
  source = record { storage = codes "ARCHIVE"; path = codes "/raw" };
  target = record { storage = codes "NVME"; fileset = codes "fresh" };
  size_bytes = none;
  refresh = false;
  dry_run = dry_run;
  user = user;
})

abbrev for_bob : Submit
for_bob = trial false (some (codes "bob"))

not_ada : codes "bob" ≢ codes "ada"
not_ada e = ground arith

plain : caller_is_admin ada cluster ≡ false
unfolding caller_is_admin
plain = refl

submit_transfer-refused_example :
    submit_transfer hundredths cluster 9 nobody dispatcher ada store for_bob
      (record { committed = db; working = db })
    ≡ (err (refusal (codes "bob")), record { committed = db; working = db })
unfolding wanted_user
submit_transfer-refused_example =
    submit_transfer-refused hundredths cluster 9 nobody dispatcher ada store for_bob
      (record { committed = db; working = db }) not_ada plain

abbrev request : AllocationRequest
request = record { user = codes "ada"; storage_id = codes "NVME"; requested_bytes = pos 400 }

request_granted :
    admit hundredths request (admission_state cluster (wanted_user none ada) nvme db) ≡ ok tt
unfolding admit admission_state wanted_user drained_storages offenders user_fileset_count
    user_allocated storage_limit limit_of user_on_caches cache_storages total_limit
    storage_allocated
request_granted = refl

admit-free_example :
    (400 ≤ (storage_allocation (wanted_user none ada) db nvme).totals.free_bytes)
    × (400 ≤ (allocations cluster ada none db).total.free_bytes)
admit-free_example = admit-free hundredths cluster ada none nvme db request 400 refl request_granted
