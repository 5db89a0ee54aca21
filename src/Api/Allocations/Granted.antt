-- ===== src/Api/Allocations/Granted.antt =====
-- What the report on allocations says of admission (api/public/allocations.py).
use stashd.Prelude.{ℕ, ◌≤◌, Text, ◌≡◌, Option, arith}
use stashd.Prelude.Int.{pos}
use stashd.Domain.Errors.{ok}
use stashd.Domain.Floats.{FloatOps}
use stashd.Domain.Allocation.{AllocationRequest, admit}
use stashd.Domain.Allocation.Admission.{admit_iff}
use stashd.Domain.Identity.{Principal}
use stashd.Config.{ClusterConfig, Storage}
use stashd.Models.{Db}
use stashd.Services.Admitting.{admission_state}
use stashd.Api.Access.{wanted_user}
use stashd.Api.Allocations.{storage_allocation, allocations}

-- What admission grants a user on a storage is at most what the report on that user's allocations
-- gives as free there, and at most what it gives as free in total.
pub admit-free :
    (f : FloatOps) (cluster : ClusterConfig) (caller : Principal) (user : Option Text) (s : Storage)
    (db : Db) (r : AllocationRequest) (n : ℕ)
    → r.requested_bytes ≡ pos n
    → admit f r (admission_state cluster (wanted_user user caller) s db) ≡ ok tt
    → (n ≤ (storage_allocation (wanted_user user caller) db s).totals.free_bytes)
      × (n ≤ (allocations cluster caller user db).total.free_bytes)
unfolding admission_state storage_allocation allocations
admit-free f cluster caller user s db r n e h =
    let fits = (admit_iff f r (admission_state cluster (wanted_user user caller) s db) n e).0 h in
    let on_storage = fits.within_storage_limit in
    let in_total = fits.within_total_limit in (omega arith, omega arith)
