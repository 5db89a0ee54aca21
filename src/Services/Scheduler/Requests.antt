-- ===== src/Services/Scheduler/Requests.antt =====
-- What the scheduler asks of a daemon (scheduler/loop.py).
use stashd.Prelude.{ℕ, ◌≡◌, ◌≢◌, ◌↔◌, ◌⊎◌, Text, same_iff, true, Option, arith, none, some}
use stashd.Domain.Errors.{ok}
use stashd.Domain.Transfers.{TransferKind}
use stashd.Domain.Routes.{channel_for}
use stashd.Config.{ClusterConfig, Daemon, daemon_for}
use stashd.Models.{Fileset, Transfer}
use stashd.Services.Releases.{Owner}
use stashd.Services.Dispatching.{TransferDispatcher, TransferEndpoint, StartRequest}
use stashd.Services.Scheduler.{start_request, endpoint, deletes, is_refresh}

-- The daemon is asked to delete at the target only in a warm of a fileset that a warm has filled
-- before: never in a flush, and never in the first warm.
pub start_request-delete :
    (cluster : ClusterConfig) (d : TransferDispatcher) (t : Transfer) (fileset : Fileset)
    (limit : Option ℕ) (ends : Text × Text) (r : StartRequest)
    → start_request cluster d t fileset limit ends ≡ ok (some r)
    → r.delete ≡ true
    → (t.kind ≡ TransferKind.warm) × (fileset.warm_finished_at ≢ none)
unfolding start_request deletes is_refresh
start_request-delete cluster d t fileset limit (source, target) r h e = ground arith

-- Between storages with known daemons, the target is a local path exactly where one daemon owns
-- both; otherwise it is on the host of the target's daemon, as the owner.
pub endpoint_local_iff :
    (cluster : ClusterConfig) (source target path : Text) (owner : Owner) (from to : Daemon)
    (e : TransferEndpoint)
    → daemon_for cluster source ≡ some from
    → daemon_for cluster target ≡ some to
    → endpoint cluster source target path owner ≡ ok e
    → (e.path ≡ path)
      × ((e.host ≡ none) ↔ (from.id ≡ to.id))
      × ((from.id ≡ to.id) ⊎ ((e.host ≡ some to.host) × (e.user ≡ some owner.user)))
unfolding endpoint channel_for
endpoint_local_iff cluster source target path owner from to e hf ht h =
    let i = same_iff from.id to.id in
    (ground arith, (λ k. ground arith, λ k. ground arith), ground arith)
