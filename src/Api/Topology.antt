-- ===== src/Api/Topology.antt =====
-- api/public/topology.py: who a caller is, what the cluster looks like, and draining a storage.
use stashd.Prelude.{
  ℕ, Text, same, Bool, true, false, not, ◌≡◌, List, [], ◌∷◌, map, any, Option, none, some, arith,
}
use stashd.Domain.Errors.{ErrorCode, text, err, refuse, StashError}
use stashd.Domain.Identity.{Principal}
use stashd.Config.{ClusterConfig, Storage}
use stashd.Models.{Daemon, Db}
use stashd.Session.{Session, Exec, ◌>>◌, pure, lift}
use stashd.Services.Admitting.{drained_storages}
use stashd.Services.Registering.{known_daemons, get_daemon}
use stashd.Services.Limiting.{set_drained}
use stashd.Api.Access.{caller_is_admin}
use stashd.Api.Transfers.Guarded.{lift-stops}

pub record WhoAmI : Type 0 where
  pub uid : ℕ
  pub username : Text
  pub groups : List Text
  pub admin : Bool

unfoldable pub whoami : Principal → ClusterConfig → WhoAmI
unfolding caller_is_admin
whoami caller cluster = record {
  uid = caller.uid;
  username = caller.username;
  groups = caller.groups;
  admin = caller_is_admin caller cluster;
}

-- A storage as the config has it, with whether it is drained and what its daemon told last.
pub record StorageView : Type 0 where
  pub storage : Storage
  pub drained : Bool
  pub daemon_seen_at : Option ℕ
  pub daemon_config_revision : Option ℕ

abbrev seen_at : Option Daemon → Option ℕ
seen_at none = none
seen_at (some d) = some d.last_seen_at

abbrev revision_of : Option Daemon → Option ℕ
revision_of none = none
revision_of (some d) = some d.config_revision

abbrev view_of : List Daemon → List Text → Storage → StorageView
view_of seen drained s = record {
  storage = s;
  drained = any (λ d. same d s.id) drained;
  daemon_seen_at = seen_at (get_daemon s.daemon seen);
  daemon_config_revision = revision_of (get_daemon s.daemon seen);
}

unfoldable pub storages : ClusterConfig → Db → List StorageView
unfolding same known_daemons drained_storages
storages cluster db =
    map
      (view_of (known_daemons (map (λ (s : Storage). s.daemon) cluster.storages) db)
        (drained_storages db))
      cluster.storages

module _ (cluster : ClusterConfig) (now : ℕ) (caller : Principal) where
  -- `_set_drain`; the answer is whether the storage is drained now.
  unfoldable pub set_drain : Text → Bool → Exec Bool
  unfolding caller_is_admin set_drained
  set_drain storage_id drained = do
    lift (
        refuse (not (caller_is_admin caller cluster)) ErrorCode.forbidden
          (("storage", text storage_id) ∷ []))
    set_drained cluster now caller storage_id drained
    pure drained

  unfoldable pub drain_storage : Text → Exec Bool
  unfolding set_drain
  drain_storage storage_id = set_drain storage_id true

  unfoldable pub undrain_storage : Text → Exec Bool
  unfolding set_drain
  undrain_storage storage_id = set_drain storage_id false

  abbrev drain_refusal : Text → StashError
  drain_refusal storage_id = record {
    code = ErrorCode.forbidden;
    details = ("storage", text storage_id) ∷ [];
  }

  -- A caller who is no admin drains no storage.
  set_drain-refused :
      (storage_id : Text) (drained : Bool) (s : Session)
      → caller_is_admin caller cluster ≡ false
      → set_drain storage_id drained s ≡ (err (drain_refusal storage_id), s)
  unfolding set_drain
  set_drain-refused storage_id drained s plain =
      lift-stops _ (drain_refusal storage_id) _ s (ground arith)
