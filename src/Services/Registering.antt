-- ===== src/Services/Registering.antt =====
-- services/daemons.py and api/internal/register.py: what a daemon told the controller about itself.
pub mod Accepting
use stashd.Prelude.{
  ℕ, Text, same, Bool, true, false, not, List, [], ◌∷◌, ◌++◌, map, any, select, find_first, ltb,
  Option, none, some, if◌then◌else◌,
}
use stashd.Domain.Errors.{ErrorCode, text, Result, ok, raise}
use stashd.Config.{ClusterConfig, Storage, storage, daemon}
use stashd.Config
use stashd.Models.{Daemon, Db}
use stashd.Session.{Exec, ◌>>=◌, ◌>>◌, pure, lift, writes, commit}

pub record Registration : Type 0 where
  pub daemon_id : Text
  pub storages : List Text
  pub config_revision : ℕ
  pub version : Text

-- One round of the loop of `_check_storages`.
unfoldable pub check_storage : ClusterConfig → Text → Text → Result (Unit {0})
unfolding storage same
check_storage cluster daemon_id storage_id = elim (storage cluster storage_id) [
  | none ↦ raise ErrorCode.not_found (("storage", text storage_id) ∷ [])
  | some s ↦
      (if not (same s.daemon daemon_id)
        then raise ErrorCode.conflict
            (("storage", text storage_id) ∷ ("daemon", text s.daemon) ∷ [])
        else ok tt)
]

abbrev pub after_check : Result (Unit {0}) → Result (Unit {0}) → Result (Unit {0})
after_check (ok a) rest = rest
after_check refused rest = refused

-- `_check_storages`.
unfoldable pub check_storages : ClusterConfig → Text → List Text → Result (Unit {0})
unfolding check_storage
check_storages cluster daemon_id [] = ok tt
check_storages cluster daemon_id (s ∷ ss) =
    after_check (check_storage cluster daemon_id s) (check_storages cluster daemon_id ss)

-- `cluster.daemon(id)`, whose KeyError is answered as NotFound.
abbrev pub known_daemon : Text → Option Config.Daemon → Result (Unit {0})
known_daemon daemon_id none = raise ErrorCode.not_found (("daemon", text daemon_id) ∷ [])
known_daemon daemon_id (some d) = ok tt

-- `session.get(Daemon, id)`, and the row changed where it is or added after the others.
abbrev pub get_daemon : Text → List Daemon → Option Daemon
get_daemon daemon_id rows = find_first (λ d. same d.id daemon_id) rows

unfoldable pub put_daemon : Daemon → List Daemon → List Daemon
unfolding same
put_daemon d [] = d ∷ []
put_daemon d (r ∷ rs) = if same r.id d.id then d ∷ rs else r ∷ put_daemon d rs

module _ (cluster : ClusterConfig) (now : ℕ) where
  abbrev pub announced : Registration → Daemon
  announced a = record {
    id = a.daemon_id;
    storages = a.storages;
    config_revision = a.config_revision;
    version = a.version;
    last_seen_at = now;
  }

  unfoldable pub register : Registration → Exec Daemon
  unfolding daemon check_storages put_daemon
  register announcement = do
    lift (known_daemon announcement.daemon_id (daemon cluster announcement.daemon_id))
    lift (check_storages cluster announcement.daemon_id announcement.storages)
    writes (λ db. record db { daemons = put_daemon (announced announcement) db.daemons })
    commit
    pure (announced announcement)

-- `known_daemons`; the keys of its answer are the ids of the rows.
unfoldable pub known_daemons : List Text → Db → List Daemon
unfolding same
known_daemons ids db = select (λ d. any (same d.id) ids) db.daemons

-- `schemas.internal.Registered`.
pub record Registered : Type 0 where
  pub daemon_id : Text
  pub config_revision : ℕ
  pub refresh_needed : Bool

unfoldable pub register_daemon : ClusterConfig → ℕ → Registration → Exec Registered
unfolding register
register_daemon cluster now body = do
  row ← register cluster now body
  pure (record {
    daemon_id = row.id;
    config_revision = cluster.revision;
    refresh_needed = ltb row.config_revision cluster.revision;
  })
