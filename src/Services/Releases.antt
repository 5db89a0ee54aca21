-- ===== src/Services/Releases.antt =====
-- services/transfers_release.py: releasing a fileset. The store is the client of the daemons, and
-- what it answers is an argument.
pub mod Reservation
pub mod Confirmed
use stashd.Prelude.{
  ℕ, Text, digits_of, same, Bool, false, not, ◌&&◌, [], ◌∷◌, find_first, Option, none, some,
  if◌then◌else◌,
}
use stashd.Domain.Errors.{
  ErrorCode, num, text, Result, ok, err, code_text, raise, refuse, StashError,
}
use stashd.Domain.Filesets.{FilesetState, is_output, next_fileset_state, holds_allocation}
use stashd.Domain.Transfers.{TransferKind, TransferState, next_transfer_state}
use stashd.Domain.Identity.{Principal}
use stashd.Domain.Routes.{route_text}
use stashd.Models.{Fileset, Transfer, Db}
use stashd.Session.{Exec, ◌>>=◌, ◌>>◌, pure, lift, reads, writes, commit}
use stashd.Session.Rows.{put_transfer, put_fileset, add_transfer}
use stashd.Services.Accounting.{record_event}

pub record Owner : Type 0 where
  pub user : Text
  pub uid : ℕ
  pub gid : ℕ

pub record FilesetLocation : Type 0 where
  pub storage_id : Text
  pub name : Text
  pub owner : Owner
  pub path : Text

-- `clients.filesets.FilesetStore`: the storage daemons as the controller sees them.
pub record FilesetStore : Type 0 where
  pub create : Text → Owner → Text → ℕ → Result FilesetLocation
  pub delete : ℕ → FilesetLocation → Result (Unit {0})
  pub set_quota : FilesetLocation → ℕ → Result (Unit {0})

unfoldable pub location_of : Fileset → FilesetLocation
location_of f = record {
  storage_id = f.storage_id;
  name = f.name;
  owner = record { user = f.owner_user; uid = f.owner_uid; gid = f.owner_gid };
  path = f.path;
}

-- `live_fileset`: the one row of that name that is not released.
unfoldable pub live_fileset : Text → Text → Text → Db → Option Fileset
unfolding same holds_allocation
live_fileset owner_user storage_id name db =
    find_first
      (λ f.
        same f.owner_user owner_user
        && same f.storage_id storage_id
        && same f.name name
        && holds_allocation f.state)
      db.filesets

-- The transfer that `_start` adds, in the state `running`.
unfoldable pub new_release : ℕ → ℕ → Fileset → Transfer
new_release id now fileset = record {
  id = id;
  kind = TransferKind.release;
  user = fileset.owner_user;
  fileset_id = fileset.id;
  peer_ref = none;
  state = TransferState.submitted;
  route = route_text (record { source = fileset.storage_id; target = fileset.storage_id });
  bytes_total = 0;
  bytes_done = 0;
  files_done = none;
  executing_daemon_id = none;
  bwlimit_bytes_per_s = none;
  attempt = 1;
  last_sequence = 0;
  task_id = none;
  retry_after = none;
  release_after = false;
  error_code = none;
  submitted_at = now;
  started_at = none;
  finished_at = none;
}

module _ (now : ℕ) where
  -- `_start`.
  unfoldable pub start_release : Fileset → Exec Transfer
  unfolding new_release
  start_release fileset = do
    id ← reads (λ db. db.next_transfer)
    let added = new_release id now fileset
    writes (add_transfer added)
    assigned ← lift (next_transfer_state added.state TransferState.assigned)
    running ← lift (next_transfer_state assigned TransferState.running)
    let transfer = record added { state = running; started_at = some now }
    writes (put_transfer transfer)
    pure transfer

  -- `_fail`, with the audit event and the commit that follow it.
  unfoldable pub fail_release : Principal → Fileset → Transfer → StashError → Exec (Unit {0})
  fail_release actor fileset transfer failure = do
    failed_fileset ← lift (next_fileset_state fileset.state FilesetState.failed)
    failed_transfer ← lift (next_transfer_state transfer.state TransferState.failed)
    writes (put_fileset (record fileset { state = failed_fileset }))
    writes (
        put_transfer (record transfer {
          state = failed_transfer;
          finished_at = some now;
          error_code = some (code_text failure.code);
        }))
    record_event now actor fileset.owner_user "fileset" (digits_of fileset.id) "release"
        (some failure.code) []
    commit

  -- What follows a deletion that the daemon confirmed.
  unfoldable pub finish_release : Principal → Fileset → Transfer → Exec Transfer
  finish_release actor fileset transfer = do
    released ← lift (next_fileset_state fileset.state FilesetState.released)
    succeeded ← lift (next_transfer_state transfer.state TransferState.succeeded)
    let done = record transfer { state = succeeded; finished_at = some now }
    writes (
        put_fileset (record fileset {
          state = released;
          released_at = some now;
          last_transfer_id = some transfer.id;
        }))
    writes (put_transfer done)
    record_event now actor fileset.owner_user "fileset" (digits_of fileset.id) "release" none (
        ("storage", text fileset.storage_id)
        ∷ ("name", text fileset.name)
        ∷ ("freed_bytes", num fileset.allocated_bytes)
        ∷ [])
    commit
    pure done

  unfoldable pub conclude_release :
      Principal → Fileset → Transfer → Result (Unit {0}) → Exec Transfer
  unfolding fail_release finish_release
  conclude_release actor fileset transfer (err failure) = do
    fail_release actor fileset transfer failure
    lift (err failure)
  conclude_release actor fileset transfer (ok _) = finish_release actor fileset transfer

  -- `perform_release`: delete the directory, then free the reservation.
  unfoldable pub perform_release : FilesetStore → Principal → Fileset → Exec Transfer
  unfolding start_release conclude_release location_of
  perform_release store actor fileset = do
    transfer ← start_release fileset
    releasing ← lift (next_fileset_state fileset.state FilesetState.releasing)
    let leaving = record fileset { state = releasing }
    writes (put_fileset leaving)
    commit
    conclude_release actor leaving transfer (store.delete leaving.id (location_of leaving))

  -- The guards of `release_fileset` on the fileset that was found.
  unfoldable pub check_release : Principal → Bool → Bool → Fileset → Result (Unit {0})
  unfolding same
  check_release actor is_admin discard fileset =
      if not (same fileset.owner_user actor.username) && not is_admin
      then raise ErrorCode.forbidden (("owner", text fileset.owner_user) ∷ [])
      else if is_output fileset.kind && not discard
      then raise ErrorCode.flush_target_required
          (("storage", text fileset.storage_id) ∷ ("name", text fileset.name) ∷ [])
      else ok tt

  abbrev pub or_missing : Text → Text → Option Fileset → Result Fileset
  or_missing storage_id name none =
      raise ErrorCode.not_found (("storage", text storage_id) ∷ ("name", text name) ∷ [])
  or_missing storage_id name (some fileset) = ok fileset

  unfoldable pub release_fileset :
      FilesetStore → Principal → Bool → Text → Text → Text → Bool → Exec Transfer
  unfolding check_release perform_release live_fileset same
  release_fileset store actor is_admin subject_user storage_id name discard = do
    lift (
        refuse (not (same subject_user actor.username) && not is_admin) ErrorCode.forbidden
          (("user", text subject_user) ∷ []))
    found ← reads (live_fileset subject_user storage_id name)
    fileset ← lift (or_missing storage_id name found)
    lift (check_release actor is_admin discard fileset)
    perform_release store actor fileset
