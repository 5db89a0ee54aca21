-- ===== src/Services/Flushing.antt =====
-- services/flush.py: submitting a flush.
pub mod Reservation
use stashd.Prelude.{
  ℕ, Text, digits_of, same, Bool, not, ◌&&◌, [], ◌∷◌, ◌++◌, ◌==◌, Option, none, some, if◌then◌else◌,
}
use stashd.Domain.Errors.{ErrorCode, text, Result, ok, raise}
use stashd.Domain.Floats.{FloatOps}
use stashd.Domain.Filesets.{FilesetState, next_fileset_state}
use stashd.Domain.Transfers.{TransferKind}
use stashd.Domain.Routes.{Route}
use stashd.Domain.Fairshare.{points_for_bytes}
use stashd.Domain.Identity.{Principal}
use stashd.Config.{ClusterConfig}
use stashd.Models.{Fileset, Transfer}
use stashd.Session.{Exec, ◌>>=◌, ◌>>◌, pure, lift, reads, writes, commit}
use stashd.Session.Rows.{put_fileset, add_transfer}
use stashd.Services.Accounting.{record_event, charge}
use stashd.Services.Releases.{Owner, live_fileset}
use stashd.Services.Dispatching.{ProbeResult, TransferDispatcher}
use stashd.Services.Admitting.{audited_refusal}
use stashd.Services.Filesets.{reference}
use stashd.Services.Warming.{source_storage, check_queue_length}
use stashd.Services.Warming.Submitting.{new_transfer}

pub record Plan : Type 0 where
  pub fileset : Fileset
  pub source_reference : Text
  pub target_reference : Text
  pub path : Text
  pub route : Route
  pub bytes_total : ℕ
  pub file_count : ℕ

-- Filesets live at `/<user>/<name>`.
unfoldable pub relative_path : Fileset → Text
relative_path fileset = b'/' ∷ fileset.owner_user ++ (b'/' ∷ fileset.name)

abbrev or_absent : Text → Text → Option Fileset → Result Fileset
or_absent storage_id name none =
    raise ErrorCode.not_found (("storage", text storage_id) ∷ ("name", text name) ∷ [])
or_absent storage_id name (some fileset) = ok fileset

unfoldable pub check_owner : Principal → Bool → Fileset → Result (Unit {0})
unfolding same
check_owner actor is_admin fileset =
    if not (same fileset.owner_user actor.username) && not is_admin
    then raise ErrorCode.forbidden (("owner", text fileset.owner_user) ∷ [])
    else ok tt

-- A flush merges into what is there, and never creates it.
unfoldable pub writable_target : Text → Text → ProbeResult → Result (Unit {0})
writable_target storage_id path target =
    let named = ("storage", text storage_id) ∷ ("path", text path) ∷ [] in
    if not target.exists
    then raise ErrorCode.path_not_found named
    else if not target.is_dir
    then raise ErrorCode.invalid_path named
    else if not target.writable
    then raise ErrorCode.permission_denied named
    else ok tt

-- `a or b` on numbers, and on a nullable one.
abbrev or_number : ℕ → ℕ → ℕ
or_number n m = if n == 0 then m else n

abbrev counted : Option ℕ → ℕ
counted none = 0
counted (some n) = n

module _ (f : FloatOps) (cluster : ClusterConfig) (now : ℕ) where
  unfoldable pub preflight :
      TransferDispatcher → Principal → Owner → Bool → Text → Text → Text → Text → Exec Plan
  unfolding source_storage live_fileset check_owner writable_target relative_path
  preflight dispatcher actor owner is_admin fileset_storage_id name target_id target_path = do
    lift (source_storage cluster target_id)
    found ← reads (live_fileset owner.user fileset_storage_id name)
    fileset ← lift (or_absent fileset_storage_id name found)
    lift (check_owner actor is_admin fileset)
    target ← lift (dispatcher.probe target_id owner target_path)
    lift (writable_target target_id target_path target)
    measured ← lift (dispatcher.probe fileset_storage_id owner (relative_path fileset))
    pure (record {
      fileset = fileset;
      source_reference = reference fileset_storage_id name;
      target_reference = reference target_id target_path;
      path = target.path;
      route = record { source = fileset_storage_id; target = target_id };
      bytes_total = or_number measured.bytes_total fileset.used_bytes;
      file_count = or_number measured.file_count (counted fileset.file_count);
    })

  -- The `keep` of the audit's detail is left out.
  unfoldable pub submit_flush : Principal → Owner → Plan → Bool → Exec Transfer
  unfolding check_queue_length new_transfer record_event charge
  submit_flush actor owner plan keep = do
    decision ← reads (check_queue_length cluster owner.user)
    audited_refusal
        (λ refusal.
          record_event now actor owner.user "transfer" plan.source_reference "flush"
            (some refusal.code) refusal.details)
        decision
    transfer_id ← reads (λ db. db.next_transfer)
    let transfer =
        new_transfer TransferKind.flush transfer_id now owner.user plan.fileset.id
          plan.target_reference plan.route plan.bytes_total (not keep)
    writes (add_transfer transfer)
    flushing ← lift (next_fileset_state plan.fileset.state FilesetState.flushing)
    writes (put_fileset (record plan.fileset { state = flushing }))
    commit
    charge f now owner.user
        (points_for_bytes f TransferKind.flush plan.bytes_total cluster.points_per_gib)
        cluster.half_life
    record_event now actor owner.user "transfer" (digits_of transfer.id) "flush" none
        (("source", text plan.source_reference) ∷ ("target", text plan.target_reference) ∷ [])
    commit
    pure transfer
