-- ===== src/Api/Transfers.antt =====
-- api/public/transfers.py: submitting a transfer and stopping one. The rows that `to_wire` prints
-- are the results themselves; `list_transfers` and `get_transfer` are reads and are left out.
pub mod Guarded
use stashd.Prelude.{ℕ, Text, Bool, true, false, Option, none, some, if◌then◌else◌}
use stashd.Domain.Errors.{Result}
use stashd.Domain.Floats.{FloatOps}
use stashd.Domain.Transfers.{TransferKind}
use stashd.Domain.Routes.{Route, route_text}
use stashd.Domain.Identity.{Principal}
use stashd.Config.{ClusterConfig}
use stashd.Models.{Transfer}
use stashd.Session.{Exec, ◌>>=◌, ◌>>◌, pure, lift}
use stashd.Services.Releases.{Owner, FilesetStore, release_fileset}
use stashd.Services.Dispatching.{TransferDispatcher}
use stashd.Services.Warming.{eta}
use stashd.Services.Warming.Submitting
use stashd.Services.Warming.Submitting.{submit_warm}
use stashd.Services.Flushing
use stashd.Services.Flushing.{submit_flush}
use stashd.Services.Cancelling
use stashd.Api.Access.{subject_owner, caller_is_admin, wanted_user}

pub record FilesetRef : Type 0 where
  pub storage : Text
  pub fileset : Text

pub record PathRef : Type 0 where
  pub storage : Text
  pub path : Text

pub record SubmitRelease : Type 0 where
  pub target : FilesetRef
  pub discard : Bool
  pub user : Option Text

pub record SubmitWarm : Type 0 where
  pub source : PathRef
  pub target : FilesetRef
  pub size_bytes : Option ℕ
  pub refresh : Bool
  pub dry_run : Bool
  pub user : Option Text

pub record SubmitFlush : Type 0 where
  pub source : FilesetRef
  pub target : PathRef
  pub keep : Bool
  pub dry_run : Bool
  pub user : Option Text

pub data Submit : Type 0 where
  release : SubmitRelease → Submit
  warm : SubmitWarm → Submit
  flush : SubmitFlush → Submit

-- What a dry run answers.
pub record Preflight : Type 0 where
  pub kind : TransferKind
  pub source : Text
  pub target : Text
  pub path : Text
  pub route : Text
  pub bytes_total : ℕ
  pub file_count : ℕ
  pub allocation_bytes : ℕ
  pub refresh : Bool
  pub estimated_start_seconds : ℕ
  pub estimated_duration_seconds : ℕ

pub data Answer : Type 0 where
  submitted : Transfer → Answer
  previewed : Preflight → Answer

module _ (f : FloatOps) (cluster : ClusterConfig) (now : ℕ) (by_name : Text → Result Owner)
    (dispatcher : TransferDispatcher) (caller : Principal) where
  -- `_warm`.
  unfoldable pub warm_of : SubmitWarm → Exec Answer
  unfolding subject_owner Submitting.preflight eta submit_warm route_text
  warm_of body = do
    owner ← lift (subject_owner cluster by_name caller body.user)
    plan ←
        Submitting.preflight f cluster now dispatcher owner body.source.storage body.source.path
          body.target.storage body.target.fileset body.size_bytes body.refresh
    let times = eta f cluster plan.route plan.bytes_total plan.queued_ahead_bytes
    if body.dry_run
        then pure (
            Answer.previewed (record {
              kind = TransferKind.warm;
              source = plan.source_reference;
              target = plan.target_reference;
              path = plan.path;
              route = route_text plan.route;
              bytes_total = plan.bytes_total;
              file_count = plan.file_count;
              allocation_bytes = plan.allocation_bytes;
              refresh = plan.refresh;
              estimated_start_seconds = times.0;
              estimated_duration_seconds = times.1;
            }))
        else do
          transfer ←
              submit_warm f cluster now dispatcher caller owner plan body.source.storage
                body.source.path body.target.storage body.target.fileset
          pure (Answer.submitted transfer)

  -- `_flush`.
  unfoldable pub flush_of : SubmitFlush → Exec Answer
  unfolding subject_owner caller_is_admin Flushing.preflight eta submit_flush route_text
  flush_of body = do
    owner ← lift (subject_owner cluster by_name caller body.user)
    plan ←
        Flushing.preflight f cluster now dispatcher caller owner (caller_is_admin caller cluster)
          body.source.storage body.source.fileset body.target.storage body.target.path
    if body.dry_run
        then (let times = eta f cluster plan.route plan.bytes_total 0 in
            pure (
              Answer.previewed (record {
                kind = TransferKind.flush;
                source = plan.source_reference;
                target = plan.target_reference;
                path = plan.path;
                route = route_text plan.route;
                bytes_total = plan.bytes_total;
                file_count = plan.file_count;
                allocation_bytes = 0;
                refresh = false;
                estimated_start_seconds = times.0;
                estimated_duration_seconds = times.1;
              })))
        else do
          transfer ← submit_flush f cluster now caller owner plan body.keep
          pure (Answer.submitted transfer)

  unfoldable pub submit_transfer : FilesetStore → Submit → Exec Answer
  unfolding warm_of flush_of release_fileset caller_is_admin wanted_user
  submit_transfer store (Submit.warm body) = warm_of body
  submit_transfer store (Submit.flush body) = flush_of body
  submit_transfer store (Submit.release body) = do
    released ←
        release_fileset now store caller (caller_is_admin caller cluster)
          (wanted_user body.user caller) body.target.storage body.target.fileset body.discard
    pure (Answer.submitted released)

-- The row, and the call that is made to the daemon.
unfoldable pub cancel_transfer :
    FloatOps → ClusterConfig → ℕ → Principal → ℕ → Exec (Transfer × Option (Text × Text))
unfolding Cancelling.cancel_transfer caller_is_admin
cancel_transfer f cluster now caller transfer_id =
    Cancelling.cancel_transfer f cluster now caller (caller_is_admin caller cluster) transfer_id
