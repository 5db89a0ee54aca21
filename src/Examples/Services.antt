-- ===== src/Examples/Services.antt =====
-- The theorems on the services at work on concrete rows.
use stashd.Prelude.{◌≤◌, ◌≡◌, ◌↔◌, ◌⊎◌, refl, arith, [], max, codes, true, false, none, some}
use stashd.Domain.Errors.{ErrorCode, ok, is_err}
use stashd.Domain.Filesets.{next_fileset_state}
use stashd.Domain.Transfers.{
  TransferKind, TransferState, next_transfer_state, failure_of, should_retry, is_backwards,
}
use stashd.Models.{Transfer}
use stashd.Session.{after, outcome, ◌>>=◌, reads, writes, lift, commit, pure}
use stashd.Services.Admitting.{storage_allocated, cache_storage}
use stashd.Services.Releases.{perform_release, location_of}
use stashd.Services.Releases.Reservation.{perform_release-keeps-storage_allocated}
use stashd.Services.Releases.Confirmed.{AllReleased, perform_release-confirmed}
use stashd.Services.Filesets.{create_output_fileset}
use stashd.Services.Filesets.Capacity.{fillable, create_output_fileset-within}
use stashd.Services.Events.{Event, EventKind, ignored, report}
use stashd.Services.Events.Reports.{
  Early, Ended, Requeued, report-Recorded, report-ignored, report-transfer_ok, report_refused_iff,
}
use stashd.Models.{Db}
use stashd.Prelude.{[], ◌∷◌}
use stashd.Services.Events.{apply_event}
use stashd.Services.Dispatching.{TransferEndpoint}
use stashd.Services.Accounting.{record_event}
use stashd.Config.{storage, has_role}
use stashd.Domain.Routes.{route_text}
use stashd.Session.Rows.{transfer_ok, constraints_hold}
use stashd.Examples.{
  hundredths, nvme, cluster, ada, ada_owner, data_set, warm, db, store, stuck_store, broken,
}

abbrev released_transfer : Transfer
released_transfer = record warm {
  id = 2;
  kind = TransferKind.release;
  peer_ref = none;
  state = TransferState.succeeded;
  route = codes "NVME->NVME";
  bytes_total = 0;
  bytes_done = 0;
  executing_daemon_id = none;
  bwlimit_bytes_per_s = none;
  last_sequence = 0;
  task_id = none;
  submitted_at = 10;
  started_at = some 10;
  finished_at = some 10;
}

abbrev broken_warm : Transfer
broken_warm = record warm {
  state = TransferState.submitted;
  last_sequence = 4;
  bytes_done = 120;
  attempt = 2;
  task_id = none;
  retry_after = some 50;
  error_code = some (codes "network");
}

abbrev assigned_warm : Transfer
assigned_warm = record warm { state = TransferState.assigned; started_at = none }

abbrev ended : Event
ended = record broken { kind = EventKind.finished; failure = none }

abbrev far_end : TransferEndpoint
far_end = record {
  path = codes "/mnt/ada/run";
  host = some (codes "one");
  user = some (codes "ada");
}

create_output_fileset-within_example :
    storage_allocated (codes "NVME") (
      after
        (create_output_fileset hundredths cluster 10 store ada ada_owner
          (codes "NVME")
          (codes "out")
          400)
        db)
    ≤ max (storage_allocated (codes "NVME") db) (fillable hundredths nvme)
unfolding cache_storage storage has_role
create_output_fileset-within_example =
    create_output_fileset-within hundredths cluster 10 store ada ada_owner (codes "out") 400 nvme db
      (omega arith, tt) refl

perform_release-keeps-storage_allocated_example :
    storage_allocated (codes "NVME") (after (perform_release 10 stuck_store ada data_set) db)
    ≡ storage_allocated (codes "NVME") db
perform_release-keeps-storage_allocated_example =
    perform_release-keeps-storage_allocated 10 stuck_store ada data_set
      (record { code = ErrorCode.daemon_unavailable; details = [] }) (codes "NVME") db
      (λ _. refl, tt) refl

perform_release-confirmed_example :
    (store.delete 1 (location_of data_set) ≡ ok tt)
    × ((released_transfer.state ≡ TransferState.succeeded)
        × AllReleased 1 (after (perform_release 10 store ada data_set) db).filesets)
unfolding outcome perform_release ◌>>=◌ reads writes lift commit constraints_hold pure location_of
    record_event next_transfer_state next_fileset_state route_text
perform_release-confirmed_example =
    perform_release-confirmed 10 store ada data_set db released_transfer refl

report-Recorded_example :
    (broken_warm.id ≡ warm.id)
    × (broken_warm.last_sequence ≡ broken.sequence)
    × (((true ≡ false) × Ended broken warm broken_warm)
        ⊎ ((true ≡ true) × Requeued cluster broken warm broken_warm))
unfolding report next_transfer_state failure_of should_retry
report-Recorded_example = report-Recorded cluster 20 broken warm broken_warm true refl

report-ignored_example : ignored broken broken_warm ≡ true
unfolding report next_transfer_state failure_of should_retry
report-ignored_example = report-ignored cluster 20 broken warm broken_warm true refl

report-transfer_ok_example : transfer_ok broken_warm ≡ true
unfolding report transfer_ok next_transfer_state failure_of should_retry
report-transfer_ok_example =
    report-transfer_ok cluster 20 broken warm broken_warm true refl (omega arith) refl

-- The report that a transfer ended, of one whose start was never reported.
abbrev waiting : Db
waiting = record db { transfers = assigned_warm ∷ [] }

report_refused_iff_example :
    ((is_err (report cluster 20 ended assigned_warm) ≡ true) ↔ Early ended assigned_warm)
    × (Early ended assigned_warm
        → (is_err (outcome (apply_event cluster 20 hundredths (some store) ended) waiting) ≡ true)
          × (after (apply_event cluster 20 hundredths (some store) ended) waiting ≡ waiting))
unfolding ignored is_backwards
report_refused_iff_example =
    report_refused_iff cluster 20 hundredths (some store) ended assigned_warm waiting refl refl
