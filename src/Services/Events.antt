-- ===== src/Services/Events.antt =====
-- services/events.py: applying what a daemon reports about a transfer.
pub mod Retrying
pub mod Reports
pub mod Reservation
use stashd.Prelude.{
  ℕ, ◌+◌, min, Text, Bool, true, false, not, ◌&&◌, ◌||◌, [], ◌∷◌, leb, ◌==◌, Option, none, some,
  if◌then◌else◌,
}
use stashd.Domain.Errors.{ErrorCode, num, Result, ok, err, raise}
use stashd.Domain.Errors
use stashd.Domain.Floats.{FloatOps}
use stashd.Domain.Filesets.{FilesetState, next_fileset_state}
use stashd.Domain.Transfers.{
  TransferState, FailureClass, failure_of, is_state, is_flush, next_transfer_state, is_backwards,
  should_retry,
}
use stashd.Domain.Fairshare.{points_for_bytes}
use stashd.Config.{ClusterConfig}
use stashd.Models.{Fileset, Transfer, Db}
use stashd.Session.{Exec, ◌>>=◌, ◌>>◌, pure, lift, reads, writes, commit}
use stashd.Session.Rows.{get_transfer, get_fileset, put_transfer, put_fileset}
use stashd.Services.Accounting.{charge}
use stashd.Services.Releases.{FilesetStore, perform_release}

-- The kinds that schemas/internal.py lets through.
pub data EventKind : Type 0 where
  started progress finished failed : EventKind

pub record Event : Type 0 where
  pub transfer_id : ℕ
  pub sequence : ℕ
  pub kind : EventKind
  pub daemon_id : Text
  pub at : ℕ
  pub bytes_done : ℕ
  pub files_done : ℕ
  pub failure : Option Text

abbrev pub target_state : EventKind → TransferState
target_state started = TransferState.running
target_state progress = TransferState.running
target_state finished = TransferState.succeeded
target_state failed = TransferState.failed

abbrev pub is_started : EventKind → Bool
is_started started = true
is_started _ = false

abbrev pub is_finished : EventKind → Bool
is_finished finished = true
is_finished _ = false

abbrev pub is_failed : EventKind → Bool
is_failed failed = true
is_failed _ = false

abbrev or_else {ℓ} : {A : Type ℓ} → Option A → A → A
or_else none a = a
or_else (some b) a = b

-- The two guards: a report that is not newer, or that would move the transfer backwards.
unfoldable pub ignored : Event → Transfer → Bool
ignored event transfer =
    leb event.sequence transfer.last_sequence
    || is_backwards transfer.state (target_state event.kind)
      && not (is_state transfer.state (target_state event.kind))

abbrev pub moved : TransferState → TransferState → Result TransferState
moved current target =
    if is_state current target then ok target else next_transfer_state current target

-- The fields of the transfer that a report sets.
unfoldable pub absorb : Event → Transfer → TransferState → Transfer
absorb event transfer state = record transfer {
  last_sequence = event.sequence;
  state = state;
  started_at =
      if is_started event.kind
      then some (or_else transfer.started_at event.at)
      else transfer.started_at;
  executing_daemon_id =
      if is_started event.kind then some event.daemon_id else transfer.executing_daemon_id;
  bytes_done =
      if event.bytes_done == 0
      then transfer.bytes_done
      else min event.bytes_done
          (if transfer.bytes_total == 0 then event.bytes_done else transfer.bytes_total);
  files_done = if event.files_done == 0 then transfer.files_done else some event.files_done;
  finished_at =
      if is_finished event.kind || is_failed event.kind
      then some event.at
      else transfer.finished_at;
  error_code = if is_failed event.kind then event.failure else transfer.error_code;
}

abbrev pub or_no_transfer : ℕ → Option Transfer → Result Transfer
or_no_transfer id none = raise ErrorCode.not_found (("transfer_id", num id) ∷ [])
or_no_transfer id (some transfer) = ok transfer

module _ (cluster : ClusterConfig) (now : ℕ) where
  abbrev pub retry_class : Transfer → Option FailureClass → Bool
  retry_class transfer none = false
  retry_class transfer (some failure) =
      should_retry failure transfer.attempt cluster.retries.count cluster.retries.retry_on

  -- `_retry`; `str(None)` is no failure class.
  unfoldable pub retries : Transfer → Event → Bool
  retries transfer event = elim event.failure [
    | none ↦ false
    | some t ↦ retry_class transfer (failure_of t)
  ]

  -- `_requeue`: back into the queue, after a wait.
  unfoldable pub requeue : Transfer → Result Transfer
  requeue transfer =
      Errors.◌>>=◌ (next_transfer_state transfer.state TransferState.submitted) λ state.
        ok (record transfer {
          state = state;
          attempt = transfer.attempt + 1;
          retry_after = some (now + cluster.retries.backoff);
          finished_at = none;
          task_id = none;
        })

  -- The transfer after the report, and whether it will be retried.
  unfoldable pub report : Event → Transfer → Result (Transfer × Bool)
  unfolding absorb retries requeue
  report event transfer = Errors.◌>>=◌ (moved transfer.state (target_state event.kind)) λ state.
      let reported = absorb event transfer state in
      if is_failed event.kind && retries reported event
      then Errors.◌>>=◌ (requeue reported) (λ again. ok (again, true))
      else ok (reported, false)

  -- `_apply_to_fileset`.
  unfoldable pub apply_to_fileset : Event → Transfer → Bool → Fileset → Result Fileset
  apply_to_fileset event transfer retrying fileset =
      let seen = record fileset { last_transfer_id = some transfer.id } in
      let flushed = λ (state : FilesetState). record seen {
        state = state;
        last_flushed_at = some event.at;
        last_flush_target = transfer.peer_ref;
      } in
      let filled = λ (state : FilesetState). record seen {
        state = state;
        warm_finished_at = some event.at;
        used_bytes = transfer.bytes_done;
        used_bytes_at = some now;
        file_count = elim transfer.files_done [
          | none ↦ fileset.file_count
          | some n ↦ (if n == 0 then fileset.file_count else some n)
        ];
      } in
      if is_finished event.kind
      then Errors.◌>>=◌ (next_fileset_state fileset.state FilesetState.ready)
          (λ state. ok (if is_flush transfer.kind then flushed state else filled state))
      else if is_failed event.kind && not retrying
      then Errors.◌>>=◌ (next_fileset_state fileset.state FilesetState.failed)
          (λ state. ok (record seen { state = state }))
      else ok seen

  -- `_releases_now`.
  unfoldable pub releases_now : Transfer → Event → Bool
  releases_now transfer event =
      is_flush transfer.kind && is_finished event.kind && transfer.release_after

  -- `_refund`: only for a transfer that never ran.
  unfoldable pub refund : FloatOps → Transfer → Exec (Unit {0})
  refund f transfer = elim transfer.started_at [
    | some t ↦ pure tt
    | none ↦
        charge f now transfer.user
          (f.neg (points_for_bytes f transfer.kind transfer.bytes_total cluster.points_per_gib))
          cluster.half_life
  ]

  -- An error of the release is logged and dropped: the flush succeeded.
  abbrev swallow : {A : Type 0} → Exec A → Exec (Unit {0})
  swallow m s = (ok tt, (m s).1)

  unfoldable pub release_after_flush : FilesetStore → Fileset → Exec (Unit {0})
  unfolding perform_release
  release_after_flush store fileset = swallow (
      perform_release now store
        (record {
          uid = fileset.owner_uid;
          gid = fileset.owner_gid;
          username = fileset.owner_user;
          groups = [];
          gids = [];
        })
        fileset)

  abbrev pub touch : Event → Transfer → Bool → Option Fileset → Result (Option Fileset)
  touch event transfer retrying none = ok none
  touch event transfer retrying (some fileset) =
      Errors.◌>>=◌ (apply_to_fileset event transfer retrying fileset) (λ g. ok (some g))

  abbrev pub put_found : Option Fileset → Db → Db
  put_found none db = db
  put_found (some fileset) db = put_fileset fileset db

  abbrev pub release_found : Option FilesetStore → Option Fileset → Bool → Exec (Unit {0})
  release_found (some store) (some fileset) true = release_after_flush store fileset
  release_found (some store) (some fileset) false = pure tt
  release_found (some store) none b = pure tt
  release_found none o b = pure tt

  -- What is done with a report that is neither old nor backwards.
  unfoldable pub accept_event : FloatOps → Option FilesetStore → Event → Transfer → Exec Transfer
  unfolding report apply_to_fileset releases_now refund release_after_flush
  accept_event f store event transfer = do
    outcome ← lift (report event transfer)
    found ← reads (get_fileset outcome.0.fileset_id)
    fileset ← lift (touch event outcome.0 outcome.1 found)
    writes (λ db. put_found fileset (put_transfer outcome.0 db))
    (if is_failed event.kind && not outcome.1 then refund f outcome.0 else pure tt)
    commit
    release_found store fileset (releases_now outcome.0 event)
    pure outcome.0

  -- `apply_event`: whether the report was applied, and the transfer.
  unfoldable pub apply_event : FloatOps → Option FilesetStore → Event → Exec (Bool × Transfer)
  unfolding ignored accept_event
  apply_event f store event = do
    found ← reads (get_transfer event.transfer_id)
    transfer ← lift (or_no_transfer event.transfer_id found)
    if ignored event transfer
        then pure (false, transfer)
        else do applied ← accept_event f store event transfer; pure (true, applied)
