-- ===== src/Services/Cancelling.antt =====
-- services/cancel.py: cancelling a transfer.
pub mod Reservation
pub mod Request
use stashd.Prelude.{
  ℕ, Text, digits_of, same, Bool, not, ◌&&◌, [], ◌∷◌, Option, none, some, if◌then◌else◌,
}
use stashd.Domain.Errors.{ErrorCode, Detail, num, text, Result, ok, err, raise, refuse}
use stashd.Domain.Errors
use stashd.Domain.Floats.{FloatOps}
use stashd.Domain.Filesets.{FilesetState, is_state, holds_allocation, next_fileset_state}
use stashd.Domain.Transfers.{
  TransferState, FailureClass, failure_text, can_cancel, next_transfer_state,
}
use stashd.Domain.Routes.{split_route}
use stashd.Domain.Identity.{Principal}
use stashd.Config.{ClusterConfig}
use stashd.Models.{Fileset, Transfer}
use stashd.Session.{Exec, ◌>>=◌, ◌>>◌, pure, lift, reads, writes, commit}
use stashd.Session.Rows.{get_transfer, get_fileset, put_transfer, put_fileset}
use stashd.Services.Accounting.{record_event}
use stashd.Services.Events.{refund, or_no_transfer}

-- Who may cancel, and when.
unfoldable pub check_cancel : Principal → Bool → Transfer → Result (Unit {0})
unfolding same
check_cancel actor is_admin transfer =
    if not (same transfer.user actor.username) && not is_admin
    then raise ErrorCode.forbidden (("user", text transfer.user) ∷ [])
    else if not (can_cancel transfer.state)
    then raise ErrorCode.conflict []
    else ok tt

-- `_leave_fileset_failed` on the fileset's row.
unfoldable pub leave_failed : Transfer → Fileset → Result Fileset
leave_failed transfer fileset =
    if not (holds_allocation fileset.state)
    then ok fileset
    else if is_state fileset.state FilesetState.failed
    then ok (record fileset { last_transfer_id = some transfer.id })
    else Errors.◌>>=◌ (next_fileset_state fileset.state FilesetState.failed)
        λ state. ok (record fileset { state = state; last_transfer_id = some transfer.id })

abbrev pub leave_found : Transfer → Option Fileset → Exec (Unit {0})
leave_found transfer none = pure tt
leave_found transfer (some fileset) = do
  left ← lift (leave_failed transfer fileset)
  writes (put_fileset left)

-- `_stop_on_daemon`: the daemon is asked to stop where the transfer has a task, and an answer that
-- is an error is only logged. It changes no row, so what is kept is the call that is made.
unfoldable pub stop_on_daemon : Transfer → Option (Text × Text)
stop_on_daemon transfer = elim transfer.task_id [
  | none ↦ none
  | some task ↦ (elim (split_route transfer.route) [
    | none ↦ some (transfer.route, task)
    | some (source, target) ↦ some (source, task)
  ])
]

module _ (f : FloatOps) (cluster : ClusterConfig) (now : ℕ) where
  -- The row after a cancellation.
  unfoldable pub cancelled_row : Transfer → Result Transfer
  cancelled_row transfer =
      Errors.◌>>=◌ (next_transfer_state transfer.state TransferState.cancelled) λ state.
        ok (record transfer {
          state = state;
          finished_at = some now;
          error_code = some (failure_text FailureClass.cancelled);
        })

  -- `cancel_transfer`, with the call made to the daemon beside the row.
  unfoldable pub cancel_transfer : Principal → Bool → ℕ → Exec (Transfer × Option (Text × Text))
  unfolding check_cancel cancelled_row leave_failed stop_on_daemon
  cancel_transfer actor is_admin transfer_id = do
    found ← reads (get_transfer transfer_id)
    transfer ← lift (or_no_transfer transfer_id found)
    lift (check_cancel actor is_admin transfer)
    stopped ← lift (cancelled_row transfer)
    writes (put_transfer stopped)
    fileset ← reads (get_fileset stopped.fileset_id)
    leave_found stopped fileset
    refund cluster now f stopped
    record_event now actor transfer.user "transfer" (digits_of transfer.id) "cancel" none []
    commit
    pure (stopped, stop_on_daemon transfer)
