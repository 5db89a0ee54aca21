-- ===== src/Domain/Transfers/Lifecycle.antt =====
-- The transfer state machine of domain/transfers.py: ranks, terminal states and retries.
use stashd.Prelude.{ℕ, ◌≤◌, ◌<◌, ◌≡◌, ◌≢◌, ◌⊎◌, ◌↔◌, true, List, any, arith}
use stashd.Domain.Errors.{ok}
use stashd.Domain.Transfers.{
  FailureClass, TransferState, submitted, assigned, failed, rank, is_failure, next_transfer_state,
  is_terminal, can_cancel, should_retry,
}

-- A transition moves forwards in rank, or it puts an assigned or failed transfer back in the queue.
pub next_forwards :
    (s t : TransferState)
    → next_transfer_state s t ≡ ok t
    → (rank s < rank t) ⊎ ((t ≡ submitted) × ((s ≡ assigned) ⊎ (s ≡ failed)))
unfolding next_transfer_state rank
next_forwards s t e = ground arith

-- A terminal state is left only by a retry, from `failed` to `submitted`.
pub terminal_left_by_retry :
    (s t : TransferState)
    → next_transfer_state s t ≡ ok t
    → is_terminal s ≡ true
    → (s ≡ failed) × (t ≡ submitted)
unfolding next_transfer_state is_terminal
terminal_left_by_retry s t e h = ground arith

-- A state can be cancelled exactly when the transition to `cancelled` is there.
pub cancel_allowed :
    (s : TransferState)
    → (can_cancel s ≡ true)
      ↔ (next_transfer_state s TransferState.cancelled ≡ ok TransferState.cancelled)
unfolding next_transfer_state can_cancel
cancel_allowed s = (λ h. ground arith, λ h. ground arith)

-- A permission, quota, missing-source or cancelled failure is never retried, whatever the config
-- lists; any other is retried exactly when it is listed and an attempt is left.
pub should_retry_iff :
    (f : FailureClass) (attempt count : ℕ) (retry_on : List FailureClass)
    → (should_retry f attempt count retry_on ≡ true) ↔ (
        (f ≢ FailureClass.permission_denied)
        × (f ≢ FailureClass.quota_exceeded)
        × (f ≢ FailureClass.source_missing)
        × (f ≢ FailureClass.cancelled)
        × (any (is_failure f) retry_on ≡ true)
        × (attempt ≤ count))
unfolding should_retry
should_retry_iff f attempt count retry_on = (λ h. ground arith, λ h. ground arith)
