-- ===== src/Domain/Transfers.antt =====
-- domain/transfers.py and domain/failures.py: transfer kinds, states, cancellation and retries.
pub mod Lifecycle
use stashd.Prelude.{
  Text, codes, same, find_first, Option, ℕ, Bool, true, false, not, ◌&&◌, List, [], ◌∷◌, any, ◌==◌,
  leb, if◌then◌else◌,
}
use stashd.Domain.Errors.{ErrorCode, Result, ok, raise}

pub data FailureClass : Type 0 where
  permission_denied source_missing target_missing no_space quota_exceeded : FailureClass
  network timeout cancelled daemon_unreachable daemon_shutdown tool_error : FailureClass
  internal : FailureClass

pub data TransferKind : Type 0 where
  warm flush release : TransferKind

unfoldable pub moves_data : TransferKind → Bool
moves_data release = false
moves_data warm = true
moves_data flush = true

pub data TransferState : Type 0 where
  submitted assigned running succeeded failed cancelled : TransferState

-- The place of a member in its enum, for the identity test `is` and for `in`.
abbrev pub index : TransferState → ℕ
index submitted = 0
index assigned = 1
index running = 2
index succeeded = 3
index failed = 4
index cancelled = 5

abbrev pub is_state : TransferState → TransferState → Bool
is_state s t = index s == index t

abbrev pub failure_index : FailureClass → ℕ
failure_index permission_denied = 0
failure_index source_missing = 1
failure_index target_missing = 2
failure_index no_space = 3
failure_index quota_exceeded = 4
failure_index network = 5
failure_index timeout = 6
failure_index FailureClass.cancelled = 7
failure_index daemon_unreachable = 8
failure_index daemon_shutdown = 9
failure_index tool_error = 10
failure_index internal = 11

-- The value of a member, `str(failure)`.
unfoldable pub failure_text : FailureClass → Text
failure_text permission_denied = codes "permission_denied"
failure_text source_missing = codes "source_missing"
failure_text target_missing = codes "target_missing"
failure_text no_space = codes "no_space"
failure_text quota_exceeded = codes "quota_exceeded"
failure_text network = codes "network"
failure_text timeout = codes "timeout"
failure_text FailureClass.cancelled = codes "cancelled"
failure_text daemon_unreachable = codes "daemon_unreachable"
failure_text daemon_shutdown = codes "daemon_shutdown"
failure_text tool_error = codes "tool_error"
failure_text internal = codes "internal"

failures : List FailureClass
failures =
    permission_denied ∷ source_missing ∷ target_missing ∷ no_space ∷ quota_exceeded ∷ network
    ∷ timeout ∷ FailureClass.cancelled ∷ daemon_unreachable ∷ daemon_shutdown ∷ tool_error
    ∷ internal ∷ []

-- `FailureClass(text)`; `none` where it raises ValueError.
unfoldable pub failure_of : Text → Option FailureClass
unfolding failures failure_text same
failure_of t = find_first (λ c. same (failure_text c) t) failures

abbrev pub is_failure : FailureClass → FailureClass → Bool
is_failure f g = failure_index f == failure_index g

abbrev pub is_flush : TransferKind → Bool
is_flush flush = true
is_flush warm = false
is_flush release = false

abbrev pub is_warm : TransferKind → Bool
is_warm warm = true
is_warm flush = false
is_warm release = false

terminal : List TransferState
terminal = succeeded ∷ failed ∷ TransferState.cancelled ∷ []

transitions : TransferState → List TransferState
transitions submitted = assigned ∷ failed ∷ TransferState.cancelled ∷ []
transitions assigned = running ∷ submitted ∷ failed ∷ TransferState.cancelled ∷ []
transitions running = succeeded ∷ failed ∷ TransferState.cancelled ∷ []
transitions failed = submitted ∷ []
transitions succeeded = []
transitions TransferState.cancelled = []

-- How far a transfer has come.
unfoldable pub rank : TransferState → ℕ
rank submitted = 0
rank assigned = 1
rank running = 2
rank succeeded = 3
rank failed = 3
rank TransferState.cancelled = 3

never_retried : List FailureClass
never_retried = permission_denied ∷ quota_exceeded ∷ source_missing ∷ FailureClass.cancelled ∷ []

unfoldable pub next_transfer_state : TransferState → TransferState → Result TransferState
unfolding transitions
next_transfer_state current target =
    if any (is_state target) (transitions current) then ok target else raise ErrorCode.conflict []

unfoldable pub is_terminal : TransferState → Bool
unfolding terminal
is_terminal state = any (is_state state) terminal

unfoldable pub can_cancel : TransferState → Bool
unfolding is_terminal
can_cancel state = not (is_terminal state)

unfoldable pub is_backwards : TransferState → TransferState → Bool
unfolding rank
is_backwards current target = leb (rank target) (rank current)

unfoldable pub should_retry : FailureClass → ℕ → ℕ → List FailureClass → Bool
unfolding never_retried
should_retry failure attempt count retry_on =
    not (any (is_failure failure) never_retried)
    && any (is_failure failure) retry_on
    && leb attempt count
