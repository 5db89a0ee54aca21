-- ===== src/Daemon/Runner.antt =====
-- tasks/threaded.py, tasks/execute.py and clients/events.py: the transfers a daemon runs beside its
-- requests. An action is what one thread does between two points where another may come in; what the
-- engine makes of a transfer is part of the action. Whether a report is delivered is left open.
pub mod Sequences
use stashd.Prelude.{
  ℕ, ◌+◌, Bool, true, false, not, ◌&&◌, List, [], ◌∷◌, map, find_first, Option, none, some, ◌==◌,
  if◌then◌else◌,
}
use stashd.Domain.Errors.{ErrorCode, Result, ok, raise}
use stashd.Domain.Transfers.{FailureClass}
use stashd.Services.Events.{EventKind}

-- The words of `TaskProgress.state`.
pub data TaskState : Type 0 where
  submitted running succeeded failed : TaskState

pub record TaskProgress : Type 0 where
  pub transfer_id : ℕ
  pub state : TaskState
  pub bytes_done : ℕ
  pub files_done : ℕ
  pub failure : Option FailureClass

-- A report as `HttpEventReporter.report` sends it.
pub record Report : Type 0 where
  pub transfer_id : ℕ
  pub sequence : ℕ
  pub kind : EventKind
  pub failure : Option FailureClass

-- Where the thread of a task stands: in the pool's queue; past its first report; in the engine; with
-- the end it has still to report; at its end.
pub data Phase : Type 0 where
  queued announced working : Phase
  ending : EventKind → Option FailureClass → Phase
  done : Phase

pub record Thread : Type 0 where
  pub task_id : ℕ
  pub transfer_id : ℕ
  pub phase : Phase

-- `_states`, `_futures`, `_ids` and `_accepting` of the runner, `_sequences` of the reporter, and
-- the reports, newest first.
pub record Runner : Type 0 where
  pub accepting : Bool
  pub next_id : ℕ
  pub states : List (ℕ × TaskProgress)
  pub threads : List Thread
  pub sequences : List (ℕ × ℕ)
  pub log : List Report

abbrev pub idle_runner : Runner
idle_runner = record {
  accepting = true;
  next_id = 1;
  states = [];
  threads = [];
  sequences = [];
  log = [];
}

-- `next(self._sequences.setdefault(transfer_id, count(1)))`: the count so far, from 0.
unfoldable pub sequence_of : ℕ → List (ℕ × ℕ) → ℕ
sequence_of transfer_id [] = 0
sequence_of transfer_id ((t, n) ∷ more) =
    let rest = sequence_of transfer_id more in if t == transfer_id then n else rest

-- `HttpEventReporter.report`.
unfoldable pub send : ℕ → EventKind → Option FailureClass → Runner → Runner
unfolding sequence_of
send transfer_id kind failure r =
    let sequence = sequence_of transfer_id r.sequences + 1 in
    record r {
      sequences = (transfer_id, sequence) ∷ r.sequences;
      log =
          record { transfer_id = transfer_id; sequence = sequence; kind = kind; failure = failure }
          ∷ r.log;
    }

-- `_set`: the newest entry of a task counts.
abbrev pub set_state : ℕ → TaskProgress → Runner → Runner
set_state task_id progress r = record r { states = (task_id, progress) ∷ r.states }

abbrev pub plain_progress : ℕ → TaskState → Option FailureClass → TaskProgress
plain_progress transfer_id state failure = record {
  transfer_id = transfer_id;
  state = state;
  bytes_done = 0;
  files_done = 0;
  failure = failure;
}

abbrev pub set_phase : ℕ → Phase → Runner → Runner
set_phase task_id phase r = record r {
  threads = map (λ t. if t.task_id == task_id then record t { phase = phase } else t) r.threads;
}

-- `submit`; `none` where the daemon is draining.
unfoldable pub submit : ℕ → Runner → Result (ℕ × Runner)
submit transfer_id r =
    if r.accepting
    then ok (
      r.next_id,
      record r {
        next_id = r.next_id + 1;
        states = (r.next_id, plain_progress transfer_id submitted none) ∷ r.states;
        threads =
            record { task_id = r.next_id; transfer_id = transfer_id; phase = queued } ∷ r.threads;
      },
    )
    else raise ErrorCode.daemon_unavailable []

-- What the engine made of a transfer; a crash is an exception in `execute_transfer`.
pub data Outcome : Type 0 where
  transferred : ℕ → ℕ → Outcome
  stopped : ℕ → ℕ → FailureClass → Outcome
  crashed : Outcome

-- What is set, and what is reported, at the end of a task.
abbrev pub end_state : ℕ → Outcome → TaskProgress
end_state transfer_id (transferred bytes files) = record {
  transfer_id = transfer_id;
  state = succeeded;
  bytes_done = bytes;
  files_done = files;
  failure = none;
}
end_state transfer_id (stopped bytes files failure) = record {
  transfer_id = transfer_id;
  state = failed;
  bytes_done = bytes;
  files_done = files;
  failure = some failure;
}
end_state transfer_id crashed = plain_progress transfer_id failed none

abbrev pub end_phase : Outcome → Phase
end_phase (transferred bytes files) = ending EventKind.finished none
end_phase (stopped bytes files failure) = ending EventKind.failed (some failure)
end_phase crashed = ending EventKind.failed (some FailureClass.internal)

-- The part of `_run` that comes next for a thread; `moves` is the progress the engine reports, and
-- an outcome its end.
pub data Turn : Type 0 where
  next_part moves : Turn
  comes_to : Outcome → Turn

unfoldable pub take_turn : Turn → Thread → Runner → Runner
unfolding send
take_turn turn thread r = elim thread.phase [
  | queued ↦ set_phase thread.task_id announced (send thread.transfer_id EventKind.started none r)
  | announced ↦
      set_phase thread.task_id working
        (set_state thread.task_id (plain_progress thread.transfer_id running none) r)
  | working ↦ elim turn [
    | next_part ↦ r
    | moves ↦ send thread.transfer_id EventKind.progress none r
    | comes_to outcome ↦
        set_phase thread.task_id (end_phase outcome)
          (set_state thread.task_id (end_state thread.transfer_id outcome) r)
  ]
  | ending kind failure ↦ set_phase thread.task_id done (send thread.transfer_id kind failure r)
  | done ↦ r
]

abbrev pub is_done : Phase → Bool
is_done done = true
is_done _ = false

-- The last loop of `drain`, for one future that is not done.
unfoldable pub cut_off : Thread → Runner → Runner
unfolding send
cut_off thread r =
    if is_done thread.phase
    then r
    else send thread.transfer_id EventKind.failed (some FailureClass.daemon_shutdown) (
        set_state thread.task_id
          (plain_progress thread.transfer_id failed (some FailureClass.daemon_shutdown)) r)

abbrev pub drop_queued : Thread → Thread
drop_queued t = elim t.phase [
  | queued ↦ record t { phase = done }
  | announced ↦ t
  | working ↦ t
  | ending kind failure ↦ t
  | done ↦ t
]

-- An action of one of the threads.
pub data Action : Type 0 where
  submits : ℕ → Action
  takes_turn : Turn → ℕ → Action
  stops_accepting : Action
  cuts_off : ℕ → Action
  -- `self._pool.shutdown(wait=False, cancel_futures=True)`.
  shuts_down : Action

abbrev pub submitted_or_same : Runner → Result (ℕ × Runner) → Runner
submitted_or_same r (ok (id, after)) = after
submitted_or_same r (Result.err e) = r

abbrev pub thread_of : ℕ → Runner → Option Thread
thread_of id r = find_first (λ t. t.task_id == id) r.threads

abbrev pub with_thread : (Thread → Runner → Runner) → Option Thread → Runner → Runner
with_thread f none r = r
with_thread f (some thread) r = f thread r

unfoldable pub act : Action → Runner → Runner
unfolding submit take_turn cut_off
act (submits transfer_id) r = submitted_or_same r (submit transfer_id r)
act (takes_turn turn id) r = with_thread (take_turn turn) (thread_of id r) r
act stops_accepting r = record r { accepting = false }
act (cuts_off id) r = with_thread cut_off (thread_of id r) r
act shuts_down r = record r { threads = map drop_queued r.threads }

unfoldable pub act_all : List Action → Runner → Runner
unfolding act
act_all [] r = r
act_all (a ∷ actions) r = act_all actions (act a r)
