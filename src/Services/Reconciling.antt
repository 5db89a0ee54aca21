-- ===== src/Services/Reconciling.antt =====
-- services/reconcile.py: bringing what is in flight up to date after a restart.
use stashd.Prelude.{
  ℕ, ◌+◌, Text, same, codes, Bool, true, false, List, [], ◌∷◌, select, ltb, Option, none, some,
  ◌||◌, if◌then◌else◌,
}
use stashd.Domain.Errors.{Result, ok, err}
use stashd.Domain.Floats.{FloatOps}
use stashd.Domain.Transfers.{TransferState, is_state, next_transfer_state}
use stashd.Domain.Routes.{split_route}
use stashd.Config.{ClusterConfig}
use stashd.Models.{Transfer}
use stashd.Session.{Exec, ◌>>=◌, ◌>>◌, pure, lift, reads, writes, commit}
use stashd.Session.Rows.{put_transfer}
use stashd.Services.Events.{EventKind, Event, apply_event}
use stashd.Services.Dispatching.{TaskReport, TransferDispatcher}

-- `FINISHED.get`.
unfoldable pub finished_kind : Text → Option EventKind
unfolding same
finished_kind state =
    if same state (codes "SUCCEEDED")
    then some EventKind.finished
    else if same state (codes "FAILED") || same state (codes "CANCELLED")
    then some EventKind.failed
    else none

abbrev daemon_or_empty : Option Text → Text
daemon_or_empty none = []
daemon_or_empty (some d) = d

-- The event made from what the daemon says of the task.
unfoldable pub adopted_event : ℕ → Transfer → EventKind → TaskReport → Event
adopted_event now transfer kind found = record {
  transfer_id = transfer.id;
  sequence = transfer.last_sequence + 1;
  kind = kind;
  daemon_id = daemon_or_empty transfer.executing_daemon_id;
  at = now;
  bytes_done = found.bytes_done;
  files_done = found.files_done;
  failure = found.failure;
}

unfoldable pub unreachable_event : ℕ → Transfer → Event
unreachable_event now transfer = record {
  transfer_id = transfer.id;
  sequence = transfer.last_sequence + 1;
  kind = EventKind.failed;
  daemon_id = daemon_or_empty transfer.executing_daemon_id;
  at = now;
  bytes_done = 0;
  files_done = 0;
  failure = some (codes "daemon_unreachable");
}

abbrev pub since : Transfer → ℕ
since transfer = elim transfer.started_at [ none ↦ transfer.submitted_at | some at ↦ at ]

-- `split("->", 1)[0]`: the whole route where it has no arrow.
abbrev pub source_of : Transfer → Text
source_of transfer = elim (split_route transfer.route) [
  | none ↦ transfer.route
  | some (source, target) ↦ source
]

module _ (f : FloatOps) (cluster : ClusterConfig) (dispatcher : TransferDispatcher) (now : ℕ) where
  -- `_give_up_or_wait`: the age is under the grace period.
  unfoldable pub give_up_or_wait : Transfer → Exec Bool
  unfolding apply_event unreachable_event
  give_up_or_wait transfer =
      if ltb now (since transfer + cluster.daemon_unreachable)
      then pure false
      else do apply_event cluster now f none (unreachable_event now transfer); pure true

  abbrev pub adopt : Transfer → Option EventKind → TaskReport → Exec Bool
  adopt transfer none found = pure false
  adopt transfer (some kind) found = do
    apply_event cluster now f none (adopted_event now transfer kind found)
    pure true

  abbrev pub answered : Transfer → Result TaskReport → Exec Bool
  answered transfer (err unreachable) = give_up_or_wait transfer
  answered transfer (ok found) = adopt transfer (finished_kind found.state) found

  abbrev pub requeued : Transfer → Exec Bool
  requeued transfer = do
    state ← lift (next_transfer_state transfer.state TransferState.submitted)
    writes (put_transfer (record transfer { state = state }))
    commit
    pure true

  -- `_reconcile_one`.
  unfoldable pub reconcile_one : Transfer → Exec Bool
  unfolding give_up_or_wait apply_event finished_kind adopted_event
  reconcile_one transfer = elim transfer.task_id [
    | none ↦ requeued transfer
    | some task ↦ answered transfer (dispatcher.task_state (source_of transfer) task)
  ]

  unfoldable pub reconcile_all : List Transfer → Exec ℕ
  unfolding reconcile_one
  reconcile_all [] = pure 0
  reconcile_all (t ∷ ts) =
      let rest = reconcile_all ts in
      do changed ← reconcile_one t; n ← rest; pure (if changed then n + 1 else n)

  -- `reconcile`: how many transfers changed.
  unfoldable pub reconcile : Exec ℕ
  unfolding reconcile_all
  reconcile = do
    rows ← reads (λ db.
        select
          (λ t. is_state t.state TransferState.assigned || is_state t.state TransferState.running)
          db.transfers)
    reconcile_all rows
