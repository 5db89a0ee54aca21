-- ===== src/Api/Passes.antt =====
-- api/app.py: the passes that a controller makes by itself. Each has a session of its own. A loop that
-- waits and repeats a pass is a list of passes; what they raise is caught by the loops.
pub mod Reserved
use stashd.Prelude.{ℕ, Text, Bool, true, false, List, [], ◌∷◌, length, Option, none, some}
use stashd.Domain.Errors.{Result, ok, err}
use stashd.Domain.Floats.{FloatOps}
use stashd.Domain.Scheduling.{Dispatch}
use stashd.Config.{ClusterConfig}
use stashd.Models.{Db}
use stashd.Session.{Session, Exec, ◌>>=◌, pure, rollback, after}
use stashd.Services.Dispatching.{TransferDispatcher}
use stashd.Services.Reconciling.{reconcile}
use stashd.Services.Scheduler.{schedule_once}
use stashd.Services.Usage.{UsageSource, reconcile_storage}
use stashd.Services.Retention.{prune}

-- What a pass reads of `app.state`; `sessions` is whether there is a database.
pub record Parts : Type 0 where
  pub sessions : Bool
  pub cluster : Option ClusterConfig
  pub dispatcher : Option TransferDispatcher
  pub usage : Option UsageSource

-- A pass that needs the config and the daemons.
abbrev pub with_daemons : Parts → (ClusterConfig → TransferDispatcher → Exec ℕ) → Exec ℕ
with_daemons parts pass = elim parts.sessions [
  | false ↦ pure 0
  | true ↦ elim parts.dispatcher [
    | none ↦ pure 0
    | some dispatcher ↦ elim parts.cluster [
      | none ↦ pure 0
      | some cluster ↦ pass cluster dispatcher
    ]
  ]
]

-- The end of a session that raised, with the answer 0.
abbrev pub or_zero : Result ℕ × Session → Result ℕ × Session
or_zero (ok n, s) = (ok n, s)
or_zero (err e, s) = (ok 0, rollback s)

module _ (f : FloatOps) where
  unfoldable pub reconcile_transfers : Parts → ℕ → Exec ℕ
  unfolding reconcile
  reconcile_transfers parts now =
      with_daemons parts (λ cluster dispatcher. reconcile f cluster dispatcher now)

  abbrev pub counted : Exec (List Dispatch) → Exec ℕ
  counted m = m >>= λ started. pure (length started)

  -- `schedule`; whether the scheduler's lock was free is an argument.
  unfoldable pub schedule : Parts → ℕ → Bool → Exec ℕ
  unfolding schedule_once
  schedule parts now free =
      with_daemons parts
        (λ cluster dispatcher. counted (schedule_once f cluster dispatcher now free))

-- `reconcile_usage`: a daemon that cannot answer is left for the next pass. What the commit raises
-- reaches the loop, which catches it too.
unfoldable pub reconcile_usage : Parts → ℕ → Text → Exec ℕ
unfolding reconcile_storage
reconcile_usage parts now storage_id s = elim parts.sessions [
  | false ↦ pure 0 s
  | true ↦ elim parts.usage [
    | none ↦ pure 0 s
    | some usage ↦ or_zero (reconcile_storage now storage_id usage s)
  ]
]

unfoldable pub prune_old_rows : Parts → ℕ → Exec ℕ
unfolding prune
prune_old_rows parts now = elim parts.sessions [
  | false ↦ pure 0
  | true ↦ elim parts.cluster [ none ↦ pure 0 | some cluster ↦ prune cluster now ]
]
