-- ===== src/Services/Unattended.antt =====
-- What the controller does by itself keeps the weight of every fileset (services/reconcile.py,
-- scheduler/loop.py, services/usage.py, services/retention.py).
use stashd.Prelude.{
  ℕ, ◌+◌, Text, ◌≡◌, refl, inl, inr, Bool, true, false, Bool-cases, List, [], ◌∷◌, find_first, ltb,
  ◌==◌, Option, none, some,
}
use stashd.Domain.Errors.{Result, ok, err}
use stashd.Domain.Floats.{FloatOps}
use stashd.Domain.Scheduling.{Dispatch}
use stashd.Domain.Transfers.{moves_data}
use stashd.Config.{ClusterConfig}
use stashd.Models.{Fileset, Transfer, Db}
use stashd.Session.Keeps.{
  Keeps, Keeps-pure, Keeps-lift, Keeps-writes, Keeps-commit, Keeps-bind, Keeps-bind-lift,
  Keeps-bind-reads,
}
use stashd.Session.Ledger.{weigh}
use stashd.Session.Profile.{Profile, Profile-map}
use stashd.Services.Keeping.{Keeps-put_transfer}
use stashd.Services.Dispatching.{StartedTask, StartRequest, TaskReport, TransferDispatcher}
use stashd.Services.Events.{EventKind}
use stashd.Services.Events.Reservation.{apply_event-Keeps}
use stashd.Services.Releases.Reservation.{on_storage}
use stashd.Services.Reconciling.{
  give_up_or_wait, since, source_of, adopt, answered, requeued, reconcile_one, reconcile_all,
  reconcile, unreachable_event, adopted_event, finished_kind,
}
use stashd.Services.Scheduler.{
  start_found, ask, hand_over, start, start_planned, start_all, dispatch_waiting, schedule_once,
}
use stashd.Services.Usage.{
  Measured, UsageSource, corrected_by, corrected, measure_rows, correct_all, found_usage,
  is_measured, reconcile_storage,
}
use stashd.Services.Retention.{prune_transfers, prune_audit, prune}

module _ (f : FloatOps) (cluster : ClusterConfig) (dispatcher : TransferDispatcher) (now : ℕ) where
  module _ (st : Text) (w : ℕ → ℕ) (n : ℕ) where
    abbrev Steady : Db → Type 0
    Steady db = Profile (on_storage st) w n db.filesets

    give_up_or_wait-Keeps :
        (t : Transfer) → Keeps Steady (give_up_or_wait f cluster dispatcher now t)
    unfolding give_up_or_wait
    give_up_or_wait-Keeps t = elim (Bool-cases (ltb now (since t + cluster.daemon_unreachable))) [
      | inl e ↦ rw e (Keeps-pure _)
      | inr e ↦ rw e (
          Keeps-bind _ _
            (apply_event-Keeps cluster now (unreachable_event now t) st f none w n (inl refl))
            λ _. Keeps-pure _)
    ]

    adopt-Keeps :
        (t : Transfer) (kind : Option EventKind) (found : TaskReport)
        → Keeps Steady (adopt f cluster dispatcher now t kind found)
    adopt-Keeps t none found = Keeps-pure _
    adopt-Keeps t (some kind) found =
        Keeps-bind _ _
          (apply_event-Keeps cluster now (adopted_event now t kind found) st f none w n (inl refl))
          λ _. Keeps-pure _

    answered-Keeps :
        (t : Transfer) (answer : Result TaskReport)
        → Keeps Steady (answered f cluster dispatcher now t answer)
    answered-Keeps t (err e) = give_up_or_wait-Keeps t
    answered-Keeps t (ok found) = adopt-Keeps t (finished_kind found.state) found

    requeued-Keeps : (t : Transfer) → Keeps Steady (requeued f cluster dispatcher now t)
    requeued-Keeps t = Keeps-bind-lift _ _ λ state moved.
        Keeps-bind _ _ (Keeps-put_transfer (Profile (on_storage st) w n) _)
          λ _. Keeps-bind _ _ Keeps-commit λ _. Keeps-pure _

    reconcile_one-Keeps : (t : Transfer) → Keeps Steady (reconcile_one f cluster dispatcher now t)
    unfolding reconcile_one
    reconcile_one-Keeps t = by_task t.task_id
      where
        by_task :
            (o : Option Text)
            → Keeps {A = Bool} Steady (elim o [
              | none ↦ requeued f cluster dispatcher now t
              | some task ↦
                  answered f cluster dispatcher now t (dispatcher.task_state (source_of t) task)
            ])
        by_task none = requeued-Keeps t
        by_task (some task) = answered-Keeps t (dispatcher.task_state (source_of t) task)

    reconcile_all-Keeps :
        (ts : List Transfer) → Keeps Steady (reconcile_all f cluster dispatcher now ts)
    unfolding reconcile_all
    reconcile_all-Keeps [] = Keeps-pure _
    reconcile_all-Keeps (t ∷ ts) =
        Keeps-bind _ _ (reconcile_one-Keeps t)
          λ _. Keeps-bind _ _ (reconcile_all-Keeps ts) λ _. Keeps-pure _

    pub reconcile-Keeps : Keeps Steady (reconcile f cluster dispatcher now)
    unfolding reconcile
    reconcile-Keeps = Keeps-bind-reads _ _ λ d h. reconcile_all-Keeps _

  -- The scheduler writes transfers only.
  module _ {ℓ} (Q : List Fileset → Type ℓ) where
    hand_over-Keeps :
        (t : Transfer) (limit : Option ℕ) (answer : Result StartedTask)
        → Keeps (λ db. Q db.filesets) (hand_over f cluster dispatcher now t limit answer)
    hand_over-Keeps t limit (err e) = Keeps-pure _
    hand_over-Keeps t limit (ok started) =
        Keeps-bind-lift _ _
          λ assigned e. Keeps-bind _ _ (Keeps-put_transfer Q assigned) λ _. Keeps-pure _

    ask-Keeps :
        (t : Transfer) (limit : Option ℕ) (source : Text) (request : Option StartRequest)
        → Keeps (λ db. Q db.filesets) (ask f cluster dispatcher now t limit source request)
    ask-Keeps t limit source none = Keeps-pure _
    ask-Keeps t limit source (some request) = hand_over-Keeps t limit _

    start_found-Keeps :
        (t : Transfer) (limit : Option ℕ) (fileset : Option Fileset)
        → Keeps (λ db. Q db.filesets) (start_found f cluster dispatcher now t limit fileset)
    start_found-Keeps t limit none = Keeps-pure _
    start_found-Keeps t limit (some g) =
        Keeps-bind-lift _ _
          λ ends e. Keeps-bind-lift _ _ λ request k. ask-Keeps t limit ends.0 request

    start_planned-Keeps :
        (dispatch : Dispatch) (t : Option Transfer)
        → Keeps (λ db. Q db.filesets) (start_planned f cluster dispatcher now dispatch t)
    unfolding start_planned start
    start_planned-Keeps dispatch none = Keeps-lift _
    start_planned-Keeps dispatch (some t) = elim (Bool-cases (moves_data t.kind)) [
      | inl e ↦
          rw e (Keeps-bind-reads _ _ λ d h. start_found-Keeps t dispatch.bwlimit_bytes_per_s _)
      | inr e ↦ rw e (Keeps-pure _)
    ]

    start_all-Keeps :
        (rows : List Transfer) (plan : List Dispatch)
        → Keeps (λ db. Q db.filesets) (start_all f cluster dispatcher now rows plan)
    unfolding start_all
    start_all-Keeps rows [] = Keeps-pure _
    start_all-Keeps rows (d ∷ plan) =
        Keeps-bind _ _ (start_planned-Keeps d (find_first (λ t. t.id == d.transfer_id) rows))
          λ _. Keeps-bind _ _ (start_all-Keeps rows plan) λ _. Keeps-pure _

    dispatch_waiting-Keeps :
        (rows : List Transfer)
        → Keeps (λ db. Q db.filesets) (dispatch_waiting f cluster dispatcher now rows)
    unfolding dispatch_waiting
    dispatch_waiting-Keeps [] = Keeps-pure _
    dispatch_waiting-Keeps (t ∷ ts) = Keeps-bind-reads _ _ λ d h.
        Keeps-bind-lift _ _ λ dispatches e.
          Keeps-bind _ _ (start_all-Keeps (t ∷ ts) dispatches)
            λ _. Keeps-bind _ _ Keeps-commit λ _. Keeps-pure _

    pub schedule_once-Keeps :
        (free : Bool) → Keeps (λ db. Q db.filesets) (schedule_once f cluster dispatcher now free)
    unfolding schedule_once
    schedule_once-Keeps false = Keeps-pure _
    schedule_once-Keeps true = Keeps-bind-reads _ _ λ d h. dispatch_waiting-Keeps _

corrected_by-same :
    (st : Text) (now : ℕ) (g : Fileset) (u : Option Measured)
    → ((corrected_by now g u).id ≡ g.id)
      × (weigh (on_storage st) (corrected_by now g u) ≡ weigh (on_storage st) g)
corrected_by-same st now g none = (refl, refl)
corrected_by-same st now g (some u) = (refl, refl)

-- What was measured changes neither the id of a row nor what it reserves.
corrected-same :
    (st : Text) (now : ℕ) (storage_id : Text) (measured : List (ℕ × Measured)) (g : Fileset)
    → ((corrected now storage_id measured g).id ≡ g.id)
      × (weigh (on_storage st) (corrected now storage_id measured g) ≡ weigh (on_storage st) g)
unfolding corrected
corrected-same st now storage_id measured g = elim (Bool-cases (is_measured storage_id g)) [
  | inl e ↦ rw e (corrected_by-same st now g (found_usage g.id measured))
  | inr e ↦ rw e (refl, refl)
]

module _ (st : Text) (w : ℕ → ℕ) (n : ℕ) (now : ℕ) where
  measure_rows-Keeps :
      (storage_id : Text) (usage : UsageSource) (rows : List Fileset)
      → Keeps
          (λ db. Profile (on_storage st) w n db.filesets)
          (measure_rows now storage_id usage rows)
  unfolding measure_rows correct_all
  measure_rows-Keeps storage_id usage [] = Keeps-pure _
  measure_rows-Keeps storage_id usage (g ∷ rows) = Keeps-bind-lift _ _ λ measured e.
      Keeps-bind _ _
        (Keeps-writes (correct_all now storage_id measured) λ db h.
          Profile-map (on_storage st) w n (corrected now storage_id measured) db.filesets
            (corrected-same st now storage_id measured) h)
        λ _. Keeps-bind _ _ Keeps-commit λ _. Keeps-pure _

  pub reconcile_storage-Keeps :
      (storage_id : Text) (usage : UsageSource)
      → Keeps
          (λ db. Profile (on_storage st) w n db.filesets)
          (reconcile_storage now storage_id usage)
  unfolding reconcile_storage
  reconcile_storage-Keeps storage_id usage =
      Keeps-bind-reads _ _ λ d h. measure_rows-Keeps storage_id usage _

-- The retention drops no fileset.
pub prune-Keeps {ℓ} :
    (Q : List Fileset → Type ℓ) (cluster : ClusterConfig) (now : ℕ)
    → Keeps (λ db. Q db.filesets) (prune cluster now)
unfolding prune prune_transfers prune_audit
prune-Keeps Q cluster now = Keeps-bind-reads _ _ λ d h.
    Keeps-bind _ _ (Keeps-writes _ λ db k. k) λ _.
      Keeps-bind _ _ (Keeps-writes _ λ db k. k) λ _. Keeps-bind _ _ Keeps-commit λ _. Keeps-pure _
