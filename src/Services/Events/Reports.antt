-- ===== src/Services/Events/Reports.antt =====
-- What a report does to a transfer's row (services/events.py).
use stashd.Prelude.{
  ℕ, ◌+◌, ◌≤◌, ◌<◌, ◌≡◌, ◌≢◌, ◌↔◌, ◌⊎◌, Bool, true, false, arith, none, Option, some, refl, ap, ◌∙◌,
  if◌then◌else◌,
}
use stashd.Domain.Errors.{ok, is_err}
use stashd.Domain.Transfers.{TransferState, next_transfer_state, is_backwards, should_retry, rank}
use stashd.Config.{ClusterConfig}
use stashd.Models.{Transfer, Db}
use stashd.Session.{Session, Exec, continue, pure, outcome, after, ◌>>=◌, reads, lift}
use stashd.Session.Rows.{get_transfer}
use stashd.Services.Events.{or_no_transfer}
use stashd.Domain.Floats.{FloatOps}
use stashd.Domain.Errors.{Result, StashError, err}
use stashd.Services.Releases.{FilesetStore}
use stashd.Services.Events.{accept_event, apply_event}
use stashd.Session.Rows.{transfer_ok}
use stashd.Services.Events.{
  EventKind, Event, target_state, ignored, absorb, retries, requeue, report,
}

-- The row of a report that does not send the transfer back to the queue.
abbrev pub Ended : Event → Transfer → Transfer → Type 0
Ended event old new = (new.state ≡ target_state event.kind) × (new.attempt ≡ old.attempt)

-- The row of a failure that will be tried again.
abbrev pub Requeued : ClusterConfig → Event → Transfer → Transfer → Type 0
Requeued cluster event old new =
    (event.kind ≡ EventKind.failed)
    × (new.state ≡ TransferState.submitted)
    × (new.attempt ≡ old.attempt + 1)
    × (old.attempt ≤ cluster.retries.count)
    × (new.task_id ≡ none)
    × (new.finished_at ≡ none)

retries-le :
    (cluster : ClusterConfig) (now : ℕ) (t : Transfer) (e : Event)
    → retries cluster now t e ≡ true
    → t.attempt ≤ cluster.retries.count
unfolding retries should_retry
retries-le cluster now t e h = ground arith

-- A report that is accepted keeps the transfer's id and counts its sequence, and the row ends in
-- the state reported, or it is a failure with an attempt left and the row is back in the queue.
pub report-Recorded :
    (cluster : ClusterConfig) (now : ℕ) (event : Event) (old new : Transfer) (again : Bool)
    → report cluster now event old ≡ ok (new, again)
    → (new.id ≡ old.id)
      × (new.last_sequence ≡ event.sequence)
      × (((again ≡ false) × Ended event old new)
          ⊎ ((again ≡ true) × Requeued cluster event old new))
unfolding report requeue absorb next_transfer_state
report-Recorded cluster now event old new again h =
    ground (arith, retries-le cluster now (absorb event old (target_state event.kind)) event)

-- The report that was accepted is ignored when it comes again, whatever was made of it.
pub report-ignored :
    (cluster : ClusterConfig) (now : ℕ) (event : Event) (old new : Transfer) (again : Bool)
    → report cluster now event old ≡ ok (new, again)
    → ignored event new ≡ true
unfolding ignored
report-ignored cluster now event old new again h =
    let (_, seen, _) = report-Recorded cluster now event old new again h in ground arith

-- Of a row with progress within a known total, a report makes a row that the table's constraints
-- accept.
pub report-transfer_ok :
    (cluster : ClusterConfig) (now : ℕ) (event : Event) (old new : Transfer) (again : Bool)
    → transfer_ok old ≡ true
    → 0 < old.bytes_total
    → report cluster now event old ≡ ok (new, again)
    → transfer_ok new ≡ true
unfolding report requeue absorb transfer_ok next_transfer_state
report-transfer_ok cluster now event old new again good known h = ground arith

-- What is refused of a row: a start, progress or the end of a transfer that is still queued, and the
-- end of one whose start was never reported.
abbrev pub Early : Event → Transfer → Type 0
Early event old =
    (event.kind ≢ EventKind.failed)
    × ((old.state ≡ TransferState.submitted)
        ⊎ ((old.state ≡ TransferState.assigned) × (event.kind ≡ EventKind.finished)))

refused_iff :
    (cluster : ClusterConfig) (now : ℕ) (event : Event) (old : Transfer)
    → ignored event old ≡ false
    → (is_err (report cluster now event old) ≡ true) ↔ Early event old
unfolding report requeue absorb next_transfer_state ignored is_backwards rank
refused_iff cluster now event old h = (λ k. ground arith, λ k. ground arith)

module _ {A B : Type 0} (r : Result A) (f : A → Exec B) (s : Session) where
  stopped : (e : StashError) → r ≡ err e → (lift r >>= f) s ≡ (err e, s)
  unfolding ◌>>=◌ lift
  stopped e h = rw h refl

  going : (a : A) → r ≡ ok a → (lift r >>= f) s ≡ f a s
  unfolding ◌>>=◌ lift
  going a h = rw h refl

otherwise :
    {B : Type 0} (b : Bool) (m k : Exec B) (s : Session) → b ≡ false → (if b then m else k) s ≡ k s
otherwise b m k s h = rw h refl

-- A report that makes no row of a transfer is refused by the whole request.
apply_event-report :
    (cluster : ClusterConfig) (now : ℕ) (f : FloatOps) (store : Option FilesetStore) (event : Event)
    (old : Transfer) (s : Session) (e : StashError)
    → get_transfer event.transfer_id s.working ≡ some old
    → ignored event old ≡ false
    → report cluster now event old ≡ err e
    → apply_event cluster now f store event s ≡ (err e, s)
unfolding apply_event accept_event ◌>>=◌ reads
apply_event-report cluster now f store event old s e found news refused =
    going _ _ s old (ap (or_no_transfer event.transfer_id) found)
    ∙ otherwise (ignored event old) _ _ s news
    ∙ ap (λ x. continue x (λ applied. pure (true, applied))) (stopped _ _ s e refused)

-- For a transfer that is in the database and a report that is not ignored, a new row of the transfer
-- is refused exactly when the report is not of a failure and the transfer is still queued, or it is of
-- the end and the transfer is assigned, so that its start was never taken in. The whole report then
-- raises and leaves the database as it was. (It may also raise where the fileset's state or a table's
-- constraint refuses what follows.) So, other than clients/events.py says, a lost start does not only
-- delay the truth: while the transfer is assigned, its end is refused whenever it comes.
pub report_refused_iff :
    (cluster : ClusterConfig) (now : ℕ) (f : FloatOps) (store : Option FilesetStore) (event : Event)
    (old : Transfer) (db : Db)
    → get_transfer event.transfer_id db ≡ some old
    → ignored event old ≡ false
    → ((is_err (report cluster now event old) ≡ true) ↔ Early event old)
      × (Early event old
          → (is_err (outcome (apply_event cluster now f store event) db) ≡ true)
            × (after (apply_event cluster now f store event) db ≡ db))
unfolding outcome after
report_refused_iff cluster now f store event old db found news =
    let row = refused_iff cluster now event old news in
    (row, λ early. all_refused (report cluster now event old) refl (row.1 early))
  where
    all_refused :
        (r : Result (Transfer × Bool))
        → report cluster now event old ≡ r
        → is_err r ≡ true
        → (is_err (outcome (apply_event cluster now f store event) db) ≡ true)
          × (after (apply_event cluster now f store event) db ≡ db)
    all_refused (ok x) e h = absurd (ground arith)
    all_refused (err x) e h =
        let raised =
          apply_event-report cluster now f store event old (record { committed = db; working = db })
            x found news e in
        (ap (λ o. is_err o.0) raised, ap (λ o. o.1.committed) raised)
