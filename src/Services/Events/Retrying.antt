-- ===== src/Services/Events/Retrying.antt =====
-- How often the failures that services/events.py records can put one transfer back into the queue,
-- while the scheduler hands it over and a user may cancel it.
use stashd.Prelude.{
  ℕ, ◌+◌, ◌≤◌, Bool, true, false, List, [], ◌∷◌, Option, ◌≡◌, refl, arith, Bool-cases, inl, inr,
  if◌then◌else◌,
}
use stashd.Domain.Errors.{Result, ok, err}
use stashd.Domain.Floats.{FloatOps}
use stashd.Config.{ClusterConfig}
use stashd.Models.{Transfer}
use stashd.Services.Dispatching.{StartedTask}
use stashd.Services.Scheduler.{handed_over}
use stashd.Services.Cancelling.{cancelled_row}
use stashd.Services.Events.{Event, ignored, report}
use stashd.Services.Events.Reports.{report-Recorded}

-- What happens to a transfer's row.
pub data Happening : Type 0 where
  hears : ℕ → Event → Happening
  is_handed_over : StartedTask → Option ℕ → Happening
  is_cancelled : ℕ → Happening

module _ (f : FloatOps) (cluster : ClusterConfig) where
  -- The row and whether it went back into the queue; what is refused leaves it as it was.
  abbrev pub settled : Transfer → Result (Transfer × Bool) → Transfer × Bool
  settled t (err e) = (t, false)
  settled t (ok (new, again)) = (new, again)

  abbrev pub unqueued : Transfer → Result Transfer → Transfer × Bool
  unqueued t (err e) = (t, false)
  unqueued t (ok new) = (new, false)

  unfoldable pub happen : Happening → Transfer → Transfer × Bool
  unfolding ignored report handed_over cancelled_row
  happen (hears now event) t =
      if ignored event t then (t, false) else settled t (report cluster now event t)
  happen (is_handed_over started bwlimit) t = unqueued t (handed_over t started bwlimit)
  happen (is_cancelled now) t = unqueued t (cancelled_row f cluster now t)

  abbrev one_if : Bool → ℕ
  one_if true = 1
  one_if false = 0

  -- How often the row goes back into the queue.
  unfoldable pub requeues : List Happening → Transfer → ℕ
  unfolding happen
  requeues [] t = 0
  requeues (h ∷ more) t = one_if (happen h t).1 + requeues more (happen h t).0

  settled-attempt :
      (now : ℕ) (event : Event) (t : Transfer) (r : Result (Transfer × Bool))
      → report cluster now event t ≡ r
      → t.attempt ≤ cluster.retries.count + 1
      → one_if (settled t r).1 + t.attempt ≤ (settled t r).0.attempt
        × ((settled t r).0.attempt ≤ cluster.retries.count + 1)
  settled-attempt now event t (err e) h fits = (omega arith, fits)
  settled-attempt now event t (ok (new, again)) h fits =
      let (_, _, recorded) = report-Recorded cluster now event t new again h in
      elim recorded [
        | inl (last, ended) ↦ rw last (ground arith)
        | inr (more, again_queued) ↦ rw more (ground arith)
      ]

  handed_over-attempt :
      (t new : Transfer) (started : StartedTask) (bwlimit : Option ℕ)
      → handed_over t started bwlimit ≡ ok new
      → new.attempt ≡ t.attempt
  unfolding handed_over
  handed_over-attempt t new started bwlimit h = ground arith

  cancelled-attempt :
      (t new : Transfer) (now : ℕ)
      → cancelled_row f cluster now t ≡ ok new
      → new.attempt ≡ t.attempt
  unfolding cancelled_row
  cancelled-attempt t new now h = ground arith

  unqueued-attempt :
      (t : Transfer) (r : Result Transfer)
      → ((new : Transfer) → r ≡ ok new → new.attempt ≡ t.attempt)
      → t.attempt ≤ cluster.retries.count + 1
      → one_if (unqueued t r).1 + t.attempt ≤ (unqueued t r).0.attempt
        × ((unqueued t r).0.attempt ≤ cluster.retries.count + 1)
  unqueued-attempt t (err e) h fits = (omega arith, fits)
  unqueued-attempt t (ok new) h fits = (omega (arith, h new refl), omega (arith, h new refl))

  happen-attempt :
      (h : Happening) (t : Transfer)
      → t.attempt ≤ cluster.retries.count + 1
      → one_if (happen h t).1 + t.attempt ≤ (happen h t).0.attempt
        × ((happen h t).0.attempt ≤ cluster.retries.count + 1)
  unfolding happen
  happen-attempt (hears now event) t fits = elim (Bool-cases (ignored event t)) [
    | inl e ↦ rw e (omega arith, fits)
    | inr e ↦ rw e (settled-attempt now event t (report cluster now event t) refl fits)
  ]
  happen-attempt (is_handed_over started bwlimit) t fits =
      unqueued-attempt t (handed_over t started bwlimit)
        (λ new e. handed_over-attempt t new started bwlimit e) fits
  happen-attempt (is_cancelled now) t fits =
      unqueued-attempt t (cancelled_row f cluster now t) (λ new e. cancelled-attempt t new now e)
        fits

  -- Retries end: of a row whose attempt is at most one more than the configured count of retries,
  -- no history of reports, hand-overs and cancellations, however long, makes more requeues than the
  -- retries that are left.
  pub requeues-le :
      (history : List Happening) (t : Transfer)
      → t.attempt ≤ cluster.retries.count + 1
      → requeues history t + t.attempt ≤ cluster.retries.count + 1
  unfolding requeues
  requeues-le [] t fits = omega arith
  requeues-le (h ∷ history) t fits =
      let (grows, still) = happen-attempt h t fits in
      omega (arith, grows, requeues-le history (happen h t).0 still)
