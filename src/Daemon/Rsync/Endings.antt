-- ===== src/Daemon/Rsync/Endings.antt =====
-- engines/rsync.py: when a transfer counts as done, and what becomes of the mark of a cancel.
use stashd.Prelude.{
  ℕ, Text, Bool, true, false, not, ◌&&◌, List, [], ◌∷◌, Option, none, some, ◌==◌, ◌≡◌, refl, sym,
  ap, ◌∙◌, arith,
}
use stashd.Prelude.Int.{ℤ, pos, negsuc}
use stashd.Domain.Transfers.{FailureClass}
use stashd.Daemon.Output.{updates}
use stashd.Daemon.Rsync.{
  classify_exit, Process, TransferResult, follow, EngineState, holds, without, conclude, settle,
  finished, collect,
}

abbrev is_success : Option FailureClass → Bool
is_success none = true
is_success (some failure) = false

abbrev result_failure : Option TransferResult → Option FailureClass
result_failure none = some FailureClass.internal
result_failure (some r) = r.failure

abbrev is_zero : ℤ → Bool
is_zero (pos n) = n == 0
is_zero (negsuc n) = false

classify-success :
    (lower : Text → Text) (code : ℤ) (stderr : Text)
    → is_success (classify_exit lower code stderr) ≡ is_zero code
unfolding classify_exit
classify-success lower (pos n) stderr = ground arith
classify-success lower (negsuc n) stderr = refl

conclude-success :
    (lower : Text → Text) (process : Process) (was_cancelled : Bool) (seen : ℕ)
    (bytes files : Option ℕ)
    → is_success (conclude lower process was_cancelled seen bytes files).failure
      ≡ (is_zero process.returncode && not was_cancelled)
unfolding conclude
conclude-success lower process true seen bytes files = ground arith
conclude-success lower process false seen bytes files =
    ground (arith, classify-success lower process.returncode process.stderr)

without-gone : (handle : Text) (handles : List Text) → holds (without handle handles) handle ≡ false
without-gone handle [] = refl
without-gone handle (h ∷ handles) = ground (arith, without-gone handle handles)

settled :
    (reported : List ℕ) (result : Option TransferResult) (handle : Text) (st : EngineState)
    (r : TransferResult)
    → (settle reported result handle st).0.1 ≡ some r
    → (result ≡ some r) × (holds (settle reported result handle st).1.cancelled handle ≡ false)
unfolding settle
settled reported none handle st r h = absurd (ground arith)
settled reported (some q) handle st r h = (h, without-gone handle st.cancelled)

module _ (lower : Text → Text) (to_bytes : Text → ℕ → Option ℕ) where
  picked :
      (process : Process) (was_cancelled : Bool) (seen : ℕ) (bytes files : Option (Option ℕ))
      (r : TransferResult)
      → elim bytes [
        | none ↦ none
        | some b ↦ elim files [
          | none ↦ none
          | some f ↦ some (conclude lower process was_cancelled seen b f)
        ]
      ]
        ≡ some r
      → is_success r.failure ≡ (is_zero process.returncode && not was_cancelled)
  picked process was_cancelled seen none files r h = absurd (ground arith)
  picked process was_cancelled seen (some b) none r h = absurd (ground arith)
  picked process was_cancelled seen (some b) (some f) r h =
      ap (λ o. is_success (result_failure o)) (sym h)
      ∙ conclude-success lower process was_cancelled seen b f

  finished-success :
      (process : Process) (was_cancelled : Bool) (seen : Option ℕ) (collected : List Text)
      (r : TransferResult)
      → finished lower to_bytes process was_cancelled seen collected ≡ some r
      → is_success r.failure ≡ (is_zero process.returncode && not was_cancelled)
  unfolding finished
  finished-success process was_cancelled none collected r h = absurd (ground arith)
  finished-success process was_cancelled (some seen) collected r h =
      picked process was_cancelled seen _ _ r h

  -- A transfer whose output could be read counts as done exactly where rsync ended with code 0 and
  -- nobody had asked for its cancellation, and the mark of that request is gone afterwards.
  pub collect-success :
      (process : Process) (handle : Text) (st : EngineState) (r : TransferResult)
      → (collect lower to_bytes process handle st).0.1 ≡ some r
      → (is_success r.failure ≡ (is_zero process.returncode && not (holds st.cancelled handle)))
        × (holds (collect lower to_bytes process handle st).1.cancelled handle ≡ false)
  unfolding collect
  collect-success process handle st r h =
      let collected = updates [] process.reads in
      let seen = (follow to_bytes 0 collected).1 in
      let (e, gone) =
        settled (follow to_bytes 0 collected).0
          (finished lower to_bytes process (holds st.cancelled handle) seen collected) handle st r
          h in
      (finished-success process (holds st.cancelled handle) seen collected r e, gone)
