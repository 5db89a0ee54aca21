-- ===== src/Daemon/Runner/Sequences.antt =====
-- clients/events.py: how the reports of a daemon are numbered, whatever its threads do.
use stashd.Prelude.{
  ℕ, ◌+◌, Bool, true, false, List, [], ◌∷◌, Option, none, some, ◌==◌, ◌≡◌, refl, arith,
  if◌then◌else◌,
}
use stashd.Domain.Errors.{ErrorCode, ok, raise}
use stashd.Domain.Transfers.{FailureClass}
use stashd.Services.Events.{EventKind}
use stashd.Daemon.Runner.{
  Report, Phase, Thread, Runner, queued, announced, working, ending, done, idle_runner, sequence_of,
  send, submit, Turn, take_turn, cut_off, Action, submits, takes_turn, stops_accepting, cuts_off,
  shuts_down, thread_of, with_thread, submitted_or_same, act, act_all, next_part, moves, comes_to,
}

-- How many reports of a transfer there are.
unfoldable pub count_of : ℕ → List Report → ℕ
count_of transfer_id [] = 0
count_of transfer_id (x ∷ log) =
    if x.transfer_id == transfer_id then count_of transfer_id log + 1 else count_of transfer_id log

-- The n-th report of a transfer has the sequence n; the newest comes first.
abbrev pub Numbered : List Report → Type 0
Numbered [] = Unit
Numbered (x ∷ log) = (x.sequence ≡ count_of x.transfer_id log + 1) × Numbered log

-- The counters agree with what was reported.
record Agreeing (r : Runner) : Type 0 where
  agrees : (t : ℕ) → sequence_of t r.sequences ≡ count_of t r.log
  numbered : Numbered r.log

send-Agreeing :
    (t : ℕ) (kind : EventKind) (failure : Option FailureClass) (r : Runner)
    → Agreeing r
    → Agreeing (send t kind failure r)
unfolding send sequence_of count_of
send-Agreeing t kind failure r c = record {
  agrees = λ u. ground (arith, c.agrees u, c.agrees t);
  numbered = (omega (arith, c.agrees t), c.numbered);
}

-- Only a report changes the counters and the reports.
same-Agreeing : (r s : Runner) → s.sequences ≡ r.sequences → s.log ≡ r.log → Agreeing r → Agreeing s
same-Agreeing r s a b c = record {
  agrees = λ t. rw (a, b) (c.agrees t);
  numbered = rw b c.numbered;
}

take_turn-Agreeing :
    (turn : Turn) (thread : Thread) (r : Runner) → Agreeing r → Agreeing (take_turn turn thread r)
unfolding take_turn
take_turn-Agreeing turn thread r c = by_phase thread.phase turn
  where
    by_phase : (p : Phase) (turn : Turn) → Agreeing (take_turn turn (record thread { phase = p }) r)
    by_phase queued turn =
        same-Agreeing (send thread.transfer_id EventKind.started none r) _ refl refl
          (send-Agreeing thread.transfer_id EventKind.started none r c)
    by_phase announced turn = same-Agreeing r _ refl refl c
    by_phase working next_part = c
    by_phase working moves = send-Agreeing thread.transfer_id EventKind.progress none r c
    by_phase working (comes_to outcome) = same-Agreeing r _ refl refl c
    by_phase (ending kind failure) turn =
        same-Agreeing (send thread.transfer_id kind failure r) _ refl refl
          (send-Agreeing thread.transfer_id kind failure r c)
    by_phase done turn = c

cut_off-Agreeing : (thread : Thread) (r : Runner) → Agreeing r → Agreeing (cut_off thread r)
unfolding cut_off
cut_off-Agreeing thread r c = by_phase thread.phase
  where
    reported : Agreeing (cut_off (record thread { phase = working }) r)
    reported =
        send-Agreeing thread.transfer_id EventKind.failed (some FailureClass.daemon_shutdown) _
          (same-Agreeing r _ refl refl c)

    by_phase : (p : Phase) → Agreeing (cut_off (record thread { phase = p }) r)
    by_phase queued = reported
    by_phase announced = reported
    by_phase working = reported
    by_phase (ending kind failure) = reported
    by_phase done = c

with_thread-Agreeing :
    (f : Thread → Runner → Runner)
    → ((thread : Thread) (r : Runner) → Agreeing r → Agreeing (f thread r))
    → (found : Option Thread) (r : Runner) → Agreeing r
    → Agreeing (with_thread f found r)
with_thread-Agreeing f h none r c = c
with_thread-Agreeing f h (some thread) r c = h thread r c

either-Agreeing :
    (accepts : Bool) (r s : Runner) (n : ℕ)
    → Agreeing r
    → Agreeing s
    → Agreeing
        (submitted_or_same r (if accepts then ok (n, s) else raise ErrorCode.daemon_unavailable []))
either-Agreeing true r s n c k = k
either-Agreeing false r s n c k = c

submit-Agreeing : (t : ℕ) (r : Runner) → Agreeing r → Agreeing (submitted_or_same r (submit t r))
unfolding submit
submit-Agreeing t r c = either-Agreeing r.accepting r _ r.next_id c (same-Agreeing r _ refl refl c)

act-Agreeing : (a : Action) (r : Runner) → Agreeing r → Agreeing (act a r)
unfolding act
act-Agreeing (submits t) r c = submit-Agreeing t r c
act-Agreeing (takes_turn turn id) r c =
    with_thread-Agreeing (take_turn turn) (take_turn-Agreeing turn) (thread_of id r) r c
act-Agreeing stops_accepting r c = same-Agreeing r _ refl refl c
act-Agreeing (cuts_off id) r c = with_thread-Agreeing cut_off cut_off-Agreeing (thread_of id r) r c
act-Agreeing shuts_down r c = same-Agreeing r _ refl refl c

act_all-Agreeing : (actions : List Action) (r : Runner) → Agreeing r → Agreeing (act_all actions r)
unfolding act_all
act_all-Agreeing [] r c = c
act_all-Agreeing (a ∷ actions) r c = act_all-Agreeing actions (act a r) (act-Agreeing a r c)

idle_runner-Agreeing : Agreeing idle_runner
unfolding sequence_of count_of
idle_runner-Agreeing = record { agrees = λ t. refl; numbered = tt }

-- However the submissions, the threads of the tasks, and a shutdown that cuts them off come between
-- one another, the n-th report that a daemon makes of a transfer carries the sequence n.
pub act_all-Numbered : (actions : List Action) → Numbered (act_all actions idle_runner).log
act_all-Numbered actions =
    let c = act_all-Agreeing actions idle_runner idle_runner-Agreeing in c.numbered
