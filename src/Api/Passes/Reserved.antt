-- ===== src/Api/Passes/Reserved.antt =====
-- What the controller's own passes leave reserved (api/app.py).
use stashd.Prelude.{ℕ, Text, ◌≡◌, sym, ◌∙◌, Bool, true, false, List, [], ◌∷◌, Option, none, some}
use stashd.Domain.Errors.{Result, ok, err}
use stashd.Domain.Floats.{FloatOps}
use stashd.Config.{ClusterConfig}
use stashd.Models.{Db}
use stashd.Session.{Session, Exec, after}
use stashd.Session.Keeps.{Both, Keeps, Keeps-pure, Keeps-bind, Keeps-after}
use stashd.Session.Ledger.{total}
use stashd.Session.Keys.{Keyed}
use stashd.Session.Profile.{Profile, Keyed-Profile}
use stashd.Services.Admitting.{storage_allocated}
use stashd.Services.Dispatching.{TransferDispatcher}
use stashd.Services.Releases.Reservation.{on_storage, storage_allocated-eq-total}
use stashd.Services.Unattended.{
  reconcile-Keeps, schedule_once-Keeps, reconcile_storage-Keeps, prune-Keeps,
}
use stashd.Services.Usage.{UsageSource, reconcile_storage}
use stashd.Api.Passes.{
  Parts, with_daemons, or_zero, reconcile_transfers, schedule, reconcile_usage, prune_old_rows,
}

-- A pass, with the parts it finds, its time and what it meets.
pub data Pass : Type 0 where
  reconciles : Parts → ℕ → Pass
  schedules : Parts → ℕ → Bool → Pass
  measures : Parts → ℕ → Text → Pass
  prunes : Parts → ℕ → Pass

module _ (f : FloatOps) where
  unfoldable pub pass : Pass → Exec ℕ
  unfolding reconcile_transfers schedule reconcile_usage prune_old_rows
  pass (reconciles parts now) = reconcile_transfers f parts now
  pass (schedules parts now free) = schedule f parts now free
  pass (measures parts now storage_id) = reconcile_usage parts now storage_id
  pass (prunes parts now) = prune_old_rows parts now

  -- The database after one pass and another.
  unfoldable pub run_passes : List Pass → Db → Db
  unfolding after pass
  run_passes [] db = db
  run_passes (p ∷ ps) db = run_passes ps (after (pass p) db)

  module _ (st : Text) (w : ℕ → ℕ) (n : ℕ) where
    abbrev Steady : Db → Type 0
    Steady db = Profile (on_storage st) w n db.filesets

    with_daemons-Keeps :
        (parts : Parts) (m : ClusterConfig → TransferDispatcher → Exec ℕ)
        → ((c : ClusterConfig) (d : TransferDispatcher) → Keeps Steady (m c d))
        → Keeps Steady (with_daemons parts m)
    with_daemons-Keeps parts m k = by_parts parts.sessions parts.dispatcher parts.cluster
      where
        by_parts :
            (b : Bool) (d : Option TransferDispatcher) (c : Option ClusterConfig)
            → Keeps Steady (
                with_daemons
                  (record { sessions = b; cluster = c; dispatcher = d; usage = parts.usage })
                  m)
        by_parts false d c = Keeps-pure 0
        by_parts true none c = Keeps-pure 0
        by_parts true (some d) none = Keeps-pure 0
        by_parts true (some d) (some c) = k c d

    or_zero-Both : (r : Result ℕ) (s : Session) → Both Steady s → Both Steady (or_zero (r, s)).1
    or_zero-Both (ok a) s h = h
    or_zero-Both (err e) s h = record { committed = h.committed; working = h.committed }

    reconcile_usage-Keeps :
        (parts : Parts) (now : ℕ) (storage_id : Text)
        → Keeps Steady (reconcile_usage parts now storage_id)
    unfolding reconcile_usage
    reconcile_usage-Keeps parts now storage_id = by_parts parts.sessions parts.usage
      where
        by_parts :
            (b : Bool) (u : Option UsageSource)
            → Keeps Steady (
                reconcile_usage
                  (record {
                    sessions = b;
                    cluster = parts.cluster;
                    dispatcher = parts.dispatcher;
                    usage = u;
                  })
                  now
                  storage_id)
        by_parts false u = Keeps-pure 0
        by_parts true none = Keeps-pure 0
        by_parts true (some u) = record {
          at = λ s h.
              or_zero-Both (reconcile_storage now storage_id u s).0
                (reconcile_storage now storage_id u s).1
                ((reconcile_storage-Keeps st w n now storage_id u).at s h);
        }

    prune_old_rows-Keeps : (parts : Parts) (now : ℕ) → Keeps Steady (prune_old_rows parts now)
    unfolding prune_old_rows
    prune_old_rows-Keeps parts now = by_parts parts.sessions parts.cluster
      where
        by_parts :
            (b : Bool) (c : Option ClusterConfig)
            → Keeps Steady (
                prune_old_rows
                  (record {
                    sessions = b;
                    cluster = c;
                    dispatcher = parts.dispatcher;
                    usage = parts.usage;
                  })
                  now)
        by_parts false c = Keeps-pure 0
        by_parts true none = Keeps-pure 0
        by_parts true (some c) = prune-Keeps (Profile (on_storage st) w n) c now

    pass-Keeps : (p : Pass) → Keeps Steady (pass p)
    unfolding pass reconcile_transfers schedule
    pass-Keeps (reconciles parts now) =
        with_daemons-Keeps parts _ λ c d. reconcile-Keeps f c d now st w n
    pass-Keeps (schedules parts now free) = with_daemons-Keeps parts _ λ c d.
        Keeps-bind _ _ (schedule_once-Keeps f c d now (Profile (on_storage st) w n) free)
          λ started. Keeps-pure _
    pass-Keeps (measures parts now storage_id) = reconcile_usage-Keeps parts now storage_id
    pass-Keeps (prunes parts now) = prune_old_rows-Keeps parts now

    run_passes-Steady : (ps : List Pass) (db : Db) → Steady db → Steady (run_passes ps db)
    unfolding run_passes
    run_passes-Steady [] db h = h
    run_passes-Steady (p ∷ ps) db h =
        run_passes-Steady ps (after (pass p) db) (Keeps-after (pass p) db (pass-Keeps p) h)

  -- Where the filesets' ids are a key, the passes that the controller makes by itself, in any order
  -- and whatever the daemons answer, leave the bytes reserved on every storage as they are: the
  -- adopting of what daemons say, the scheduling, the measured usage and the retention free nothing
  -- and reserve nothing. This includes the adopting of a flush that finished and is to be released
  -- after it: other than docs/CONCEPTS.md says, its fileset then keeps its reservation.
  pub run_passes-storage_allocated :
      (ps : List Pass) (st : Text) (db : Db)
      → Keyed db.filesets
      → storage_allocated st (run_passes ps db) ≡ storage_allocated st db
  run_passes-storage_allocated ps st db keyed =
      let (w, before) = Keyed-Profile (on_storage st) db.filesets keyed in
      let kept = run_passes-Steady st w (total (on_storage st) db.filesets) ps db before in
      storage_allocated-eq-total st _ ∙ (kept.1 ∙ sym (storage_allocated-eq-total st db))
