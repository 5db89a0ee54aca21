-- ===== src/Services/Flushing/Reservation.antt =====
-- A flush reserves nothing (services/flush.py).
use stashd.Prelude.{ℕ, ◌≡◌, refl, sym, ◌∙◌, Text, Bool}
use stashd.Domain.Floats.{FloatOps}
use stashd.Domain.Filesets.{FilesetState, holds_allocation}
use stashd.Domain.Filesets.Lifecycle.{next-live}
use stashd.Domain.Identity.{Principal}
use stashd.Config.{ClusterConfig}
use stashd.Models.{Fileset, Db}
use stashd.Session.{Session, after}
use stashd.Session.Keeps.{Both, Keeps-pure, Keeps-commit, Keeps-bind, Keeps-bind-lift, after-reads}
use stashd.Session.Ledger.{weigh, total, Balance, Keeps-put_fileset, IsRow, IsRow-Weighs}
use stashd.Services.Keeping.{Keeps-record_event, Keeps-charge, Keeps-add_transfer, audited-after}
use stashd.Services.Admitting.{storage_allocated}
use stashd.Services.Releases.{Owner}
use stashd.Services.Releases.Reservation.{on_storage, weigh-same_live, storage_allocated-eq-total}
use stashd.Services.Flushing.{Plan, submit_flush}

-- Submitting a flush leaves the bytes reserved on every storage as they were, whether it is
-- refused, fails or is queued. The plan's fileset is the row of its id.
pub submit_flush-keeps-storage_allocated :
    (f : FloatOps) (cluster : ClusterConfig) (now : ℕ) (actor : Principal) (owner : Owner)
    (plan : Plan) (keep : Bool) (st : Text) (db : Db)
    → IsRow plan.fileset db
    → storage_allocated st (after (submit_flush f cluster now actor owner plan keep) db)
      ≡ storage_allocated st db
unfolding after submit_flush holds_allocation
submit_flush-keeps-storage_allocated f cluster now actor owner plan keep st db row =
    let p = on_storage st in
    let w = weigh p plan.fileset in
    let Q = Balance p plan.fileset.id w (total p db.filesets) in
    let C = λ (d : Db). Q d.filesets in
    let start : Session = record { committed = db; working = db } in
    let before : C db = (IsRow-Weighs p plan.fileset db.filesets row, refl) in
    let both : Both C start = record { committed = before; working = before } in
    let kept = after-reads C _ _ start (
      audited-after Q _ _ _ start both (λ e. Keeps-record_event Q now actor _ _ _ _ _ _)
        λ _ _.
          after-reads C _ _ start
            ((Keeps-bind _ _ (Keeps-add_transfer Q _) λ _. Keeps-bind-lift _ _ λ state moved.
                let live = next-live plan.fileset.state FilesetState.flushing state moved refl in
                let flushing : Fileset = record plan.fileset { state = state } in
                Keeps-bind _ _
                  (Keeps-put_fileset p flushing plan.fileset.id w (total p db.filesets) refl
                    (weigh-same_live st flushing plan.fileset refl refl (live.1 ∙ sym live.0)))
                  λ _. Keeps-bind _ _ Keeps-commit λ _.
                    Keeps-bind _ _ (Keeps-charge Q f now _ _ _) λ _.
                      Keeps-bind _ _ (Keeps-record_event Q now actor _ _ _ _ _ _)
                        λ _. Keeps-bind _ _ Keeps-commit λ _. Keeps-pure _).at
              start both).committed) in
    storage_allocated-eq-total st _ ∙ kept.1 ∙ sym (storage_allocated-eq-total st db)
