-- ===== src/Services/Cancelling/Request.antt =====
-- A cancellation frees nothing (services/cancel.py).
use stashd.Prelude.{
  ℕ, ◌≡◌, refl, sym, ◌∙◌, Text, Bool, List, Option, none, some, Option-cases, inl, inr,
}
use stashd.Domain.Floats.{FloatOps}
use stashd.Domain.Identity.{Principal}
use stashd.Config.{ClusterConfig}
use stashd.Models.{Fileset, Transfer, Db}
use stashd.Session.{Session, after}
use stashd.Session.Keeps.{
  Keeps, Keeps-pure, Keeps-commit, Keeps-bind, Keeps-bind-lift, Keeps-bind-reads, after-reads,
  after-lift,
}
use stashd.Session.Ledger.{weigh, total, Balance, Keeps-put_fileset}
use stashd.Session.Keys.{Keyed, Keyed-Weighs, find-Weighs}
use stashd.Session.Rows.{get_fileset}
use stashd.Services.Keeping.{Keeps-record_event, Keeps-charge, Keeps-put_transfer}
use stashd.Services.Admitting.{storage_allocated}
use stashd.Services.Events.{refund}
use stashd.Services.Releases.Reservation.{on_storage, storage_allocated-eq-total}
use stashd.Services.Cancelling.{cancel_transfer, cancelled_row, leave_found}
use stashd.Services.Cancelling.Reservation.{leave_failed-Reserved}

-- A refund touches no fileset.
pub Keeps-refund :
    (Q : List Fileset → Type 0) (cluster : ClusterConfig) (now : ℕ) (f : FloatOps) (t : Transfer)
    → Keeps (λ db. Q db.filesets) (refund cluster now f t)
unfolding refund
Keeps-refund Q cluster now f t = elim (Option-cases t.started_at) [
  | inl e ↦ rw e (Keeps-charge Q f now t.user _ cluster.half_life)
  | inr (at, e) ↦ rw e (Keeps-pure tt)
]

module _ (st : Text) (id w n : ℕ) where
  leave_found-Keeps :
      (t : Transfer) (found : Option Fileset)
      → ((g : Fileset) → found ≡ some g → (g.id ≡ id) × (weigh (on_storage st) g ≡ w))
      → Keeps (λ db. Balance (on_storage st) id w n db.filesets) (leave_found t found)
  leave_found-Keeps t none h = Keeps-pure tt
  leave_found-Keeps t (some g) h =
      let (same_id, weight) = h g refl in
      Keeps-bind-lift _ _ λ left e.
        let (kept_id, _, kept) = leave_failed-Reserved t g left st e in
        Keeps-put_fileset (on_storage st) left id w n (kept_id ∙ same_id) (kept ∙ weight)

-- A cancellation leaves the bytes reserved on every storage as they were, whether it is refused,
-- fails or is done: a fileset that is left failed still holds its reservation. The filesets' ids
-- are a key.
pub cancel_transfer-keeps-storage_allocated :
    (f : FloatOps) (cluster : ClusterConfig) (now : ℕ) (actor : Principal) (is_admin : Bool)
    (id : ℕ) (st : Text) (db : Db)
    → Keyed db.filesets
    → storage_allocated st (after (cancel_transfer f cluster now actor is_admin id) db)
      ≡ storage_allocated st db
unfolding after cancel_transfer cancelled_row
cancel_transfer-keeps-storage_allocated f cluster now actor is_admin id st db keyed =
    let p = on_storage st in
    let n = total p db.filesets in
    let C = λ (d : Db). total p d.filesets ≡ n in
    let start : Session = record { committed = db; working = db } in
    let kept = after-reads C _ _ start (
      after-lift C _ _ start refl λ transfer _. after-lift C _ _ start refl λ _ _.
        after-lift C _ _ start refl λ stopped _.
          let (w, weighs) = Keyed-Weighs p stopped.fileset_id db.filesets keyed in
          let Q = Balance p stopped.fileset_id w n in
          let before : Q db.filesets = (weighs, refl) in
          ((Keeps-bind _ _ (Keeps-put_transfer Q stopped) λ _. Keeps-bind-reads _ _ λ d (h, _).
              Keeps-bind _ _
                (leave_found-Keeps st stopped.fileset_id w n stopped
                  (get_fileset stopped.fileset_id d)
                  λ g e. find-Weighs p stopped.fileset_id w d.filesets g e h)
                λ _. Keeps-bind _ _ (Keeps-refund Q cluster now f stopped) λ _.
                  Keeps-bind _ _ (Keeps-record_event Q now actor _ _ _ _ _ _)
                    λ _. Keeps-bind _ _ Keeps-commit λ _. Keeps-pure _).at
            start (record { committed = before; working = before })).committed.1) in
    storage_allocated-eq-total st _ ∙ kept ∙ sym (storage_allocated-eq-total st db)
