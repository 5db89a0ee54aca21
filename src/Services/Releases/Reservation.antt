-- ===== src/Services/Releases/Reservation.antt =====
-- What a release does to the bytes reserved on a storage (services/transfers_release.py).
use stashd.Prelude.{ℕ, ◌≡◌, refl, sym, ◌∙◌, Text, same, Bool, true, ◌&&◌, arith}
use stashd.Domain.Errors.{Result, StashError, ok, err}
use stashd.Domain.Filesets.{FilesetState, holds_allocation}
use stashd.Domain.Filesets.Lifecycle.{next-live}
use stashd.Domain.Identity.{Principal}
use stashd.Models.{Fileset, Transfer, Db}
use stashd.Session.{after}
use stashd.Session.Keeps.{
  Keeps, Keeps-pure, Keeps-lift, Keeps-reads, Keeps-commit, Keeps-bind, Keeps-bind-lift,
  Keeps-after,
}
use stashd.Session.Ledger.{weigh, total, Balance, Keeps-put_fileset, IsRow, IsRow-Weighs}
use stashd.Services.Keeping.{Keeps-record_event, Keeps-put_transfer, Keeps-add_transfer}
use stashd.Services.Admitting.{storage_allocated}
use stashd.Services.Releases.{
  FilesetStore, perform_release, start_release, conclude_release, fail_release, location_of,
}

-- The selection of the sum for one storage.
abbrev pub on_storage : Text → Fileset → Bool
on_storage storage_id f = same f.storage_id storage_id && holds_allocation f.state

pub storage_allocated-eq-total :
    (st : Text) (db : Db) → storage_allocated st db ≡ total (on_storage st) db.filesets
unfolding storage_allocated
storage_allocated-eq-total st db = refl

-- Both states hold the reservation, so the row weighs the same in each.
pub weigh-same_live :
    (st : Text) (f g : Fileset)
    → f.storage_id ≡ g.storage_id
    → f.allocated_bytes ≡ g.allocated_bytes
    → holds_allocation f.state ≡ holds_allocation g.state
    → weigh (on_storage st) f ≡ weigh (on_storage st) g
weigh-same_live st f g a b c = rw a rw b rw c refl

module _ (now : ℕ) (actor : Principal) (st : Text) (w n : ℕ) where
  fail_release-Keeps :
      (fileset : Fileset) (transfer : Transfer) (e : StashError)
      → weigh (on_storage st) fileset ≡ w
      → holds_allocation fileset.state ≡ true
      → Keeps
          (λ db. Balance (on_storage st) fileset.id w n db.filesets)
          (fail_release now actor fileset transfer e)
  unfolding fail_release holds_allocation
  fail_release-Keeps fileset transfer e q live = Keeps-bind-lift _ _ λ state moved.
      Keeps-bind-lift _ _ λ state' moved'.
        Keeps-bind _ _
          (Keeps-put_fileset (on_storage st) (record fileset { state = state }) fileset.id w n refl
            (weigh-same_live st (record fileset { state = state }) fileset refl refl
                ((next-live fileset.state FilesetState.failed state moved refl).1 ∙ sym live)
              ∙ q))
          λ _. Keeps-bind _ _ (Keeps-put_transfer (Balance (on_storage st) fileset.id w n) _) λ _.
            Keeps-bind _ _
              (Keeps-record_event (Balance (on_storage st) fileset.id w n) now actor _ _ _ _ _ _)
              λ _. Keeps-commit

  start_release-Keeps :
      (fileset : Fileset)
      → Keeps (λ db. Balance (on_storage st) fileset.id w n db.filesets) (start_release now fileset)
  unfolding start_release
  start_release-Keeps fileset =
      let Q = Balance (on_storage st) fileset.id w n in
      Keeps-bind _ _ (Keeps-reads _) λ id. Keeps-bind _ _ (Keeps-add_transfer Q _) λ _.
        Keeps-bind _ _ (Keeps-lift _) λ _.
          Keeps-bind _ _ (Keeps-lift _)
            λ _. Keeps-bind _ _ (Keeps-put_transfer Q _) λ _. Keeps-pure _

  refused_conclude-Keeps :
      (fileset : Fileset) (transfer : Transfer) (e : StashError) (r : Result (Unit {0}))
      → r ≡ err e
      → weigh (on_storage st) fileset ≡ w
      → holds_allocation fileset.state ≡ true
      → Keeps
          (λ db. Balance (on_storage st) fileset.id w n db.filesets)
          (conclude_release now actor fileset transfer r)
  unfolding conclude_release
  refused_conclude-Keeps fileset transfer e (ok _) h q live = absurd (ground arith)
  refused_conclude-Keeps fileset transfer e (err failure) h q live =
      Keeps-bind _ _ (fail_release-Keeps fileset transfer failure q live) λ _. Keeps-lift _

  refused_release-Keeps :
      (store : FilesetStore) (fileset : Fileset) (e : StashError)
      → store.delete fileset.id (location_of fileset) ≡ err e
      → weigh (on_storage st) fileset ≡ w
      → Keeps
          (λ db. Balance (on_storage st) fileset.id w n db.filesets)
          (perform_release now store actor fileset)
  unfolding perform_release location_of holds_allocation
  refused_release-Keeps store fileset e refused q =
      Keeps-bind _ _ (start_release-Keeps fileset) λ transfer. Keeps-bind-lift _ _ λ state moved.
        let leaving : Fileset = record fileset { state = state } in
        let (live, live') = next-live fileset.state FilesetState.releasing state moved refl in
        let same_weight = weigh-same_live st leaving fileset refl refl (live' ∙ sym live) ∙ q in
        Keeps-bind _ _ (Keeps-put_fileset (on_storage st) leaving fileset.id w n refl same_weight)
          λ _. Keeps-bind _ _ Keeps-commit λ _.
            refused_conclude-Keeps leaving transfer e
              (store.delete fileset.id (location_of fileset)) refused same_weight live'

-- When the daemon does not confirm the deletion of a fileset's directory, the bytes reserved on
-- every storage are in the end what they were, whatever else happens to the release. The fileset
-- is the row of its id.
pub perform_release-keeps-storage_allocated :
    (now : ℕ) (store : FilesetStore) (actor : Principal) (fileset : Fileset) (e : StashError)
    (st : Text) (db : Db)
    → IsRow fileset db
    → store.delete fileset.id (location_of fileset) ≡ err e
    → storage_allocated st (after (perform_release now store actor fileset) db)
      ≡ storage_allocated st db
perform_release-keeps-storage_allocated now store actor fileset e st db row refused =
    let p = on_storage st in
    let kept =
      Keeps-after (perform_release now store actor fileset) db
        (refused_release-Keeps now actor st (weigh p fileset) (total p db.filesets) store fileset e
          refused refl)
        (IsRow-Weighs p fileset db.filesets row, refl) in
    storage_allocated-eq-total st _ ∙ kept.1 ∙ sym (storage_allocated-eq-total st db)
