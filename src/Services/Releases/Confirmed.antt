-- ===== src/Services/Releases/Confirmed.antt =====
-- What a release that succeeded has done (services/transfers_release.py).
use stashd.Prelude.{ℕ, ◌≡◌, refl, true, List, All, ◌==◌, arith, some}
use stashd.Domain.Errors.{Result, ok, err}
use stashd.Domain.Filesets.{FilesetState, next_fileset_state}
use stashd.Domain.Transfers.{TransferState, next_transfer_state}
use stashd.Domain.Identity.{Principal}
use stashd.Models.{Fileset, Transfer, Db}
use stashd.Session.{Session, after, outcome}
use stashd.Session.Leads.{
  Leads, Leads-lift, Leads-pure, Leads-err, Leads-writes, Leads-commit, Leads-bind, Leads-any,
  put-All,
}
use stashd.Services.Accounting.{record_event}
use stashd.Services.Releases.{
  FilesetStore, perform_release, conclude_release, finish_release, location_of,
}

-- Every row with the fileset's id is released.
abbrev pub AllReleased : ℕ → List Fileset → Type 0
AllReleased id rows = All (λ r. (r.id == id) ≡ true → r.state ≡ FilesetState.released) rows

abbrev ReleasedIn : ℕ → Db → Type 0
ReleasedIn id db = AllReleased id db.filesets

fileset_moved : (a b c : FilesetState) → next_fileset_state a c ≡ ok b → b ≡ c
unfolding next_fileset_state
fileset_moved a b c h = ground arith

transfer_moved : (a b c : TransferState) → next_transfer_state a c ≡ ok b → b ≡ c
unfolding next_transfer_state
transfer_moved a b c h = ground arith

module _ (now : ℕ) (actor : Principal) where
  finish_release-Leads :
      (fileset : Fileset) (transfer : Transfer)
      → Leads
          (λ s. Unit {0})
          (finish_release now actor fileset transfer)
          (λ t s. (t.state ≡ TransferState.succeeded) × ReleasedIn fileset.id s.committed)
  unfolding finish_release record_event
  finish_release-Leads fileset transfer =
      let seen = λ (state : TransferState) (s : Session).
        (state ≡ TransferState.succeeded) × ReleasedIn fileset.id s.working in
      Leads-bind _ _ _ (Leads-lift (λ _. Unit {0}) _) λ released.
        Leads-bind _ _ _ (Leads-lift _ _) λ state.
          Leads-bind _ _ (λ _. seen state)
            (Leads-writes _ (seen state) λ s (q, (q', _)). (
              transfer_moved transfer.state state TransferState.succeeded q,
              put-All (λ r. r.state ≡ FilesetState.released)
                  (record fileset {
                    state = released;
                    released_at = some now;
                    last_transfer_id = some transfer.id;
                  })
                  s.working.filesets
                  (fileset_moved fileset.state released FilesetState.released q'),
            ))
            λ _.
              Leads-bind _ _ (λ _. seen state) (Leads-writes _ (seen state) λ s h. h)
                λ _.
                  Leads-bind _ _ (λ _. seen state) (Leads-writes _ (seen state) λ s h. h)
                    λ _.
                      Leads-bind _ _
                        (λ _ s.
                          ((state ≡ TransferState.succeeded) × ReleasedIn fileset.id s.committed)
                          × ((state ≡ TransferState.succeeded) × ReleasedIn fileset.id s.working))
                        (Leads-commit
                          (λ db. (state ≡ TransferState.succeeded) × ReleasedIn fileset.id db))
                        λ _. Leads-pure _ _ λ s h. h.0

  conclude_release-Leads :
      (fileset : Fileset) (transfer : Transfer) (r : Result (Unit {0}))
      → Leads
          (λ s. Unit {0})
          (conclude_release now actor fileset transfer r)
          (λ t s.
            (r ≡ ok tt) × ((t.state ≡ TransferState.succeeded) × ReleasedIn fileset.id s.committed))
  unfolding conclude_release
  conclude_release-Leads fileset transfer (err failure) =
      Leads-bind _ _ _ (Leads-any _) λ _. Leads-err failure _
  conclude_release-Leads fileset transfer (ok _) = record {
    at = λ s h t q. (refl, (finish_release-Leads fileset transfer).at s h t q);
  }

  perform_release-Leads :
      (store : FilesetStore) (fileset : Fileset)
      → Leads
          (λ s. Unit {0})
          (perform_release now store actor fileset)
          (λ t s.
            (store.delete fileset.id (location_of fileset) ≡ ok tt)
            × ((t.state ≡ TransferState.succeeded) × ReleasedIn fileset.id s.committed))
  unfolding perform_release location_of
  perform_release-Leads store fileset = Leads-bind _ _ _ (Leads-any _) λ transfer.
      Leads-bind _ _ _ (Leads-any _) λ state. Leads-bind _ _ _ (Leads-any _) λ _.
        Leads-bind _ _ _ (Leads-any _) λ _.
          conclude_release-Leads (record fileset { state = state }) transfer
            (store.delete fileset.id (location_of fileset))

-- A release that returns a transfer has the daemon's confirmation that the directory is gone, the
-- transfer succeeded, and every row with the fileset's id is committed as released.
pub perform_release-confirmed :
    (now : ℕ) (store : FilesetStore) (actor : Principal) (fileset : Fileset) (db : Db)
    (t : Transfer)
    → outcome (perform_release now store actor fileset) db ≡ ok t
    → (store.delete fileset.id (location_of fileset) ≡ ok tt)
      × ((t.state ≡ TransferState.succeeded)
          × AllReleased fileset.id (after (perform_release now store actor fileset) db).filesets)
unfolding outcome after
perform_release-confirmed now store actor fileset db t h =
    (perform_release-Leads now actor store fileset).at (record { committed = db; working = db }) tt
      t h
