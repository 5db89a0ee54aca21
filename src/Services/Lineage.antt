-- ===== src/Services/Lineage.antt =====
-- The reports of services/events.py, the cancellations of services/cancel.py and the releases of
-- services/transfers_release.py, in any order: what a fileset that holds its allocation goes on to.
pub mod Requests
pub mod Histories
use stashd.Prelude.{
  ℕ, ◌≡◌, ◌≢◌, refl, sym, ap, subst, ◌∙◌, Text, Bool, true, false, not, ◌&&◌, List, [], ◌∷◌, All,
  find_first, Option, none, some, ◌==◌, Bool-cases, Option-cases, inl, inr, if◌then◌else◌, arith,
}
use stashd.Domain.Errors.{Result, StashError, ok, err, >>=-eq-ok}
use stashd.Domain.Floats.{FloatOps}
use stashd.Domain.Filesets.{FilesetState, next_fileset_state, holds_allocation}
use stashd.Domain.Filesets.Lifecycle.{next-live}
use stashd.Domain.Identity.{Principal}
use stashd.Config.{ClusterConfig}
use stashd.Models.{Fileset, Transfer, Db}
use stashd.Session.{writes, Exec}
use stashd.Session.Keeps.{
  Keeps, Keeps-pure, Keeps-lift, Keeps-reads, Keeps-writes, Keeps-commit, Keeps-bind,
  Keeps-bind-lift, Keeps-bind-reads,
}
use stashd.Session.Rows.{put_row_fileset, put_fileset, get_fileset}
use stashd.Services.Keeping.{Keeps-record_event, Keeps-put_transfer, Keeps-add_transfer}
use stashd.Services.Releases.{
  FilesetStore, FilesetLocation, start_release, fail_release, finish_release, conclude_release,
  perform_release, location_of, live_fileset, or_missing, release_fileset,
}
use stashd.Services.Cancelling.{leave_failed, leave_found, cancel_transfer, cancelled_row}
use stashd.Services.Cancelling.Request.{Keeps-refund}
use stashd.Services.Events.{Event, apply_to_fileset, touch, put_found, is_failed, is_finished}

pub some_eq : (a b : Fileset) → some a ≡ some b → a ≡ b
some_eq a b e = ground arith

-- A store that confirms no deletion of the fileset.
abbrev pub NeverDeletes : ℕ → FilesetStore → Type 0
NeverDeletes id store = (l : FilesetLocation) → store.delete id l ≢ ok tt

abbrev pub Unconfirmed : ℕ → Option FilesetStore → Type 0
Unconfirmed id none = Unit
Unconfirmed id (some store) = NeverDeletes id store

-- Every row with the id holds its allocation.
abbrev pub Traced : ℕ → List Fileset → Type 0
Traced id rows = All (λ r. (r.id == id) ≡ true → holds_allocation r.state ≡ true) rows

same_number : (a b : ℕ) → (a == b) ≡ true → a ≡ b
same_number a b h = ground arith

module _ (id : ℕ) where
  -- What a fileset that was read from a row carries.
  abbrev pub Reached : Fileset → Type 0
  Reached f = (f.id == id) ≡ true → holds_allocation f.state ≡ true

  pub Traced-put :
      (f : Fileset) (rows : List Fileset)
      → Reached f
      → Traced id rows
      → Traced id (put_row_fileset f rows)
  Traced-put f [] h k = tt
  Traced-put f (r ∷ rows) h (kr, k) = elim (Bool-cases (r.id == f.id)) [
    | inl e ↦ rw e (h, Traced-put f rows h k)
    | inr e ↦ rw e (kr, Traced-put f rows h k)
  ]

  pub find-Traced :
      (p : Fileset → Bool) (rows : List Fileset) (g : Fileset)
      → find_first p rows ≡ some g
      → Traced id rows
      → Reached g
  find-Traced p [] g e k = absurd (ground arith)
  find-Traced p (r ∷ rows) g e (kr, k) = elim (Bool-cases (p r)) [
    | inl q ↦ subst Reached (some_eq r g (rw q at e)) kr
    | inr q ↦ find-Traced p rows g (rw q at e) k
  ]

  abbrev pub Line : Db → Type 0
  Line db = Traced id db.filesets

  pub Keeps-put : (f : Fileset) → Reached f → Keeps Line (writes (put_fileset f))
  Keeps-put f h = Keeps-writes (put_fileset f) (λ db k. Traced-put f db.filesets h k)

  module _ (now : ℕ) (actor : Principal) where
    fail_release-Keeps :
        (fileset : Fileset) (transfer : Transfer) (e : StashError)
        → Keeps Line (fail_release now actor fileset transfer e)
    unfolding fail_release holds_allocation
    fail_release-Keeps fileset transfer e = Keeps-bind-lift _ _ λ state moved.
        Keeps-bind-lift _ _ λ state' moved'.
          Keeps-bind _ _
            (Keeps-put (record fileset { state = state })
              (λ q. (next-live fileset.state FilesetState.failed state moved refl).1))
            λ _. Keeps-bind _ _ (Keeps-put_transfer (Traced id) _) λ _.
              Keeps-bind _ _ (Keeps-record_event (Traced id) now actor _ _ _ _ _ _)
                λ _. Keeps-commit

    finish_release-Keeps :
        (fileset : Fileset) (transfer : Transfer)
        → (fileset.id == id) ≢ true
        → Keeps Line (finish_release now actor fileset transfer)
    unfolding finish_release
    finish_release-Keeps fileset transfer other = Keeps-bind-lift _ _ λ state moved.
        Keeps-bind-lift _ _ λ state' moved'.
          Keeps-bind _ _
            (Keeps-put
              (record fileset {
                state = state;
                released_at = some now;
                last_transfer_id = some transfer.id;
              })
              (λ q. absurd (other q)))
            λ _. Keeps-bind _ _ (Keeps-put_transfer (Traced id) _) λ _.
              Keeps-bind _ _ (Keeps-record_event (Traced id) now actor _ _ _ _ _ _)
                λ _. Keeps-bind _ _ Keeps-commit λ _. Keeps-pure _

    conclude_release-Keeps :
        (fileset : Fileset) (transfer : Transfer) (r : Result (Unit {0}))
        → ((fileset.id == id) ≡ true → r ≢ ok tt)
        → Keeps Line (conclude_release now actor fileset transfer r)
    unfolding conclude_release
    conclude_release-Keeps fileset transfer (ok _) unconfirmed =
        finish_release-Keeps fileset transfer (λ q. unconfirmed q refl)
    conclude_release-Keeps fileset transfer (err e) unconfirmed =
        Keeps-bind _ _ (fail_release-Keeps fileset transfer e) λ _. Keeps-lift _

    start_release-Keeps : (fileset : Fileset) → Keeps Line (start_release now fileset)
    unfolding start_release
    start_release-Keeps fileset = Keeps-bind _ _ (Keeps-reads _) λ t.
        Keeps-bind _ _ (Keeps-add_transfer (Traced id) _) λ _. Keeps-bind _ _ (Keeps-lift _) λ _.
          Keeps-bind _ _ (Keeps-lift _)
            λ _. Keeps-bind _ _ (Keeps-put_transfer (Traced id) _) λ _. Keeps-pure _

    -- A release frees nothing but what its daemon confirms as deleted.
    pub perform_release-Keeps :
        (store : FilesetStore) (fileset : Fileset)
        → NeverDeletes id store
        → Keeps Line (perform_release now store actor fileset)
    unfolding perform_release location_of holds_allocation
    perform_release-Keeps store fileset unconfirmed =
        Keeps-bind _ _ (start_release-Keeps fileset) λ transfer. Keeps-bind-lift _ _ λ state moved.
          let leaving : Fileset = record fileset { state = state } in
          Keeps-bind _ _
            (Keeps-put leaving
              (λ q. (next-live fileset.state FilesetState.releasing state moved refl).1))
            λ _. Keeps-bind _ _ Keeps-commit λ _.
              conclude_release-Keeps leaving transfer
                (store.delete fileset.id (location_of fileset))
                λ q.
                  subst (λ i. store.delete i (location_of fileset) ≢ ok tt)
                    (sym (same_number fileset.id id q)) (unconfirmed (location_of fileset))
