-- ===== src/Services/Lineage/Requests.antt =====
-- services/events.py, cancel.py and transfers_release.py: no request frees an allocation, but by
-- a deletion that a store confirmed.
use stashd.Prelude.{
  ℕ, ◌≡◌, refl, sym, ap, subst, ◌∙◌, ◌⊎◌, Text, Bool, true, false, not, ◌&&◌, Option, none, some,
  ◌==◌, inl, inr, if◌then◌else◌, arith,
}
use stashd.Domain.Errors.{ok, >>=-eq-ok}
use stashd.Domain.Floats.{FloatOps}
use stashd.Domain.Filesets.{FilesetState, next_fileset_state, holds_allocation}
use stashd.Domain.Filesets.Lifecycle.{next-live}
use stashd.Domain.Identity.{Principal}
use stashd.Config.{ClusterConfig}
use stashd.Models.{Fileset, Transfer, Db}
use stashd.Session.{writes, Exec}
use stashd.Session.Keeps.{
  Keeps, Keeps-pure, Keeps-lift, Keeps-reads, Keeps-writes, Keeps-commit, Keeps-bind,
  Keeps-bind-lift, Keeps-bind-reads,
}
use stashd.Session.Rows.{get_fileset, put_transfer}
use stashd.Services.Keeping.{Keeps-record_event, Keeps-put_transfer}
use stashd.Services.Releases.{FilesetStore, live_fileset, release_fileset}
use stashd.Services.Cancelling.{leave_failed, leave_found, cancel_transfer}
use stashd.Services.Cancelling.Request.{Keeps-refund}
use stashd.Services.Events.{
  Event, apply_to_fileset, touch, put_found, release_found, release_after_flush, releases_now,
  ignored, accept_event, apply_event, is_failed,
}
use stashd.Services.Lineage.{
  NeverDeletes, Unconfirmed, Traced, Reached, Line, Traced-put, Keeps-put, find-Traced,
  perform_release-Keeps,
}

-- The state of a row stays, or moves on to `ready` or to `failed`.
abbrev Step : FilesetState → FilesetState → Type 0
Step a b =
    (b ≡ a)
    ⊎ ((next_fileset_state a FilesetState.ready ≡ ok b)
        ⊎ (next_fileset_state a FilesetState.failed ≡ ok b))

Step-live : (a b : FilesetState) → Step a b → holds_allocation a ≡ true → holds_allocation b ≡ true
unfolding holds_allocation
Step-live a b (inl e) h = ap holds_allocation e ∙ h
Step-live a b (inr (inl e)) h = (next-live a FilesetState.ready b e refl).1
Step-live a b (inr (inr e)) h = (next-live a FilesetState.failed b e refl).1

apply_to_fileset-Step :
    (cluster : ClusterConfig) (now : ℕ) (event : Event) (t : Transfer) (again : Bool)
    (old new : Fileset)
    → apply_to_fileset cluster now event t again old ≡ ok new
    → (new.id ≡ old.id) × Step old.state new.state
unfolding apply_to_fileset
apply_to_fileset-Step cluster now event t again old new h = ground arith

leave_failed-Step :
    (t : Transfer) (old new : Fileset)
    → leave_failed t old ≡ ok new
    → (new.id ≡ old.id) × Step old.state new.state
unfolding leave_failed
leave_failed-Step t old new h = ground arith

the_same : (a b : Fileset) → ok (some a) ≡ ok (some b) → a ≡ b
the_same a b e = ground arith

Keeps-if :
    {Q : Db → Type 0} {A : Type 0} (b : Bool) (m k : Exec A)
    → Keeps Q m
    → Keeps Q k
    → Keeps Q (if b then m else k)
Keeps-if true m k hm hk = hm
Keeps-if false m k hm hk = hk

module _ (id : ℕ) where
  Reached-Step :
      (old new : Fileset)
      → (new.id ≡ old.id) × Step old.state new.state
      → Reached id old
      → Reached id new
  Reached-Step old new (same_id, step) h q =
      Step-live old.state new.state step (h (ap (λ i. i == id) (sym same_id) ∙ q))

  leave_found-Keeps :
      (t : Transfer) (found : Option Fileset)
      → ((g : Fileset) → found ≡ some g → Reached id g)
      → Keeps (Line id) (leave_found t found)
  leave_found-Keeps t none h = Keeps-pure tt
  leave_found-Keeps t (some g) h =
      Keeps-bind-lift _ _
        λ left e. Keeps-put id left (Reached-Step g left (leave_failed-Step t g left e) (h g refl))

  pub cancel_transfer-Keeps :
      (f : FloatOps) (cluster : ClusterConfig) (now : ℕ) (actor : Principal) (is_admin : Bool)
      (n : ℕ)
      → Keeps (Line id) (cancel_transfer f cluster now actor is_admin n)
  unfolding cancel_transfer
  cancel_transfer-Keeps f cluster now actor is_admin n =
      let Q = Traced id in
      Keeps-bind _ _ (Keeps-reads _) λ found. Keeps-bind _ _ (Keeps-lift _) λ transfer.
        Keeps-bind _ _ (Keeps-lift _) λ _. Keeps-bind _ _ (Keeps-lift _) λ stopped.
          Keeps-bind _ _ (Keeps-put_transfer Q stopped) λ _. Keeps-bind-reads _ _ λ d h.
            Keeps-bind _ _
              (leave_found-Keeps stopped (get_fileset stopped.fileset_id d)
                λ g e. find-Traced id _ d.filesets g e h)
              λ _. Keeps-bind _ _ (Keeps-refund Q cluster now f stopped) λ _.
                Keeps-bind _ _ (Keeps-record_event Q now actor _ _ _ _ _ _)
                  λ _. Keeps-bind _ _ Keeps-commit λ _. Keeps-pure _

  pub release_fileset-Keeps :
      (now : ℕ) (store : FilesetStore) (actor : Principal) (is_admin : Bool)
      (subject_user storage_id name : Text) (discard : Bool)
      → NeverDeletes id store
      → Keeps
          (Line id)
          (release_fileset now store actor is_admin subject_user storage_id name discard)
  unfolding release_fileset live_fileset
  release_fileset-Keeps now store actor is_admin subject_user storage_id name discard unconfirmed =
      Keeps-bind _ _ (Keeps-lift _) λ _. Keeps-bind-reads _ _ λ d h.
        Keeps-bind-lift _ _ λ fileset e.
          Keeps-bind _ _ (Keeps-lift _)
            λ _. perform_release-Keeps id now actor store fileset unconfirmed

  touched-Keeps :
      (cluster : ClusterConfig) (now : ℕ) (event : Event) (t : Transfer) (again : Bool)
      (found touched : Option Fileset)
      → ((g : Fileset) → found ≡ some g → Reached id g)
      → touch cluster now event t again found ≡ ok touched
      → Keeps (Line id) (writes (λ db. put_found cluster now touched (put_transfer t db)))
  touched-Keeps cluster now event t again none none h e = Keeps-put_transfer (Traced id) t
  touched-Keeps cluster now event t again none (some g') h e = absurd (ground arith)
  touched-Keeps cluster now event t again (some g) none h e = absurd (ground arith)
  touched-Keeps cluster now event t again (some g) (some g') h e =
      let (x, applied, q) =
        >>=-eq-ok (apply_to_fileset cluster now event t again g) (λ x. ok (some x)) (some g') e in
      let further : Reached id g' = subst (Reached id) (the_same x g' q) (
        Reached-Step g x (apply_to_fileset-Step cluster now event t again g x applied)
          (h g refl)) in
      Keeps-writes _ (λ db k. Traced-put id g' db.filesets further k)

  after_flush-Keeps :
      (cluster : ClusterConfig) (now : ℕ) (store : FilesetStore) (g : Fileset)
      → NeverDeletes id store
      → Keeps (Line id) (release_after_flush cluster now store g)
  unfolding release_after_flush
  after_flush-Keeps cluster now store g unconfirmed = record {
    at = λ st k. (perform_release-Keeps id now _ store g unconfirmed).at st k;
  }

  released-Keeps :
      (cluster : ClusterConfig) (now : ℕ) (store : Option FilesetStore) (found : Option Fileset)
      (b : Bool)
      → Unconfirmed id store
      → Keeps (Line id) (release_found cluster now store found b)
  released-Keeps cluster now none found b unconfirmed = Keeps-pure tt
  released-Keeps cluster now (some store) none b unconfirmed = Keeps-pure tt
  released-Keeps cluster now (some store) (some g) false unconfirmed = Keeps-pure tt
  released-Keeps cluster now (some store) (some g) true unconfirmed =
      after_flush-Keeps cluster now store g unconfirmed

  accept_event-Keeps :
      (cluster : ClusterConfig) (now : ℕ) (f : FloatOps) (store : Option FilesetStore)
      (event : Event) (t : Transfer)
      → Unconfirmed id store
      → Keeps (Line id) (accept_event cluster now f store event t)
  unfolding accept_event
  accept_event-Keeps cluster now f store event t unconfirmed =
      Keeps-bind _ _ (Keeps-lift _) λ (new, again). Keeps-bind-reads _ _ λ d h.
        Keeps-bind-lift _ _ λ touched e.
          let kept =
            touched-Keeps cluster now event new again (get_fileset new.fileset_id d) touched
              (λ g q. find-Traced id _ d.filesets g q h) e in
          Keeps-bind _ _ kept λ _.
            Keeps-bind _ _
              (Keeps-if (is_failed event.kind && not again) _ _
                (Keeps-refund (Traced id) cluster now f new) (Keeps-pure tt))
              λ _. Keeps-bind _ _ Keeps-commit λ _.
                Keeps-bind _ _
                  (released-Keeps cluster now store touched (releases_now cluster now new event)
                    unconfirmed)
                  λ _. Keeps-pure _

  pub apply_event-Keeps :
      (cluster : ClusterConfig) (now : ℕ) (f : FloatOps) (store : Option FilesetStore)
      (event : Event)
      → Unconfirmed id store
      → Keeps (Line id) (apply_event cluster now f store event)
  unfolding apply_event
  apply_event-Keeps cluster now f store event unconfirmed = Keeps-bind _ _ (Keeps-reads _) λ found.
      Keeps-bind _ _ (Keeps-lift _) λ t. Keeps-if (ignored event t) _ _ (Keeps-pure _) (
        Keeps-bind _ _ (accept_event-Keeps cluster now f store event t unconfirmed)
          λ applied. Keeps-pure _)
