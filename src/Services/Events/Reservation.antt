-- ===== src/Services/Events/Reservation.antt =====
-- What a report does to the bytes reserved (services/events.py).
use stashd.Prelude.{
  ℕ, ◌≡◌, refl, sym, ap, ◌∙◌, ◌⊎◌, Text, Bool, true, false, not, ◌&&◌, Option, none, some,
  Bool-cases, inl, inr, if◌then◌else◌, arith,
}
use stashd.Domain.Errors.{ok, >>=-eq-ok}
use stashd.Domain.Floats.{FloatOps}
use stashd.Domain.Filesets.{next_fileset_state, holds_allocation}
use stashd.Config.{ClusterConfig}
use stashd.Models.{Fileset, Transfer, Db}
use stashd.Session.{Exec, after, writes, pure}
use stashd.Session.Keeps.{
  Keeps, Keeps-pure, Keeps-writes, Keeps-commit, Keeps-bind, Keeps-bind-lift, Keeps-bind-reads,
  Keeps-after,
}
use stashd.Session.Ledger.{weigh, total}
use stashd.Session.Keys.{Keyed}
use stashd.Session.Profile.{Profile, Profile-put, find-Profile, Keyed-Profile}
use stashd.Session.Rows.{get_fileset, put_transfer}
use stashd.Services.Keeping.{Keeps-put_transfer}
use stashd.Services.Admitting.{storage_allocated}
use stashd.Services.Releases.{FilesetStore}
use stashd.Services.Releases.Reservation.{on_storage, storage_allocated-eq-total}
use stashd.Services.Cancelling.Request.{Keeps-refund}
use stashd.Services.Events.{
  Event, is_finished, is_failed, ignored, apply_to_fileset, touch, put_found, release_found,
  releases_now, accept_event, apply_event,
}

-- A report keeps the fileset's id, and its weight on every storage.
apply_to_fileset-Reserved :
    (cluster : ClusterConfig) (now : ℕ) (event : Event) (t : Transfer) (again : Bool)
    (old new : Fileset) (st : Text)
    → apply_to_fileset cluster now event t again old ≡ ok new
    → (new.id ≡ old.id) × (weigh (on_storage st) new ≡ weigh (on_storage st) old)
unfolding apply_to_fileset next_fileset_state holds_allocation
apply_to_fileset-Reserved cluster now event t again old new st h = ground arith

-- A report releases at once only when it says finished.
releases_now-finished :
    (cluster : ClusterConfig) (now : ℕ) (t : Transfer) (event : Event)
    → is_finished event.kind ≡ false
    → releases_now cluster now t event ≡ false
unfolding releases_now
releases_now-finished cluster now t event h = ground arith

the_same : (a b : Fileset) → ok (some a) ≡ ok (some b) → a ≡ b
the_same a b e = ground arith

module _ (cluster : ClusterConfig) (now : ℕ) (event : Event) (st : Text) where
  touched-Keeps :
      (w : ℕ → ℕ) (n id : ℕ) (t : Transfer) (again : Bool) (found touched : Option Fileset)
      → ((g : Fileset) → found ≡ some g → (g.id ≡ id) × (weigh (on_storage st) g ≡ w id))
      → touch cluster now event t again found ≡ ok touched
      → Keeps
          (λ db. Profile (on_storage st) w n db.filesets)
          (writes (λ db. put_found cluster now touched (put_transfer t db)))
  touched-Keeps w n id t again none none h e = Keeps-put_transfer (Profile (on_storage st) w n) t
  touched-Keeps w n id t again none (some g') h e = absurd (ground arith)
  touched-Keeps w n id t again (some g) none h e = absurd (ground arith)
  touched-Keeps w n id t again (some g) (some g') h e =
      let (same_id, weight) = h g refl in
      let (x, applied, q) =
        >>=-eq-ok (apply_to_fileset cluster now event t again g) (λ x. ok (some x)) (some g') e in
      let (kept_id, kept) = apply_to_fileset-Reserved cluster now event t again g x st applied in
      let made = the_same x g' q in
      Keeps-writes _ λ db b.
        Profile-put (on_storage st) w n g' db.filesets
          (ap (weigh (on_storage st)) (sym made)
            ∙ (kept ∙ (weight ∙ ap w (sym (ap (λ y. y.id) (sym made) ∙ (kept_id ∙ same_id))))))
          b

  kept_if :
      {P : Db → Type 0} (b : Bool) (m : Exec (Unit {0}))
      → Keeps P m
      → Keeps P (if b then m else pure tt)
  kept_if true m k = k
  kept_if false m k = Keeps-pure tt

  unreleased-Keeps :
      {P : Db → Type 0} (store : Option FilesetStore) (found : Option Fileset) (b : Bool)
      → (store ≡ none) ⊎ (b ≡ false)
      → Keeps P (release_found cluster now store found b)
  unreleased-Keeps none found b h = Keeps-pure tt
  unreleased-Keeps (some store) none b h = Keeps-pure tt
  unreleased-Keeps (some store) (some g) false h = Keeps-pure tt
  unreleased-Keeps (some store) (some g) true h = absurd (ground arith)

  accept_event-Keeps :
      (f : FloatOps) (store : Option FilesetStore) (t : Transfer) (w : ℕ → ℕ) (n : ℕ)
      → (store ≡ none) ⊎ (is_finished event.kind ≡ false)
      → Keeps
          (λ db. Profile (on_storage st) w n db.filesets)
          (accept_event cluster now f store event t)
  unfolding accept_event
  accept_event-Keeps f store t w n quiet =
      let p = on_storage st in
      let Q = Profile p w n in
      Keeps-bind-lift _ _ λ (new, again) reported. Keeps-bind-reads _ _ λ d h.
        Keeps-bind-lift _ _ λ touched e.
          Keeps-bind _ _
            (touched-Keeps w n new.fileset_id new again (get_fileset new.fileset_id d) touched
              (λ g q. find-Profile p w n new.fileset_id d.filesets g q h) e)
            λ _.
              Keeps-bind _ _
                (kept_if (is_failed event.kind && not again) _ (Keeps-refund Q cluster now f new))
                λ _. Keeps-bind _ _ Keeps-commit λ _.
                  Keeps-bind _ _
                    (unreleased-Keeps store touched (releases_now cluster now new event)
                      (elim quiet [
                        | inl a ↦ inl a
                        | inr b ↦ inr (releases_now-finished cluster now new event b)
                      ]))
                    λ _. Keeps-pure _

  -- A report keeps every fileset's weight, unless it says finished and a store is there.
  pub apply_event-Keeps :
      (f : FloatOps) (store : Option FilesetStore) (w : ℕ → ℕ) (n : ℕ)
      → (store ≡ none) ⊎ (is_finished event.kind ≡ false)
      → Keeps
          (λ db. Profile (on_storage st) w n db.filesets)
          (apply_event cluster now f store event)
  unfolding apply_event
  apply_event-Keeps f store w n quiet = Keeps-bind-reads _ _ λ d h. Keeps-bind-lift _ _ λ t found.
      elim (Bool-cases (ignored event t)) [
        | inl e ↦ rw e (Keeps-pure _)
        | inr e ↦
            rw e (Keeps-bind _ _ (accept_event-Keeps f store t w n quiet) λ applied. Keeps-pure _)
      ]

-- A report leaves the bytes reserved on every storage as they were, whether it is unknown, ignored,
-- refused or applied, unless it says finished and a store is there to release the fileset. The
-- filesets' ids are a key.
pub apply_event-keeps-storage_allocated :
    (cluster : ClusterConfig) (now : ℕ) (f : FloatOps) (store : Option FilesetStore) (event : Event)
    (st : Text) (db : Db)
    → (store ≡ none) ⊎ (is_finished event.kind ≡ false)
    → Keyed db.filesets
    → storage_allocated st (after (apply_event cluster now f store event) db)
      ≡ storage_allocated st db
apply_event-keeps-storage_allocated cluster now f store event st db quiet keyed =
    let (w, before) = Keyed-Profile (on_storage st) db.filesets keyed in
    let kept =
      Keeps-after _ db
        (apply_event-Keeps cluster now event st f store w (total (on_storage st) db.filesets) quiet)
        before in
    storage_allocated-eq-total st _ ∙ (kept.1 ∙ sym (storage_allocated-eq-total st db))
