-- ===== src/Services/Filesets.antt =====
-- services/filesets.py: creating an output fileset and changing a reservation.
pub mod Capacity
use stashd.Prelude.{
  ℕ, Text, digits_of, same, Bool, not, ◌&&◌, [], ◌∷◌, ◌++◌, select, ◌==◌, Option, none, some,
  if◌then◌else◌,
}
use stashd.Prelude.Int.{ℤ, pos, ltb_ℤ}
use stashd.Domain.Errors.{ErrorCode, StashError, Detail, num, text, Result, ok, err, raise, refuse}
use stashd.Domain.Errors
use stashd.Domain.Floats.{FloatOps}
use stashd.Domain.Allocation.{admit, check_resize}
use stashd.Domain.References.{validate_fileset_name}
use stashd.Domain.Filesets.{FilesetState, next_fileset_state, holds_allocation}
use stashd.Domain.Identity.{Principal}
use stashd.Config.{ClusterConfig, Storage, storage}
use stashd.Models.{Fileset, Db}
use stashd.Session.{Exec, ◌>>=◌, ◌>>◌, pure, lift, reads, writes, commit}
use stashd.Session.Rows.{get_fileset, put_fileset, add_fileset}
use stashd.Services.Accounting.{record_event}
use stashd.Services.Releases.{Owner, FilesetLocation, FilesetStore, location_of}
use stashd.Services.Admitting.{
  admission_state, cache_storage, audited_refusal, name_taken, new_output,
}

-- `session.delete(fileset)`.
abbrev delete_fileset : ℕ → Db → Db
delete_fileset id db = record db { filesets = select (λ f. not (f.id == id)) db.filesets }

-- `STORAGE:name`.
abbrev pub reference : Text → Text → Text
reference storage_id name = storage_id ++ (b':' ∷ name)

module _ (f : FloatOps) (cluster : ClusterConfig) (now : ℕ) where
  -- The decision of `create_output_fileset`, under the user's lock.
  unfoldable pub decide_create : Owner → Storage → Text → ℕ → Db → Result (Unit {0})
  unfolding name_taken admission_state
  decide_create owner s name size_bytes db = Errors.◌>>◌ (name_taken owner.user s.id name db) (
      admit f (record { user = owner.user; storage_id = s.id; requested_bytes = pos size_bytes })
        (admission_state cluster owner.user s db))

  abbrev created : FilesetStore → Principal → Fileset → Result FilesetLocation → Exec Fileset
  created store actor fileset (err failure) = do
    writes (delete_fileset fileset.id)
    commit
    lift (err failure)
  created store actor fileset (ok location) = do
    ready ← lift (next_fileset_state fileset.state FilesetState.ready)
    let made = record fileset { path = location.path; state = ready }
    writes (put_fileset made)
    record_event now actor fileset.owner_user "fileset" (digits_of fileset.id) "create" none (
        ("storage", text fileset.storage_id)
        ∷ ("name", text fileset.name)
        ∷ ("allocated_bytes", num fileset.allocated_bytes)
        ∷ [])
    commit
    pure made

  -- `create_output_fileset`: reserve first, then create the directory, then READY.
  unfoldable pub create_output_fileset :
      FilesetStore → Principal → Owner → Text → Text → ℕ → Exec Fileset
  unfolding decide_create cache_storage new_output record_event
  create_output_fileset store actor owner storage_id name size_bytes = do
    s ← lift (cache_storage cluster storage_id)
    lift (validate_fileset_name name)
    decision ← reads (decide_create owner s name size_bytes)
    audited_refusal
        (λ refusal.
          record_event now actor owner.user "fileset" (reference storage_id name) "create"
            (some refusal.code) refusal.details)
        decision
    id ← reads (λ db. db.next_fileset)
    let fileset = new_output id now owner storage_id name size_bytes
    writes (add_fileset fileset)
    commit
    created store actor fileset (store.create storage_id owner name size_bytes)

  -- The guards of `resize_fileset` before the lock is taken.
  unfoldable pub check_resizable : Principal → Bool → Bool → Fileset → Result (Unit {0})
  unfolding same holds_allocation
  check_resizable actor is_admin force fileset =
      if not (same fileset.owner_user actor.username) && not is_admin
      then raise ErrorCode.forbidden (("owner", text fileset.owner_user) ∷ [])
      else if force && not is_admin
      then raise ErrorCode.forbidden []
      else if not (holds_allocation fileset.state)
      then raise ErrorCode.conflict []
      else ok tt

  abbrev grow : Fileset → ℤ → Db → Option Storage → Result (Unit {0})
  grow fileset delta db none = raise ErrorCode.internal []
  grow fileset delta db (some s) =
      admit f (record { user = fileset.owner_user; storage_id = s.id; requested_bytes = delta })
        (admission_state cluster fileset.owner_user s db)

  -- The decision of `resize_fileset`: growing runs admission again on what is added.
  unfoldable pub decide_resize : Fileset → ℕ → Bool → Db → Result (Unit {0})
  unfolding admission_state
  decide_resize fileset size_bytes force db =
      Errors.◌>>=◌ (check_resize fileset.allocated_bytes fileset.used_bytes (pos size_bytes) force)
        λ delta.
          if ltb_ℤ (pos 0) delta
          then grow fileset delta db (storage cluster fileset.storage_id)
          else ok tt

  abbrev or_no_fileset : ℕ → Option Fileset → Result Fileset
  or_no_fileset id none = raise ErrorCode.not_found (("fileset_id", num id) ∷ [])
  or_no_fileset id (some fileset) = ok fileset

  unfoldable pub resize_fileset : FilesetStore → Principal → Bool → ℕ → ℕ → Bool → Exec Fileset
  unfolding check_resizable decide_resize record_event location_of
  resize_fileset store actor is_admin fileset_id size_bytes force = do
    found ← reads (get_fileset fileset_id)
    fileset ← lift (or_no_fileset fileset_id found)
    lift (check_resizable actor is_admin force fileset)
    decision ← reads (decide_resize fileset size_bytes force)
    audited_refusal
        (λ refusal.
          record_event now actor fileset.owner_user "fileset" (digits_of fileset.id) "resize"
            (some refusal.code) refusal.details)
        decision
    let resized = record fileset { allocated_bytes = size_bytes }
    lift (store.set_quota (location_of resized) size_bytes)
    writes (put_fileset resized)
    record_event now actor fileset.owner_user "fileset" (digits_of fileset.id) "resize" none
        (("allocated_bytes", num size_bytes) ∷ [])
    commit
    pure resized
