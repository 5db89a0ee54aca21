-- ===== src/Services/Filesets/Capacity.antt =====
-- What creating an output fileset does to the bytes reserved on its storage
-- (services/filesets.py).
use stashd.Prelude.{
  ℕ, ◌+◌, ◌≤◌, ◌<◌, All, max, ◌≡◌, refl, sym, subst, ◌∙◌, Text, same, same_iff, not, List, [], ◌∷◌,
  find_first-holds, arith, Option, some, none, if◌then◌else◌, ◌==◌,
}
use stashd.Prelude.Int.{pos}
use stashd.Domain.Errors.{Result, ErrorCode, ok, err, raise, text, >>=-eq-ok}
use stashd.Domain.Floats.{FloatOps}
use stashd.Domain.Allocation.{AllocationRequest, admit}
use stashd.Domain.Allocation.Admission.{admit_iff}
use stashd.Domain.Filesets.{FilesetState, next_fileset_state, holds_allocation}
use stashd.Domain.Filesets.Lifecycle.{next-live}
use stashd.Domain.Identity.{Principal}
use stashd.Config.{ClusterConfig, Storage, storage, has_role, cache}
use stashd.Models.{Fileset, Db}
use stashd.Session.{Session, Exec, ◌>>=◌, ◌>>◌, writes, commit, after}
use stashd.Session.Keeps.{
  Both, Keeps, Keeps-pure, Keeps-lift, Keeps-writes, Keeps-commit, Keeps-bind, Keeps-bind-lift,
  after-lift, after-reads,
}
use stashd.Session.Ledger.{
  weigh, weigh-le, total, total-∷, total-append, Weighs, Fresh, Fresh-Weighs, Weighs-append,
  Weighs-select, Weighs-put, total-put, total-select-le, Bounded,
}
use stashd.Session.Rows.{put_fileset, add_fileset}
use stashd.Services.Keeping.{Keeps-record_event, audited-after}
use stashd.Services.Releases.{Owner, FilesetLocation, FilesetStore}
use stashd.Services.Releases.Reservation.{on_storage, weigh-same_live}
use stashd.Services.Admitting.{
  name_taken, storage_allocated, admission_state, cache_storage, new_output, or_zero,
}
use stashd.Services.Filesets.{decide_create, create_output_fileset, created, delete_fileset}

-- The bytes that may be reserved on a storage: the share of its capacity that `fill_limit` leaves.
abbrev pub fillable : FloatOps → Storage → ℕ
fillable f s = f.floor (f.scale (or_zero s.capacity_bytes) s.fill_limit)

-- The storage found has the id that was asked for.
pub cache_storage-id :
    (cluster : ClusterConfig) (id : Text) (s : Storage)
    → cache_storage cluster id ≡ ok s
    → s.id ≡ id
unfolding cache_storage storage
cache_storage-id cluster id s h =
    (same_iff s.id id).0
      (find_first-holds (λ t. same t.id id) cluster.storages s (picked (storage cluster id) h))
  where
    picked :
        (o : Option Storage)
        → (elim o [
          | none ↦ raise ErrorCode.not_found (("storage", text id) ∷ [])
          | some t ↦
              (if has_role t cache
                then ok t
                else raise ErrorCode.not_a_cache_storage (("storage", text id) ∷ []))
        ])
          ≡ ok s
        → o ≡ some s
    picked none e = absurd (ground arith)
    picked (some t) e = ground arith

-- An admitted reservation fits the storage.
pub decide_create-fits :
    (f : FloatOps) (cluster : ClusterConfig) (now : ℕ) (owner : Owner) (s : Storage) (name : Text)
    (n : ℕ) (db : Db)
    → decide_create f cluster now owner s name n db ≡ ok tt
    → storage_allocated s.id db + n ≤ fillable f s
unfolding decide_create admission_state
decide_create-fits f cluster now owner s name n db h =
    let request : AllocationRequest = record {
      user = owner.user;
      storage_id = s.id;
      requested_bytes = pos n;
    } in
    let state = admission_state cluster owner.user s db in
    let (_, _, admitted) =
      >>=-eq-ok (name_taken owner.user s.id name db) (λ _. admit f request state) tt h in
    ((admit_iff f request state n refl).0 admitted).within_capacity

module _ (f : FloatOps) (cluster : ClusterConfig) (now : ℕ) (store : FilesetStore)
    (actor : Principal) (st : Text) (n : ℕ) where
  Keeps-put :
      (g : Fileset) (id w : ℕ)
      → g.id ≡ id
      → weigh (on_storage st) g ≡ w
      → Keeps (λ db. Bounded (on_storage st) id w n db.filesets) (writes (put_fileset g))
  Keeps-put g id w q e = Keeps-writes (put_fileset g) (λ db (h, t). (
    Weighs-put (on_storage st) id w g db.filesets h e,
    omega (
      arith,
      t,
      total-put (on_storage st) g w db.filesets
          (subst (λ i. Weighs (on_storage st) i w db.filesets) (sym q) h) e,
    ),
  ))

  -- The directory was made, or the reservation is taken back.
  created-Keeps :
      (fileset : Fileset) (r : Result FilesetLocation)
      → Keeps
          (λ db. Bounded (on_storage st) fileset.id (weigh (on_storage st) fileset) n db.filesets)
          (created f cluster now store actor fileset r)
  unfolding next_fileset_state holds_allocation
  created-Keeps fileset (err failure) =
      let p = on_storage st in
      Keeps-bind _ _
        (Keeps-writes (delete_fileset fileset.id) (λ db (h, t). (
          Weighs-select p fileset.id (weigh p fileset) _ db.filesets h,
          omega (arith, t, total-select-le p (λ g. not (g.id == fileset.id)) db.filesets),
        )))
        λ _. Keeps-bind _ _ Keeps-commit λ _. Keeps-lift _
  created-Keeps fileset (ok location) =
      let Q = Bounded (on_storage st) fileset.id (weigh (on_storage st) fileset) n in
      Keeps-bind-lift _ _ λ ready moved.
        let live = next-live fileset.state FilesetState.ready ready moved refl in
        let made : Fileset = record fileset { path = location.path; state = ready } in
        Keeps-bind _ _
          (Keeps-put made fileset.id (weigh (on_storage st) fileset) refl
            (weigh-same_live st made fileset refl refl (live.1 ∙ sym live.0)))
          λ _.
            Keeps-bind _ _ (Keeps-record_event Q now actor _ _ _ _ _ _)
              λ _. Keeps-bind _ _ Keeps-commit λ _. Keeps-pure _

  -- The new row is added, committed and then made ready or taken back.
  reserved-le :
      (fileset : Fileset) (db : Db) (rest : Exec Fileset)
      → All (λ r. r.id < fileset.id) db.filesets
      → total (on_storage st) db.filesets + weigh (on_storage st) fileset ≤ n
      → Keeps
          (λ d. Bounded (on_storage st) fileset.id (weigh (on_storage st) fileset) n d.filesets)
          rest
      → total
          (on_storage st)
          ((do writes (add_fileset fileset); commit; rest)
            (record { committed = db; working = db })).1.committed.filesets
        ≤ n
  unfolding ◌>>=◌ writes
  reserved-le fileset db rest fresh fits k =
      let p = on_storage st in
      let w = weigh p fileset in
      let before = Fresh-Weighs p fileset.id w db.filesets fresh in
      ((Keeps-bind commit (λ _. rest) Keeps-commit (λ _. k)).at
        (record { committed = db; working = add_fileset fileset db })
        (record {
          committed = (before, omega (arith, fits));
          working = (
            Weighs-append p fileset.id w db.filesets (fileset ∷ []) before (λ _. refl, tt),
            omega (arith, fits, total-append p db.filesets (fileset ∷ []), total-∷ p fileset []),
          );
        })).committed.1

found_once : (r : Result Storage) (a b : Storage) → r ≡ ok a → r ≡ ok b → a ≡ b
found_once r a b h k = ground arith

-- Creating an output fileset on a known cache storage never brings the bytes reserved there above
-- what was reserved before or what the storage may be filled to, whichever is larger: whether the
-- request is refused, the daemon fails to make the directory, a constraint is broken or the
-- fileset is made. The ids of the filesets are below the next of the sequence.
pub create_output_fileset-within :
    (f : FloatOps) (cluster : ClusterConfig) (now : ℕ) (store : FilesetStore) (actor : Principal)
    (owner : Owner) (name : Text) (size_bytes : ℕ) (s : Storage) (db : Db)
    → Fresh db
    → cache_storage cluster s.id ≡ ok s
    → storage_allocated s.id
        (after (create_output_fileset f cluster now store actor owner s.id name size_bytes) db)
      ≤ max (storage_allocated s.id db) (fillable f s)
unfolding after create_output_fileset new_output storage_allocated
create_output_fileset-within f cluster now store actor owner name size_bytes s db fresh known =
    let p = on_storage s.id in
    let n = max (storage_allocated s.id db) (fillable f s) in
    let start : Session = record { committed = db; working = db } in
    let Q = λ (rows : List Fileset). total p rows ≤ n in
    let C = λ (d : Db). Q d.filesets in
    let unchanged : total p db.filesets ≤ n = omega arith in
    let both : Both C start = record { committed = unchanged; working = unchanged } in
    after-lift C _ _ start unchanged λ s' found. after-lift C _ _ start unchanged λ _ _.
      after-reads C _ _ start (
        audited-after Q _ _ _ start both (λ e. Keeps-record_event Q now actor _ _ _ _ _ _)
          λ _ admitted. after-reads C _ _ start (
            reserved-le f cluster now store actor s.id n
              (new_output db.next_fileset now owner s.id name size_bytes) db _ fresh
              (omega (
                arith,
                weigh-le p (new_output db.next_fileset now owner s.id name size_bytes),
                decide_create-fits f cluster now owner s name size_bytes db (
                    subst (λ x. decide_create f cluster now owner x name size_bytes db ≡ ok tt)
                      (found_once (cache_storage cluster s.id) s' s found known) admitted),
              ))
              (created-Keeps f cluster now store actor s.id n
                (new_output db.next_fileset now owner s.id name size_bytes)
                (store.create s.id owner name size_bytes))))
