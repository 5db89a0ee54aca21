-- ===== src/Daemon/Requests/Confined.antt =====
-- Which paths a daemon hands to its engine (api/internal/tasks.py, tasks/execute.py).
use stashd.Prelude.{
  ℕ, Text, ◌≡◌, refl, ap, ◌⊎◌, inl, inr, true, Bool-cases, ◌||◌, same_iff, ◌++◌, [], ◌∷◌, List,
  Option, none, some, arith,
}
use stashd.Domain.Errors.{StashError, Result, ok, err}
use stashd.Domain.Errors
use stashd.Domain.References.{validate_storage_path}
use stashd.Paths.{PosixPath, join, print, same_parts, proper_start, same_path, is_parent}
use stashd.Daemon.Runner.{Runner, submit}
use stashd.Daemon.Driver.{
  Host, Act, proceed, ◌>>=◌, from, PosixDriver, ResolvedPath, is_inside, lstrip_slashes,
  resolve_inside, resolve,
}
use stashd.Daemon.Requests.{
  find_driver, served, driver_for, TransferTask, Engine, endpoint, execute_transfer, start_task,
}

-- The parts of `q` start with those of `p`, and go on with `rest`.
abbrev pub Under : PosixPath → PosixPath → List Text → Type 0
Under p q rest = (q.root ≡ p.root) × (q.parts ≡ p.parts ++ rest)

parts_under :
    (ss ts : List Text)
    → (same_parts ts ss || proper_start ss ts) ≡ true
    → (rest : List Text) × (ts ≡ ss ++ rest)
unfolding same_parts proper_start
parts_under [] ts h = (ts, refl)
parts_under (s ∷ ss) [] h = absurd (ground arith)
parts_under (s ∷ ss) (t ∷ ts) h =
    let i = same_iff s t in
    let j = same_iff t s in
    let below : (same_parts ts ss || proper_start ss ts) ≡ true = ground arith in
    let (rest, e) = parts_under ss ts below in (rest, ground arith)

is_inside-Under :
    (root candidate : PosixPath)
    → is_inside root candidate ≡ true
    → (rest : List Text) × Under root candidate rest
unfolding same_path is_parent
is_inside-Under root candidate h =
    let below : (same_parts candidate.parts root.parts || proper_start root.parts candidate.parts)
        ≡ true =
      ground arith in
    let (rest, e) = parts_under root.parts candidate.parts below in (rest, (ground arith, e))

module _ {W : Type 0} (host : Host W) where
  -- The path `absolute` was made of the requested `path`: the storage's rules accept it, and what
  -- the host resolves it to below the storage's root, links included, has parts that start with
  -- those of the root as the host resolves that.
  pub record Inside (d : PosixDriver) (path : Text) (w : W) (absolute : Text) : Type 0 where
    pub relative : Text
    pub accepted : validate_storage_path d.storage_id path ≡ ok relative
    pub printed : absolute ≡ print (host.resolve (join d.root (lstrip_slashes relative)) w)
    pub rest : List Text
    pub under :
        Under (host.resolve d.root w) (host.resolve (join d.root (lstrip_slashes relative)) w) rest

  abbrev Resolved : PosixDriver → Text → W → Result ResolvedPath → Type 0
  Resolved d path w (err e) = Unit
  Resolved d path w (ok p) = Inside d path w p.absolute

  resolve_inside-Resolved :
      (d : PosixDriver) (path : Text) (w : W) (relative : Text)
      → validate_storage_path d.storage_id path ≡ ok relative
      → Resolved d path w (resolve_inside host d w relative)
  unfolding resolve_inside
  resolve_inside-Resolved d path w relative valid =
      let candidate = host.resolve (join d.root (lstrip_slashes relative)) w in
      elim (Bool-cases (is_inside (host.resolve d.root w) candidate)) [
        | inl e ↦
            (let (rest, under) = is_inside-Under (host.resolve d.root w) candidate e in
              rw e (record {
                relative = relative;
                accepted = valid;
                printed = refl;
                rest = rest;
                under = under;
              }))
        | inr e ↦ rw e tt
      ]

  resolve-Resolved :
      (d : PosixDriver) (path : Text) (w : W) → Resolved d path w (resolve host d path w).0
  unfolding resolve
  resolve-Resolved d path w = validated (validate_storage_path d.storage_id path) refl
    where
      validated :
          (r : Result Text)
          → validate_storage_path d.storage_id path ≡ r
          → Resolved d path w (Errors.◌>>=◌ r (resolve_inside host d w))
      validated (err e) q = tt
      validated (ok relative) q = resolve_inside-Resolved d path w relative q

  -- What follows a path that was resolved, or the refusal, which changes nothing.
  abbrev Guarded : {A : Type 0} → PosixDriver → Text → (Text → Act W A) → W → Result A × W → Type 0
  Guarded {A} d path next w left =
      ((e : StashError) × (left ≡ (err e, w)))
      ⊎ ((absolute : Text) × Inside d path w absolute × (left ≡ next absolute w))

  resolve-Guarded :
      {A : Type 0} (d : PosixDriver) (path : Text) (next : ResolvedPath → Act W A)
      (after : Text → Act W A) (w : W)
      → ((p : ResolvedPath) → next p ≡ after p.absolute)
      → Guarded d path after w ((resolve host d path >>= next) w)
  unfolding resolve
  resolve-Guarded d path next after w k =
      resolved (Errors.◌>>=◌ (validate_storage_path d.storage_id path) (resolve_inside host d w))
        (resolve-Resolved d path w)
    where
      resolved :
          (r : Result ResolvedPath)
          → Resolved d path w r
          → Guarded d path after w (proceed (r, w) next)
      resolved (err e) h = inl (e, refl)
      resolved (ok p) h = inr (p.absolute, h, ap (λ act. act w) (k p))

  -- What the code does to a path of a storage: nothing but refuse, or `next` with the path that the
  -- storage's driver resolved inside its root.
  abbrev pub Confined :
      {A : Type 0} → List PosixDriver → Text → Text → (Text → Act W A) → W → Result A × W → Type 0
  Confined {A} drivers storage_id path next w left =
      ((e : StashError) × (left ≡ (err e, w)))
      ⊎ ((d : PosixDriver) × (find_driver drivers storage_id ≡ some d)
          × (absolute : Text) × Inside d path w absolute
          × (left ≡ next absolute w))

  abbrev on_driver : {A : Type 0} → Option PosixDriver → Text → (PosixDriver → Act W A) → Act W A
  on_driver o storage_id use_driver = from (served storage_id o) >>= use_driver

  on_driver-Confined :
      {A : Type 0} (drivers : List PosixDriver) (storage_id path : Text)
      (next : ResolvedPath → Act W A) (after : Text → Act W A) (w : W)
      → ((p : ResolvedPath) → next p ≡ after p.absolute)
      → Confined drivers storage_id path after w
          ((from (driver_for drivers storage_id) >>= λ d. resolve host d path >>= next) w)
  unfolding driver_for
  on_driver-Confined drivers storage_id path next after w k =
      chosen (find_driver drivers storage_id) refl
    where
      chosen :
          (o : Option PosixDriver)
          → find_driver drivers storage_id ≡ o
          → Confined drivers storage_id path after w
              ((from (served storage_id o) >>= λ d. resolve host d path >>= next) w)
      chosen none e = inl (_, refl)
      chosen (some d) e = elim (resolve-Guarded d path next after w k) [
        | inl (x, left) ↦ inl (x, left)
        | inr (absolute, inside, left) ↦ inr (d, e, absolute, inside, left)
      ]

  -- A daemon runs a transfer, with its engine, only from the path that the task asks for, once the
  -- storage's rules accept it, joined to the root of the task's storage and resolved by the host at
  -- that moment, and only where that lies at or below the root, resolved as well; and with the task's
  -- target, options and owner. In all other cases it raises before anything is run.
  pub execute_transfer-Confined :
      (drivers : List PosixDriver) (engine : Engine host drivers) (task : TransferTask) (id : ℕ)
      (w : W)
      → Confined drivers task.storage_id task.source_path
          (λ absolute.
            engine
              (endpoint absolute)
              task.target
              (record { bwlimit_bytes_per_s = task.bwlimit_bytes_per_s; delete = task.delete })
              task.owner
              id)
          w
          (execute_transfer host drivers engine task id w)
  unfolding execute_transfer
  execute_transfer-Confined drivers engine task id w =
      on_driver-Confined drivers task.storage_id task.source_path _ _ w (λ p. refl)

  -- A task is queued only if its source resolves inside the storage's root when it is asked for.
  pub start_task-Confined :
      (drivers : List PosixDriver) (body : TransferTask) (runner : Runner) (w : W)
      → Confined drivers body.storage_id body.source_path
          (λ absolute. from (submit body.transfer_id runner))
          w
          (start_task host drivers body runner w)
  unfolding start_task
  start_task-Confined drivers body runner w =
      on_driver-Confined drivers body.storage_id body.source_path _ _ w (λ p. refl)
