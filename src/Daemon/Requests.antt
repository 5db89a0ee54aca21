-- ===== src/Daemon/Requests.antt =====
-- api/internal/tasks.py, api/internal/filesets.py and tasks/execute.py: what the controller asks of a
-- daemon, on the drivers of its storages and on its runner. The engine is an argument.
pub mod Confined
use stashd.Prelude.{
  ℕ, ◌+◌, Text, same, Bool, true, false, not, ◌||◌, List, [], ◌∷◌, Option, none, some, find_first,
  ◌==◌, if◌then◌else◌,
}
use stashd.Domain.Errors.{ErrorCode, text, num, Result, ok, err, raise}
use stashd.Domain.Transfers.{FailureClass}
use stashd.Services.Releases.{Owner, FilesetLocation}
use stashd.Services.Dispatching.{TransferEndpoint}
use stashd.Daemon.Rsync.{TransferOptions, TransferResult}
use stashd.Daemon.Driver.{
  Host, Act, ◌>>=◌, ◌>>◌, from, PosixDriver, ResolvedPath, PathStat, SizeReport, UsageReport,
  resolve, stat, measure, create_fileset, delete_fileset, fileset_usage, storage_usage,
}
use stashd.Daemon.Driver
use stashd.Daemon.Runner.{Runner, TaskProgress, Outcome, transferred, stopped, crashed, submit}

-- `drivers.get(storage_id)`.
unfoldable pub find_driver : List PosixDriver → Text → Option PosixDriver
unfolding same
find_driver drivers storage_id =
    find_first (λ (d : PosixDriver). same d.storage_id storage_id) drivers

abbrev pub served : Text → Option PosixDriver → Result PosixDriver
served storage_id none = raise ErrorCode.not_found (("storage", text storage_id) ∷ [])
served storage_id (some d) = ok d

unfoldable pub driver_for : List PosixDriver → Text → Result PosixDriver
unfolding find_driver
driver_for drivers storage_id = served storage_id (find_driver drivers storage_id)

pub record ProbeAnswer : Type 0 where
  pub path : Text
  pub exists : Bool
  pub is_dir : Bool
  pub readable : Bool
  pub writable : Bool
  pub bytes_total : ℕ
  pub file_count : ℕ
  pub complete : Bool

-- `PosixDriver.endpoint`.
abbrev pub endpoint : Text → TransferEndpoint
endpoint path = record { path = path; host = none; user = none }

pub record TransferTask : Type 0 where
  pub transfer_id : ℕ
  pub storage_id : Text
  pub source_path : Text
  pub owner : Owner
  pub target : TransferEndpoint
  pub bwlimit_bytes_per_s : Option ℕ
  pub delete : Bool

pub record MeasureFileset : Type 0 where
  pub fileset_id : ℕ
  pub name : Text
  pub owner : Owner
  pub path : Text

pub record FilesetUsage : Type 0 where
  pub fileset_id : ℕ
  pub used_bytes : ℕ
  pub file_count : ℕ

module _ {W : Type 0} (host : Host W) (drivers : List PosixDriver) where
  abbrev pub unseen : ResolvedPath → PathStat → ProbeAnswer
  unseen resolved found = record {
    path = resolved.absolute;
    exists = found.exists;
    is_dir = found.is_dir;
    readable = found.readable;
    writable = found.writable;
    bytes_total = 0;
    file_count = 0;
    complete = true;
  }

  abbrev pub seen : ResolvedPath → PathStat → SizeReport → ProbeAnswer
  seen resolved found measured = record {
    path = resolved.absolute;
    exists = true;
    is_dir = found.is_dir;
    readable = true;
    writable = found.writable;
    bytes_total = measured.bytes_total;
    file_count = measured.file_count;
    complete = measured.complete;
  }

  unfoldable pub probe : Text → Text → Owner → Act W ProbeAnswer
  unfolding driver_for resolve stat measure
  probe storage_id path owner = do
    driver ← from (driver_for drivers storage_id)
    resolved ← resolve host driver path
    found ← stat host resolved owner
    if not found.exists || not found.readable then from (ok (unseen resolved found)) else (do
      measured ← measure host driver resolved owner
      from (ok (seen resolved found measured)))

  -- `prepare`; `daemon_id` is the host that reaches the destination. Setting the quota does nothing.
  unfoldable pub prepare : Text → Text → Owner → Text → ℕ → Act W TransferEndpoint
  unfolding driver_for create_fileset
  prepare daemon_id storage_id owner name allocation_bytes = do
    driver ← from (driver_for drivers storage_id)
    location ← create_fileset host driver owner name allocation_bytes
    from (ok (record { path = location.path; host = some daemon_id; user = none }))

  -- The requests on fileset directories; `location` is made of the request.
  unfoldable pub create : Text → Owner → Text → ℕ → Act W FilesetLocation
  unfolding driver_for create_fileset
  create storage_id owner name allocation_bytes = do
    driver ← from (driver_for drivers storage_id)
    create_fileset host driver owner name allocation_bytes

  unfoldable pub delete : FilesetLocation → Act W (Unit {0})
  unfolding driver_for delete_fileset
  delete location = do
    driver ← from (driver_for drivers location.storage_id)
    delete_fileset host driver location

  abbrev pub wanted_location : Text → MeasureFileset → FilesetLocation
  wanted_location storage_id wanted = record {
    storage_id = storage_id;
    name = wanted.name;
    owner = wanted.owner;
    path = wanted.path;
  }

  -- The loop over the filesets: one that raises ends the request.
  unfoldable pub measure_all : PosixDriver → Text → List MeasureFileset → Act W (List FilesetUsage)
  unfolding fileset_usage
  measure_all driver storage_id [] = from (ok [])
  measure_all driver storage_id (wanted ∷ more) = do
    usage ← fileset_usage host driver (wanted_location storage_id wanted)
    measured ← measure_all driver storage_id more
    from (
        ok (
          record {
            fileset_id = wanted.fileset_id;
            used_bytes = usage.used_bytes;
            file_count = usage.file_count;
          }
          ∷ measured))

  unfoldable pub usages : Text → List MeasureFileset → Act W (List FilesetUsage)
  unfolding driver_for measure_all
  usages storage_id filesets = do
    driver ← from (driver_for drivers storage_id)
    measure_all driver storage_id filesets

  unfoldable pub usage_of_storage : Text → Act W UsageReport
  unfolding driver_for storage_usage
  usage_of_storage storage_id = do
    driver ← from (driver_for drivers storage_id)
    storage_usage host driver

  -- `start_task`: the task's id, and the runner that has it in its queue.
  unfoldable pub start_task : TransferTask → Runner → Act W (ℕ × Runner)
  unfolding driver_for resolve submit
  start_task body runner = do
    driver ← from (driver_for drivers body.storage_id)
    resolve host driver body.source_path
    from (submit body.transfer_id runner)

  -- What `engine.run` makes of a source, a target, options, an owner and a handle.
  abbrev pub Engine : Type 0
  Engine = TransferEndpoint → TransferEndpoint → TransferOptions → Owner → ℕ → Act W TransferResult

  -- `drivers[task.storage_id]`: the KeyError reaches the caller as any other exception.
  unfoldable pub execute_transfer : Engine → TransferTask → ℕ → Act W TransferResult
  unfolding driver_for resolve
  execute_transfer engine task task_id = do
    driver ← from (driver_for drivers task.storage_id)
    resolved ← resolve host driver task.source_path
    engine (endpoint resolved.absolute) task.target
        (record { bwlimit_bytes_per_s = task.bwlimit_bytes_per_s; delete = task.delete }) task.owner
        task_id

-- What `_run` sets and reports at the end.
abbrev pub outcome_of : Result TransferResult → Outcome
outcome_of (err e) = crashed
outcome_of (ok r) = elim r.failure [
  | none ↦ transferred r.bytes_transferred r.files_transferred
  | some failure ↦ stopped r.bytes_transferred r.files_transferred failure
]

-- `ThreadTaskRunner.progress`: the newest entry of the task.
abbrev pub newest : ℕ → List (ℕ × TaskProgress) → Option TaskProgress
newest task_id [] = none
newest task_id ((id, progress) ∷ older) =
    let rest = newest task_id older in if id == task_id then some progress else rest

unfoldable pub progress : ℕ → Runner → Option TaskProgress
progress task_id runner = newest task_id runner.states

abbrev task_found : ℕ → Option TaskProgress → Result TaskProgress
task_found task_id none = raise ErrorCode.not_found (("task_id", num task_id) ∷ [])
task_found task_id (some found) = ok found

unfoldable pub task_state : ℕ → Runner → Result TaskProgress
unfolding progress
task_state task_id runner = task_found task_id (progress task_id runner)

abbrev is_known : Option TaskProgress → Bool
is_known none = false
is_known (some found) = true

-- `ThreadTaskRunner.abort`; `cancel` is the engine's answer.
unfoldable pub abort : (ℕ → Bool) → ℕ → Runner → Bool
unfolding progress
abort cancel task_id runner = if is_known (progress task_id runner) then cancel task_id else false

abbrev transfer_of : Option TaskProgress → ℕ
transfer_of none = 0
transfer_of (some found) = found.transfer_id

-- `abort_task`: the transfer whose task is answered as CANCELLED.
unfoldable pub abort_task : (ℕ → Bool) → ℕ → Runner → Result ℕ
unfolding abort progress
abort_task cancel task_id runner =
    if not (abort cancel task_id runner)
    then raise ErrorCode.not_found (("task_id", num task_id) ∷ [])
    else ok (transfer_of (progress task_id runner))
