-- ===== src/Daemon/Starting.antt =====
-- drivers/factory.py: the drivers that a daemon starts with, and the checks for which it refuses to
-- start.
pub mod Accepted
use stashd.Prelude.{
  ℕ, ◌+◌, ◌/◌, ◌%◌, Text, same, Bool, true, false, not, List, [], ◌∷◌, ◌++◌, Option, none, some,
  ltb, if◌then◌else◌,
}
use stashd.Paths.{PosixPath}
use stashd.Config.{ClusterConfig, Storage, storage}
use stashd.Daemon.Driver.{PosixDriver}

-- A problem for which the daemon does not start.
pub data StartProblem : Type 0 where
  not_in_config : Text → StartProblem
  served_by_other : Text → Text → StartProblem
  root_missing : Text → StartProblem
  root_not_dir : Text → StartProblem
  pool_too_small : ℕ → ℕ → StartProblem

-- `check_pool_size`; `none` is a pool that is large enough.
unfoldable pub check_pool_size : ClusterConfig → ℕ → Option StartProblem
check_pool_size cluster pool_size =
    if ltb pool_size cluster.limits.concurrency.per_storage
    then some (pool_too_small pool_size cluster.limits.concurrency.per_storage)
    else none

-- `f"{mode:04o}"` of a mode up to 0o7777.
unfoldable pub mode_text : ℕ → Text
mode_text mode =
    (b'0' + mode / 512 % 8)
    ∷ (b'0' + mode / 64 % 8)
    ∷ (b'0' + mode / 8 % 8)
    ∷ (b'0' + mode % 8)
    ∷ []

-- `_driver_for`, and the constructor of PosixDriver; its identity is the host of a request.
unfoldable pub driver_of : Storage → PosixDriver
unfolding mode_text
driver_of s = record {
  storage_id = s.id;
  prefix = s.fileset_prefix;
  root = s.root;
  mode = mode_text s.fileset_mode;
}

-- What the daemon's file system says of a root: whether it exists, and is a directory.
pub record Roots : Type 0 where
  pub exists : PosixPath → Bool
  pub is_dir : PosixPath → Bool

-- `_root_problem`.
unfoldable pub root_problem : Roots → Storage → Option StartProblem
root_problem fs s =
    if not (fs.exists s.root)
    then some (root_missing s.id)
    else if not (fs.is_dir s.root)
    then some (root_not_dir s.id)
    else none

-- One round of the loop: a problem, or a driver.
pub data Round : Type 0 where
  problem : StartProblem → Round
  built : PosixDriver → Round

abbrev pub after_root : Storage → Option StartProblem → Round
after_root s none = built (driver_of s)
after_root s (some p) = problem p

module _ (cluster : ClusterConfig) (fs : Roots) (daemon_id : Text) where
  abbrev pub given : Text → Option Storage → Round
  given storage_id none = problem (not_in_config storage_id)
  given storage_id (some s) =
      if not (same s.daemon daemon_id)
      then problem (served_by_other storage_id s.daemon)
      else after_root s (root_problem fs s)

  unfoldable pub round : Text → Round
  unfolding storage same root_problem driver_of
  round storage_id = given storage_id (storage cluster storage_id)

  -- The problems, and the drivers by the id that the daemon gave.
  abbrev pub add_round :
      Text
      → Round
      → List StartProblem × List (Text × PosixDriver)
      → List StartProblem × List (Text × PosixDriver)
  add_round storage_id (problem p) (problems, drivers) = (p ∷ problems, drivers)
  add_round storage_id (built d) (problems, drivers) = (problems, (storage_id, d) ∷ drivers)

  unfoldable pub rounds : List Text → List StartProblem × List (Text × PosixDriver)
  unfolding round
  rounds [] = ([], [])
  rounds (s ∷ ss) = add_round s (round s) (rounds ss)

-- `build_drivers` for a daemon that says its id: the problems for which it raises, or the drivers.
pub data Built : Type 0 where
  refused : List StartProblem → Built
  drivers : List (Text × PosixDriver) → Built

abbrev pub without_problems : List StartProblem × List (Text × PosixDriver) → Built
without_problems ([], found) = drivers found
without_problems (p ∷ problems, found) = refused (p ∷ problems)

unfoldable pub build_drivers : ClusterConfig → Roots → Text → List Text → Built
unfolding rounds
build_drivers cluster fs daemon_id storage_ids =
    without_problems (rounds cluster fs daemon_id storage_ids)
