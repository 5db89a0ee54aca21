-- ===== src/Models.antt =====
-- models/*.py: the rows of the database. Columns that hold a time are microseconds; a nullable
-- column is an option. `error_detail` and the other texts for people are left out.
use stashd.Prelude.{ℕ, Text, Bool, List, Option, String}
use stashd.Prelude.Int.{ℤ}
use stashd.Domain.Errors.{ErrorCode, Detail}
use stashd.Domain.Filesets.{FilesetKind, FilesetState}
use stashd.Domain.Transfers.{TransferKind, TransferState}
use stashd.Domain.Fairshare.{FairShareAccount}

pub record Fileset : Type 0 where
  pub id : ℕ
  pub name : Text
  pub owner_user : Text
  pub owner_uid : ℕ
  pub owner_gid : ℕ
  pub storage_id : Text
  pub kind : FilesetKind
  pub state : FilesetState
  pub path : Text
  pub allocated_bytes : ℕ
  pub used_bytes : ℕ
  pub used_bytes_at : Option ℕ
  pub file_count : Option ℕ
  pub over_allocation : Bool
  pub source_storage_id : Option Text
  pub source_path : Option Text
  pub created_at : ℕ
  pub warm_started_at : Option ℕ
  pub warm_finished_at : Option ℕ
  pub last_flushed_at : Option ℕ
  pub last_flush_target : Option Text
  pub released_at : Option ℕ
  pub last_transfer_id : Option ℕ

pub record Transfer : Type 0 where
  pub id : ℕ
  pub kind : TransferKind
  pub user : Text
  pub fileset_id : ℕ
  pub peer_ref : Option Text
  pub state : TransferState
  pub route : Text
  pub bytes_total : ℕ
  pub bytes_done : ℕ
  pub files_done : Option ℕ
  pub executing_daemon_id : Option Text
  pub bwlimit_bytes_per_s : Option ℕ
  pub attempt : ℕ
  pub last_sequence : ℕ
  pub task_id : Option Text
  pub retry_after : Option ℕ
  pub release_after : Bool
  pub error_code : Option Text
  pub submitted_at : ℕ
  pub started_at : Option ℕ
  pub finished_at : Option ℕ

-- A limit for one storage, or for all caches where `storage_id` is null.
pub record UserLimit : Type 0 where
  pub user : Text
  pub storage_id : Option Text
  pub allocation_limit_bytes : ℕ

pub record StorageState : Type 0 where
  pub storage_id : Text
  pub drained : Bool

pub record AuditEvent : Type 0 where
  pub ts : ℕ
  pub actor_uid : ℕ
  pub subject_user : Text
  pub object_type : String
  pub object_id : Text
  pub action : String
  -- `none` is the result "ok".
  pub result : Option ErrorCode
  pub detail : List (String × Detail)

-- What pruning kept of one day, user, storage, route and kind. `day` counts days since 1970.
pub record TransferStat : Type 0 where
  pub day : ℕ
  pub user : Text
  pub storage_id : Text
  pub route : Text
  pub kind : TransferKind
  pub transfers : ℕ
  pub succeeded : ℕ
  pub bytes_transferred : ℕ
  pub queue_wait_seconds : ℤ
  pub running_seconds : ℤ

-- What a daemon told the controller about itself.
pub record Daemon : Type 0 where
  pub id : Text
  pub storages : List Text
  pub config_revision : ℕ
  pub version : Text
  pub last_seen_at : ℕ

-- The tables, oldest row first, and the two id sequences.
pub record Db : Type 0 where
  pub filesets : List Fileset
  pub transfers : List Transfer
  pub accounts : List FairShareAccount
  pub limits : List UserLimit
  pub storage_states : List StorageState
  pub audit : List AuditEvent
  pub stats : List TransferStat
  pub daemons : List Daemon
  pub next_fileset : ℕ
  pub next_transfer : ℕ
