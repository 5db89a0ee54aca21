-- ===== src/Examples.antt =====
-- A small cluster, its rows and its clients, on which the theorems are tried.
mod Domain
mod Services
mod Reservations
mod Configs
mod Daemons
mod Histories
mod Access
mod Running
mod Requests
use stashd.Prelude.{ℕ, ◌+◌, ◌-◌, ◌*◌, ◌/◌, codes, true, false, [], ◌∷◌, none, some, ltb, ◌==◌}
use stashd.Domain.Errors.{ErrorCode, ok, raise}
use stashd.Domain.Floats.{FloatOps}
use stashd.Domain.Filesets.{FilesetKind, FilesetState}
use stashd.Domain.Transfers.{FailureClass, TransferKind, TransferState}
use stashd.Domain.Scheduling.{QueuedTransfer, ConcurrencyLimits, BandwidthLimits, Load}
use stashd.Domain.Identity.{Principal}
use stashd.Config.{ClusterConfig, Storage, Daemon, StorageRole}
use stashd.Models.{Fileset, Transfer, Db}
use stashd.Services.Releases.{FilesetStore, Owner}
use stashd.Services.Dispatching.{TransferDispatcher}
use stashd.Services.Events.{Event, EventKind}

-- Hundredths in place of floats.
abbrev pub hundredths : FloatOps
hundredths = record {
  zero = 0;
  true_div = λ a b. a * 100 / b;
  scale = λ n x. n * x;
  add = λ a b. a + b;
  mul = λ a b. a * b / 100;
  div = λ a b. a * 100 / b;
  neg = λ a. 0;
  exp2 = λ a. 100;
  eq = λ a b. a == b;
  lt = λ a b. ltb a b;
  floor = λ a. a / 100;
  ceil = λ a. (a + 99) / 100;
}

abbrev pub concurrency : ConcurrencyLimits
concurrency = record { global = 3; per_storage = 2; per_user = 2; per_route = 1 }

abbrev pub bandwidth : BandwidthLimits
bandwidth = record { per_route_aggregate = 100; max_per_transfer = 80; min_per_transfer = 10 }

abbrev pub nvme : Storage
nvme = record {
  id = codes "NVME";
  location = codes "HALL";
  root = record { root = 1; parts = codes "nvme" ∷ [] };
  fileset_prefix = record { root = 1; parts = codes "nvme" ∷ [] };
  fileset_mode = 448;
  roles = StorageRole.cache ∷ [];
  capacity_bytes = some 1000;
  fill_limit = 90;
  default_user_allocation_limit_bytes = some 800;
  daemon = codes "d1";
}

abbrev pub archive : Storage
archive = record {
  id = codes "ARCHIVE";
  location = codes "HALL";
  root = record { root = 1; parts = codes "archive" ∷ [] };
  fileset_prefix = record { root = 1; parts = codes "archive" ∷ [] };
  fileset_mode = 448;
  roles = StorageRole.source ∷ [];
  capacity_bytes = none;
  fill_limit = 90;
  default_user_allocation_limit_bytes = none;
  daemon = codes "d2";
}

abbrev pub d1 : Daemon
d1 = record { id = codes "d1"; host = codes "one" }

abbrev pub d2 : Daemon
d2 = record { id = codes "d2"; host = codes "two" }

abbrev pub cluster : ClusterConfig
cluster = record {
  locations = record { id = codes "HALL"; name = codes "The hall"; enabled = true } ∷ [];
  daemons = d1 ∷ d2 ∷ [];
  storages = nvme ∷ archive ∷ [];
  limits = record {
    user_total_cache_allocation_bytes = 900;
    max_filesets_per_user = 4;
    queued_transfers_per_user = 5;
    concurrency = concurrency;
    bandwidth = bandwidth;
  };
  half_life = 1000;
  points_per_gib = 100;
  allocation_headroom = 120;
  retries = record { count = 2; backoff = 30; retry_on = FailureClass.network ∷ [] };
  nominal_throughput = record { default = 10; routes = [] };
  daemon_unreachable = 60;
  keep_transfers = 100;
  keep_audit = 100;
  revision = 4;
  admin_uids = [];
  admin_gids = [];
}

abbrev pub ada : Principal
ada = record { uid = 7; gid = 7; username = codes "ada"; groups = []; gids = [] }

abbrev pub ada_owner : Owner
ada_owner = record { user = codes "ada"; uid = 7; gid = 7 }

abbrev pub data_set : Fileset
data_set = record {
  id = 1;
  name = codes "run";
  owner_user = codes "ada";
  owner_uid = 7;
  owner_gid = 7;
  storage_id = codes "NVME";
  kind = FilesetKind.cached;
  state = FilesetState.ready;
  path = codes "/mnt/ada/run";
  allocated_bytes = 300;
  used_bytes = 200;
  used_bytes_at = none;
  file_count = none;
  over_allocation = false;
  source_storage_id = some (codes "ARCHIVE");
  source_path = some (codes "/raw");
  created_at = 5;
  warm_started_at = some 6;
  warm_finished_at = some 9;
  last_flushed_at = none;
  last_flush_target = none;
  released_at = none;
  last_transfer_id = none;
}

abbrev pub warm : Transfer
warm = record {
  id = 1;
  kind = TransferKind.warm;
  user = codes "ada";
  fileset_id = 1;
  peer_ref = some (codes "ARCHIVE:/raw");
  state = TransferState.running;
  route = codes "ARCHIVE->NVME";
  bytes_total = 200;
  bytes_done = 50;
  files_done = none;
  executing_daemon_id = some (codes "d2");
  bwlimit_bytes_per_s = some 80;
  attempt = 1;
  last_sequence = 3;
  task_id = some (codes "t1");
  retry_after = none;
  release_after = false;
  error_code = none;
  submitted_at = 5;
  started_at = some 6;
  finished_at = none;
}

abbrev pub db : Db
db = record {
  filesets = data_set ∷ [];
  transfers = warm ∷ [];
  accounts = [];
  limits = [];
  storage_states = [];
  audit = [];
  stats = [];
  daemons = [];
  next_fileset = 2;
  next_transfer = 2;
}

-- A store that does what it is asked, and one that cannot delete.
abbrev pub store : FilesetStore
store = record {
  create = λ s o n b. ok (record { storage_id = s; name = n; owner = o; path = codes "/mnt/new" });
  delete = λ i l. ok tt;
  set_quota = λ l b. ok tt;
}

abbrev pub stuck_store : FilesetStore
stuck_store = record store { delete = λ i l. raise ErrorCode.daemon_unavailable [] }

abbrev pub dispatcher : TransferDispatcher
dispatcher = record {
  probe = λ s o p. ok (record {
    path = p;
    exists = true;
    is_dir = true;
    readable = true;
    writable = true;
    bytes_total = 200;
    file_count = 4;
    complete = true;
  });
  prepare = λ s o n b. ok (record { path = codes "/mnt/new"; host = none; user = none });
  start = λ s r. ok (record { task_id = codes "t2"; daemon_id = codes "d2" });
  abort = λ s t. ok tt;
  task_state = λ s t. raise ErrorCode.daemon_unavailable [];
}

-- The network fails half way.
abbrev pub broken : Event
broken = record {
  transfer_id = 1;
  sequence = 4;
  kind = EventKind.failed;
  daemon_id = codes "d2";
  at = 20;
  bytes_done = 120;
  files_done = 0;
  failure = some (codes "network");
}

abbrev pub queued_warm : QueuedTransfer
queued_warm = record {
  id = 1;
  user = codes "ada";
  kind = TransferKind.warm;
  route = record { source = codes "ARCHIVE"; target = codes "NVME" };
  bytes_total = 200;
  submitted_at = 5;
}

abbrev pub later_warm : QueuedTransfer
later_warm = record queued_warm { id = 2; submitted_at = 4 }

abbrev pub idle : Load
idle = record { total = 0; per_storage = λ _. 0; per_user = λ _. 0; per_route = λ _. 0 }
