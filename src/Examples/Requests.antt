-- ===== src/Examples/Requests.antt =====
-- The theorems on the requests of users, of the controller and of daemons at work.
use stashd.Prelude.{
  Text, codes, ◌≡◌, refl, Bool, true, false, ◌&&◌, ◌||◌, ltb, ◌==◌, select, [], ◌∷◌, All, none,
  some, arith,
}
use stashd.Prelude.Int.{pos}
use stashd.Domain.Errors.{ErrorCode, Result, err, text, ok}
use stashd.Services.Releases.{live_fileset}
use stashd.Services.Listing.{Query, on_storage, matches, newest_first}
use stashd.Services.Listing.Pages.{collect, collect-listed}
use stashd.Models.{Db}
use stashd.Daemon.Driver.{Host, PosixDriver}
use stashd.Daemon.Requests.{TransferTask, endpoint, Engine, execute_transfer}
use stashd.Daemon.Requests.Confined.{Confined, execute_transfer-Confined}
use stashd.Api.Filesets.{list_filesets}
use stashd.Api.Filesets.Resolving.{named, Named, first_live, list_filesets-live}
use stashd.Session.Rows.{live_names_unique}
use stashd.Services.Admitting.{storage_allocated}
use stashd.Services.Reports.Allocated.{AllocationRow, allocation_report}
use stashd.Services.Reports.Allocated.Summed.{reported_on, allocation_report-storage_allocated}
use stashd.Examples.{cluster, db, warm, ada_owner}

-- The underscore of an id is a wild card of LIKE: another storage's transfers are on this one too.
on_storage_wild : on_storage (codes "HOT_1") (codes "HOTX1->COLD") ≡ true
unfolding on_storage
on_storage_wild = refl

abbrev every : Query
every = record {
  user = none;
  state = none;
  kind = none;
  storage = none;
  route = none;
  fileset_id = none;
}

abbrev history : Db
history = record db {
  transfers = record warm { id = 2 } ∷ record warm { id = 5 } ∷ warm ∷ record warm { id = 4 } ∷ [];
}

collect-listed_example :
    collect 5 every 2 none history ≡ some (newest_first (select (matches every) history.transfers))
collect-listed_example =
    collect-listed every history 2
      ((refl, (refl, (refl, tt))), ((refl, (refl, tt)), ((refl, tt), (tt, tt)))) (omega arith)

-- A host that gives every path back, and whose commands all fail.
abbrev host : Host (Unit {0})
host = record {
  run = λ o command w. (none, w);
  run_itself = λ command w. (none, w);
  resolve = λ p w. p;
  owner_uid = λ p w. none;
  exists = λ p w. true;
  splitlines = λ t. [];
}

abbrev nvme_driver : PosixDriver
nvme_driver = record {
  storage_id = codes "NVME";
  prefix = record { root = 1; parts = codes "mnt" ∷ [] };
  root = record { root = 1; parts = codes "mnt" ∷ [] };
  mode = codes "0700";
}

abbrev task : TransferTask
task = record {
  transfer_id = 1;
  storage_id = codes "NVME";
  source_path = codes "/ada/run";
  owner = ada_owner;
  target = endpoint (codes "/archive/run");
  bwlimit_bytes_per_s = some 80;
  delete = true;
}

-- An engine that always says how much it has moved.
abbrev engine : Engine host (nvme_driver ∷ [])
engine source target options owner id w = (
  ok (record {
    failure = none;
    returncode = pos 0;
    bytes_transferred = 200;
    files_transferred = 4;
  }),
  w,
)

execute_transfer-Confined_example :
    Confined host
      (nvme_driver ∷ [])
      (codes "NVME")
      (codes "/ada/run")
      (λ absolute.
        engine
          (endpoint absolute)
          (endpoint (codes "/archive/run"))
          (record { bwlimit_bytes_per_s = some 80; delete = true })
          ada_owner
          1)
      tt
      (execute_transfer host (nvme_driver ∷ []) engine task 1 tt)
execute_transfer-Confined_example =
    execute_transfer-Confined host (nvme_driver ∷ []) engine task 1 tt

-- It is a run of the engine, and not a refusal.
ran :
    execute_transfer host (nvme_driver ∷ []) engine task 1 tt
    ≡ engine
        (endpoint (codes "/mnt/ada/run"))
        task.target
        (record { bwlimit_bytes_per_s = some 80; delete = true })
        ada_owner
        1
        tt
unfolding execute_transfer
ran = refl

abbrev refusal : Result Text
refusal =
    err (record { code = ErrorCode.path_not_found; details = ("path", text (codes "/x")) ∷ [] })

abbrev text_lt : Text → Text → Bool
text_lt [] [] = false
text_lt [] (c ∷ t) = true
text_lt (c ∷ s) [] = false
text_lt (c ∷ s) (d ∷ t) = ltb c d || (c == d && text_lt s t)

names_unique : live_names_unique db.filesets ≡ true
unfolding live_names_unique
names_unique = refl

list_filesets-live_example :
    (first_live (list_filesets text_lt (named (codes "NVME") (codes "ada") (codes "run")) db)
      ≡ live_fileset (codes "ada") (codes "NVME") (codes "run") db)
    × All
        (Named text_lt (codes "NVME") (codes "ada") (codes "run"))
        (list_filesets text_lt (named (codes "NVME") (codes "ada") (codes "run")) db)
list_filesets-live_example =
    list_filesets-live text_lt (codes "NVME") (codes "ada") (codes "run") db names_unique

abbrev ada_row : AllocationRow
ada_row = record {
  group = record {
    user = codes "ada";
    storage_id = codes "NVME";
    allocated_bytes = 300;
    used_bytes = 200;
    filesets = 1;
  };
  limit_bytes = 800;
}

reported : allocation_report text_lt cluster db ≡ some (ada_row ∷ [], [])
unfolding allocation_report
reported = refl

allocation_report-storage_allocated_example :
    reported_on (codes "NVME") (ada_row ∷ []) ≡ storage_allocated (codes "NVME") db
allocation_report-storage_allocated_example =
    allocation_report-storage_allocated text_lt cluster db (codes "NVME") (ada_row ∷ []) [] reported
