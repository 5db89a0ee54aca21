-- ===== src/Examples/Daemons.antt =====
-- The theorems on the daemon's parts at work.
use stashd.Prelude.{◌≡◌, refl, codes, true, false, [], ◌∷◌, none, some, not, arith}
use stashd.Prelude.Int.{pos}
use stashd.Domain.Errors.{ok}
use stashd.Paths.{kept}
use stashd.Daemon.Output.{updates}
use stashd.Daemon.Output.Pieces.{lines_of, joined, updates-lines_of}
use stashd.Daemon.Rsync.{Process, TransferResult, EngineState, holds, collect}
use stashd.Daemon.Rsync.Endings.{collect-success}
use stashd.Daemon.Driver.{PosixDriver, check_inside_prefix, fileset_path}
use stashd.Daemon.Driver.Containment.{check_inside_prefix-fileset_path}
use stashd.Daemon.Runner.{
  submits, takes_turn, cuts_off, stops_accepting, shuts_down, next_part, comes_to, crashed, act_all,
  idle_runner,
}
use stashd.Daemon.Runner.Sequences.{Numbered, act_all-Numbered}
use stashd.Examples.{ada_owner}

updates-lines_of_example :
    updates [] (codes "1%\r2" ∷ codes "%\r\ndo" ∷ codes "ne" ∷ [])
    ≡ lines_of (joined (codes "1%\r2" ∷ codes "%\r\ndo" ∷ codes "ne" ∷ []))
updates-lines_of_example = updates-lines_of (codes "1%\r2" ∷ codes "%\r\ndo" ∷ codes "ne" ∷ []) refl

-- rsync ends well, after somebody asked for its end.
abbrev ended : Process
ended = record {
  reads = codes "Number of regular files transferred: 4\n" ∷ [];
  stderr = [];
  returncode = pos 0;
}

abbrev unmarked : EngineState
unmarked = record { running = codes "t1" ∷ []; cancelled = codes "t2" ∷ [] }

abbrev four_files : TransferResult
four_files = record {
  failure = none;
  returncode = pos 0;
  bytes_transferred = 0;
  files_transferred = 4;
}

collected : (collect (λ t. t) (λ t n. none) ended (codes "t1") unmarked).0.1 ≡ some four_files
unfolding collect
collected = refl

collect-success_example :
    (true ≡ not (holds unmarked.cancelled (codes "t1")))
    × (holds (collect (λ t. t) (λ t n. none) ended (codes "t1") unmarked).1.cancelled (codes "t1")
        ≡ false)
collect-success_example =
    collect-success (λ t. t) (λ t n. none) ended (codes "t1") unmarked four_files collected

abbrev driver : PosixDriver
driver = record {
  storage_id = codes "NVME";
  prefix = record { root = 1; parts = codes "mnt" ∷ [] };
  root = record { root = 1; parts = codes "mnt" ∷ [] };
  mode = codes "0700";
}

printed : fileset_path driver ada_owner (codes "run") ≡ ok (codes "/mnt/ada/run")
unfolding fileset_path
printed = refl

check_inside_prefix-fileset_path_example :
    check_inside_prefix driver (record {
      storage_id = codes "NVME";
      name = codes "run";
      owner = ada_owner;
      path = codes "/mnt/ada/run";
    })
    ≡ ok tt
unfolding kept
check_inside_prefix-fileset_path_example =
    check_inside_prefix-fileset_path driver ada_owner (codes "run") (codes "/mnt/ada/run")
      (record { root_small = omega arith; parts_kept = ((refl, refl), tt) }) refl printed

-- A task that runs into a shutdown and fails after it was cut off.
act_all-Numbered_example :
    Numbered
      (act_all
        (submits 7
          ∷ takes_turn next_part 1
          ∷ takes_turn next_part 1
          ∷ stops_accepting
          ∷ cuts_off 1
          ∷ takes_turn (comes_to crashed) 1
          ∷ takes_turn next_part 1
          ∷ shuts_down
          ∷ [])
        idle_runner).log
act_all-Numbered_example = act_all-Numbered (
    submits 7
    ∷ takes_turn next_part 1
    ∷ takes_turn next_part 1
    ∷ stops_accepting
    ∷ cuts_off 1
    ∷ takes_turn (comes_to crashed) 1
    ∷ takes_turn next_part 1
    ∷ shuts_down
    ∷ [])
