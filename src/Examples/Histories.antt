-- ===== src/Examples/Histories.antt =====
-- The theorems on histories of requests, on retries and on pruning at work.
use stashd.Prelude.{◌+◌, ◌≤◌, codes, true, false, [], ◌∷◌, some, arith, List}
use stashd.Models.{Fileset, Db}
use stashd.Domain.Filesets.{FilesetState}
use stashd.Domain.Transfers.{TransferState}
use stashd.Session.{after}
use stashd.Services.Lineage.Histories.{Request, reported, cancelled}
use stashd.Services.Lineage.Histories
use stashd.Services.Events.Retrying.{hears, is_cancelled, requeues, requeues-le}
use stashd.Services.Retention.{prune}
use stashd.Services.Reports.Pruned
use stashd.Examples.{hundredths, cluster, ada, data_set, warm, db, stuck_store, broken}

requeues-le_example :
    requeues hundredths cluster (hears 20 broken ∷ is_cancelled 30 ∷ []) warm + 1 ≤ 3
requeues-le_example =
    requeues-le hundredths cluster (hears 20 broken ∷ is_cancelled 30 ∷ []) warm (omega arith)

-- A transfer that ended on the first day, and was pruned years later.
abbrev finished : Db
finished = record db {
  transfers =
      record warm { state = TransferState.succeeded; finished_at = some 90; bytes_done = 100 } ∷ [];
}

abbrev pruned : Db
pruned = after (prune cluster 100000000000000) finished

abbrev history : List Request
history =
    reported 20 (some stuck_store) broken
    ∷ Histories.released 30 stuck_store ada false (codes "ada") (codes "NVME") (codes "run") true
    ∷ []

abbrev stuck : Fileset
stuck = record data_set { state = FilesetState.failed; last_transfer_id = some 1 }
