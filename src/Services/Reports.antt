-- ===== src/Services/Reports.antt =====
-- services/reports.py: the totals of the usage report and the allocation report. The report adds
-- whole numbers up in floats: `plus` is Python's addition of two floats that are whole numbers, which
-- rounds where the sum has no float. Waits, rates and percentiles are left out.
pub mod Rounding
pub mod Allocated
pub mod Pruned
use stashd.Prelude.{
  ℕ, ◌+◌, ◌/◌, Text, codes, same, Bool, true, false, not, ◌&&◌, ◌||◌, List, [], ◌∷◌, ◌++◌, select,
  sum_of, length, Option, none, some, leb, ltb, ◌==◌, if◌then◌else◌,
}
use stashd.Domain.Errors.{ErrorCode, Result, ok, err, raise, text}
use stashd.Domain.Transfers.{TransferState, is_terminal}
use stashd.Config.{ClusterConfig, storage}
use stashd.Models.{Transfer, TransferStat, Db}
use stashd.Services.Retention.{day_of, succeeded_one, joined_storage, with_storage}

pub data GroupBy : Type 0 where
  by_user by_storage by_route by_location : GroupBy

unfoldable pub group_by_from : Text → Result GroupBy
unfolding same
group_by_from value =
    if same value (codes "user")
    then ok by_user
    else if same value (codes "storage")
    then ok by_storage
    else if same value (codes "route")
    then ok by_route
    else if same value (codes "location")
    then ok by_location
    else raise ErrorCode.invalid_request (("group_by", text value) ∷ [])

-- A storage that has left the config still has history.
abbrev location_key : ClusterConfig → Text → Text
unfolding storage
location_key cluster storage_id = elim (storage cluster storage_id) [
  | none ↦ storage_id
  | some s ↦ s.location
]

-- `_key` and `_rolled_up_key`, of a user, storage and route.
unfoldable pub key_for : ClusterConfig → GroupBy → Text → Text → Text → Text
unfolding location_key
key_for cluster by_user user storage_id route = user
key_for cluster by_route user storage_id route = route
key_for cluster by_storage user storage_id route = storage_id
key_for cluster by_location user storage_id route = location_key cluster storage_id

pub record Bucket : Type 0 where
  pub bytes : ℕ
  pub transfers : ℕ
  pub succeeded : ℕ
  pub counted_waits : ℕ

abbrev pub empty_bucket : Bucket
empty_bucket = record { bytes = 0; transfers = 0; succeeded = 0; counted_waits = 0 }

abbrev pub add_bucket : (ℕ → ℕ → ℕ) → Bucket → Bucket → Bucket
add_bucket plus a b = record {
  bytes = plus a.bytes b.bytes;
  transfers = plus a.transfers b.transfers;
  succeeded = plus a.succeeded b.succeeded;
  counted_waits = plus a.counted_waits b.counted_waits;
}

-- `_bucket(totals, key)` and the additions to it; where the code adds nothing, 0 is added.
unfoldable pub add_to : (ℕ → ℕ → ℕ) → Text → Bucket → List (Text × Bucket) → List (Text × Bucket)
unfolding same
add_to plus key amount [] = (key, add_bucket plus empty_bucket amount) ∷ []
add_to plus key amount ((k, b) ∷ totals) =
    let rest = add_to plus key amount totals in
    if same k key then (k, add_bucket plus b amount) ∷ totals else (k, b) ∷ rest

abbrev started_one : Option ℕ → ℕ
started_one none = 0
started_one (some at) = 1

abbrev pub transfer_bucket : Transfer → Bucket
transfer_bucket t = record {
  bytes = t.bytes_done;
  transfers = 1;
  succeeded = succeeded_one t.state;
  counted_waits = started_one t.started_at;
}

abbrev pub stat_bucket : TransferStat → Bucket
stat_bucket s = record {
  bytes = s.bytes_transferred;
  transfers = s.transfers;
  succeeded = s.succeeded;
  counted_waits = s.transfers;
}

abbrev from_on : Option ℕ → ℕ → Bool
from_on none at = true
from_on (some since) at = leb since at

abbrev up_to : Option ℕ → ℕ → Bool
up_to none at = true
up_to (some until) at = ltb at until

abbrev day_option : Option ℕ → Option ℕ
day_option none = none
day_option (some at) = some (day_of at)

-- Whether a time is in the window; a day is compared with the days of the window's ends.
unfoldable pub in_window : Option ℕ → Option ℕ → ℕ → Bool
in_window since until at = from_on since at && up_to until at

unfoldable pub day_in_window : Option ℕ → Option ℕ → ℕ → Bool
unfolding in_window
day_in_window since until day = in_window (day_option since) (day_option until) day

-- The first loop of `usage_report`.
unfoldable pub add_transfers :
    (ℕ → ℕ → ℕ)
    → ClusterConfig
    → GroupBy
    → List (Transfer × Text)
    → List (Text × Bucket)
    → List (Text × Bucket)
unfolding key_for add_to
add_transfers plus cluster g [] totals = totals
add_transfers plus cluster g ((t, s) ∷ rows) totals =
    add_transfers plus cluster g rows
      (add_to plus (key_for cluster g t.user s t.route) (transfer_bucket t) totals)

-- `_add_rolled_up`, for the buckets in the window.
unfoldable pub add_rolled_up :
    (ℕ → ℕ → ℕ)
    → ClusterConfig
    → GroupBy
    → List TransferStat
    → List (Text × Bucket)
    → List (Text × Bucket)
unfolding key_for add_to
add_rolled_up plus cluster g [] totals = totals
add_rolled_up plus cluster g (s ∷ stats) totals =
    add_rolled_up plus cluster g stats
      (add_to plus (key_for cluster g s.user s.storage_id s.route) (stat_bucket s) totals)

-- The `totals` of `usage_report`.
unfoldable pub usage_totals :
    (ℕ → ℕ → ℕ) → ClusterConfig → GroupBy → Option ℕ → Option ℕ → Db → List (Text × Bucket)
unfolding add_transfers add_rolled_up in_window day_in_window is_terminal with_storage
usage_totals plus cluster g since until db =
    add_rolled_up plus cluster g (select (λ s. day_in_window since until s.day) db.stats) (
      add_transfers plus cluster g
        (with_storage (joined_storage db)
          (select (λ t. is_terminal t.state && in_window since until t.submitted_at) db.transfers))
        [])
