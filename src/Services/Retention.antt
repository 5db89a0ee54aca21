-- ===== src/Services/Retention.antt =====
-- services/retention.py: terminal transfers past their retention are rolled into a bucket of their
-- day and go; audit events past theirs go. The rows of a query come in the order of the table.
pub mod Conserved
use stashd.Prelude.{
  ℕ, ◌+◌, ◌-◌, ◌/◌, Text, same, Bool, true, false, not, ◌&&◌, ◌||◌, List, [], ◌∷◌, ◌++◌, map, any,
  select, length, Option, none, some, leb, ltb, ◌==◌, if◌then◌else◌,
}
use stashd.Prelude.Int.{ℤ, pos, negsuc, ◌+ℤ◌, ◌-ℤ◌}
use stashd.Domain.Transfers.{TransferKind, TransferState, is_terminal}
use stashd.Domain.Transfers
use stashd.Config.{ClusterConfig}
use stashd.Models.{Transfer, TransferStat, Fileset, AuditEvent, Db}
use stashd.Session.{Exec, ◌>>=◌, ◌>>◌, pure, reads, writes, commit}
use stashd.Session.Rows.{get_fileset}

-- `a.date()` of a time.
abbrev pub day_of : ℕ → ℕ
day_of at = at / 86400000000

abbrev pub kind_index : TransferKind → ℕ
kind_index TransferKind.warm = 0
kind_index TransferKind.flush = 1
kind_index TransferKind.release = 2

-- `int((until - since).total_seconds())`, which rounds towards zero.
abbrev pub whole_seconds : ℕ → ℕ → ℤ
whole_seconds since until =
    if leb since until
    then pos ((until - since) / 1000000)
    else pos 0 -ℤ pos ((since - until) / 1000000)

abbrev pub storage_of : Option Fileset → Option Text
storage_of none = none
storage_of (some f) = some f.storage_id

-- `Fileset.storage_id`, joined to a transfer.
abbrev pub joined_storage : Db → Transfer → Option Text
joined_storage db t = storage_of (get_fileset t.fileset_id db)

-- The bucket of a day, user, storage, route and kind.
unfoldable pub is_bucket : Transfer → Text → TransferStat → Bool
unfolding same
is_bucket t storage_id s =
    s.day == day_of t.submitted_at
    && same s.user t.user
    && same s.storage_id storage_id
    && same s.route t.route
    && kind_index s.kind == kind_index t.kind

unfoldable pub new_bucket : Transfer → Text → TransferStat
new_bucket t storage_id = record {
  day = day_of t.submitted_at;
  user = t.user;
  storage_id = storage_id;
  route = t.route;
  kind = t.kind;
  transfers = 0;
  succeeded = 0;
  bytes_transferred = 0;
  queue_wait_seconds = pos 0;
  running_seconds = pos 0;
}

abbrev pub succeeded_one : TransferState → ℕ
succeeded_one TransferState.succeeded = 1
succeeded_one _ = 0

abbrev pub waited : Transfer → ℤ
waited t = elim t.started_at [ none ↦ pos 0 | some started ↦ whole_seconds t.submitted_at started ]

abbrev pub ran : Transfer → ℤ
ran t = elim t.started_at [
  | none ↦ pos 0
  | some started ↦ elim t.finished_at [
    | none ↦ pos 0
    | some finished ↦ whole_seconds started finished
  ]
]

-- The additions of `_roll_up`.
unfoldable pub add_to_bucket : Transfer → TransferStat → TransferStat
add_to_bucket t s = record s {
  transfers = s.transfers + 1;
  succeeded = s.succeeded + succeeded_one t.state;
  bytes_transferred = s.bytes_transferred + t.bytes_done;
  queue_wait_seconds = s.queue_wait_seconds +ℤ waited t;
  running_seconds = s.running_seconds +ℤ ran t;
}

-- `_roll_up`: the bucket that is there, or a new one.
unfoldable pub roll_up : Transfer → Text → List TransferStat → List TransferStat
unfolding is_bucket new_bucket add_to_bucket
roll_up t storage_id [] = add_to_bucket t (new_bucket t storage_id) ∷ []
roll_up t storage_id (s ∷ stats) =
    let rest = roll_up t storage_id stats in
    if is_bucket t storage_id s then add_to_bucket t s ∷ stats else s ∷ rest

-- `Transfer.state.in_(TERMINAL), Transfer.submitted_at < before`.
unfoldable pub is_past : ℕ → Transfer → Bool
unfolding is_terminal
is_past before t = is_terminal t.state && ltb t.submitted_at before

-- The rows that the join keeps, each with its storage.
unfoldable pub with_storage : (Transfer → Option Text) → List Transfer → List (Transfer × Text)
with_storage storage_id [] = []
with_storage storage_id (t ∷ ts) =
    let rest = with_storage storage_id ts in
    elim (storage_id t) [ none ↦ rest | some s ↦ (t, s) ∷ rest ]

unfoldable pub roll_up_all : List (Transfer × Text) → List TransferStat → List TransferStat
unfolding roll_up
roll_up_all [] stats = stats
roll_up_all ((t, s) ∷ rows) stats = roll_up_all rows (roll_up t s stats)

-- The rows that `_prune_transfers` finds.
unfoldable pub past_rows : ℕ → Db → List (Transfer × Text)
unfolding is_past with_storage
past_rows before db = with_storage (joined_storage db) (select (is_past before) db.transfers)

abbrev pub has_id : ℕ → List (Transfer × Text) → Bool
has_id id rows = any (λ r. r.0.id == id) rows

-- `_prune_transfers`.
unfoldable pub prune_transfers : ℕ → Db → Db
unfolding past_rows roll_up_all
prune_transfers before db =
    let rows = past_rows before db in
    record db {
      transfers = select (λ t. not (has_id t.id rows)) db.transfers;
      stats = roll_up_all rows db.stats;
    }

unfoldable pub prune_audit : ℕ → Db → Db
prune_audit before db = record db { audit = select (λ e. not (ltb e.ts before)) db.audit }

-- `prune`: the answer is how many transfers went.
unfoldable pub prune : ClusterConfig → ℕ → Exec ℕ
unfolding past_rows prune_transfers prune_audit
prune cluster now = do
  pruned ← reads (λ db. length (past_rows (now - cluster.keep_transfers) db))
  writes (prune_transfers (now - cluster.keep_transfers))
  writes (prune_audit (now - cluster.keep_audit))
  commit
  pure pruned
