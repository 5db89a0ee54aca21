-- ===== src/Session/Rows.antt =====
-- Row access and the table constraints of models/fileset.py and models/transfer.py.
use stashd.Prelude.{
  ℕ, ◌+◌, same, Bool, true, not, ◌&&◌, List, [], ◌∷◌, ◌++◌, map, any, every, find_first, leb, ltb,
  ◌==◌, Option, if◌then◌else◌,
}
use stashd.Domain.Filesets.{holds_allocation}
use stashd.Models.{Fileset, Transfer, Db}

-- `session.get(Transfer, id)` and `session.get(Fileset, id)`.
abbrev pub get_transfer : ℕ → Db → Option Transfer
get_transfer id db = find_first (λ t. t.id == id) db.transfers

abbrev pub get_fileset : ℕ → Db → Option Fileset
get_fileset id db = find_first (λ f. f.id == id) db.filesets

abbrev pub put_row_transfer : Transfer → List Transfer → List Transfer
put_row_transfer t rows = map (λ r. if r.id == t.id then t else r) rows

abbrev pub put_row_fileset : Fileset → List Fileset → List Fileset
put_row_fileset f rows = map (λ r. if r.id == f.id then f else r) rows

-- A changed object is written back to its row.
abbrev pub put_transfer : Transfer → Db → Db
put_transfer t db = record db { transfers = put_row_transfer t db.transfers }

abbrev pub put_fileset : Fileset → Db → Db
put_fileset f db = record db { filesets = put_row_fileset f db.filesets }

-- `session.add(row)` and the flush that gives the row its id.
abbrev pub add_transfer : Transfer → Db → Db
add_transfer t db = record db {
  transfers = db.transfers ++ (t ∷ []);
  next_transfer = db.next_transfer + 1;
}

abbrev pub add_fileset : Fileset → Db → Db
add_fileset f db = record db {
  filesets = db.filesets ++ (f ∷ []);
  next_fileset = db.next_fileset + 1;
}

-- `ck_transfers_progress_within_total` and `ck_transfers_attempt_positive`.
unfoldable pub transfer_ok : Transfer → Bool
transfer_ok t = leb t.bytes_done t.bytes_total && leb 1 t.attempt

-- `ck_filesets_allocation_positive`.
unfoldable pub fileset_ok : Fileset → Bool
fileset_ok f = ltb 0 f.allocated_bytes

-- Two rows with the same key of `uq_filesets_live_name`, both live.
unfoldable pub clash : Fileset → Fileset → Bool
unfolding same holds_allocation
clash f g =
    holds_allocation f.state
    && holds_allocation g.state
    && same f.owner_user g.owner_user
    && same f.storage_id g.storage_id
    && same f.name g.name

unfoldable pub live_names_unique : List Fileset → Bool
unfolding clash
live_names_unique [] = true
live_names_unique (f ∷ fs) = not (any (clash f) fs) && live_names_unique fs

unfoldable pub constraints_hold : Db → Bool
unfolding transfer_ok fileset_ok live_names_unique
constraints_hold db =
    every transfer_ok db.transfers && every fileset_ok db.filesets && live_names_unique db.filesets
