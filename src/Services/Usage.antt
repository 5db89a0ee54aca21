-- ===== src/Services/Usage.antt =====
-- services/usage.py: what the filesets of one storage hold, as their daemon measured it.
use stashd.Prelude.{
  ℕ, Text, same, Bool, not, ◌&&◌, ◌||◌, List, [], ◌∷◌, map, select, length, Option, none, some, ltb,
  ◌==◌, if◌then◌else◌,
}
use stashd.Domain.Errors.{Result}
use stashd.Domain.Filesets.{FilesetState}
use stashd.Domain.Filesets
use stashd.Models.{Fileset, Db}
use stashd.Services.Releases.{FilesetLocation, location_of}
use stashd.Session.{Exec, ◌>>=◌, ◌>>◌, pure, lift, reads, writes, commit}

pub record Measured : Type 0 where
  pub used_bytes : ℕ
  pub file_count : ℕ

-- `Measurable`: the id of a fileset, and where it lies.
abbrev pub Measurable : Type 0
Measurable = ℕ × FilesetLocation

-- `UsageSource.fileset_usage`: what a daemon answers, by fileset id.
abbrev pub UsageSource : Type 0
UsageSource = Text → List Measurable → Result (List (ℕ × Measured))

unfoldable pub is_measured : Text → Fileset → Bool
unfolding same
is_measured storage_id f =
    same f.storage_id storage_id
    && not (
        Filesets.is_state f.state FilesetState.released
        || Filesets.is_state f.state FilesetState.creating)

-- `measured.get(row.id)`.
unfoldable pub found_usage : ℕ → List (ℕ × Measured) → Option Measured
found_usage id [] = none
found_usage id ((i, u) ∷ more) = if i == id then some u else found_usage id more

abbrev pub corrected_by : ℕ → Fileset → Option Measured → Fileset
corrected_by now f none = f
corrected_by now f (some u) = record f {
  used_bytes = u.used_bytes;
  file_count = some u.file_count;
  used_bytes_at = some now;
  over_allocation = ltb f.allocated_bytes u.used_bytes;
}

-- The body of the loop, for a row that was asked about.
unfoldable pub corrected : ℕ → Text → List (ℕ × Measured) → Fileset → Fileset
unfolding is_measured found_usage
corrected now storage_id measured f =
    if is_measured storage_id f then corrected_by now f (found_usage f.id measured) else f

unfoldable pub correct_all : ℕ → Text → List (ℕ × Measured) → Db → Db
unfolding corrected
correct_all now storage_id measured db = record db {
  filesets = map (corrected now storage_id measured) db.filesets;
}

unfoldable pub measure_rows : ℕ → Text → UsageSource → List Fileset → Exec ℕ
unfolding corrected location_of correct_all
measure_rows now storage_id usage [] = pure 0
measure_rows now storage_id usage (f ∷ rows) = do
  measured ← lift (usage storage_id (map (λ r. (r.id, location_of r)) (f ∷ rows)))
  writes (correct_all now storage_id measured)
  commit
  pure (length measured)

-- `reconcile_storage`: the answer is how many were measured.
unfoldable pub reconcile_storage : ℕ → Text → UsageSource → Exec ℕ
unfolding is_measured measure_rows
reconcile_storage now storage_id usage = do
  rows ← reads (λ db. select (is_measured storage_id) db.filesets)
  measure_rows now storage_id usage rows
