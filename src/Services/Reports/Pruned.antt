-- ===== src/Services/Reports/Pruned.antt =====
-- services/reports.py: the usage report counts what was pruned.
use stashd.Prelude.{
  ℕ, ◌+◌, ◌*◌, Text, same, Bool, ◌&&◌, List, sum_of, Option, none, some, if◌then◌else◌, ◌≡◌,
}
use stashd.Config.{ClusterConfig}
use stashd.Models.{Db}
use stashd.Services.Retention.{day_of}
use stashd.Services.Reports.{
  GroupBy, Bucket, key_for, empty_bucket, add_bucket, day_in_window, usage_totals,
}

-- A figure of a bucket that adds up.
record Additive (proj : Bucket → ℕ) : Type 0 where
  adds : (a b : Bucket) → proj (add_bucket ◌+◌ a b) ≡ proj a + proj b
  starts : proj empty_bucket ≡ 0

-- The figure under a key.
unfoldable pub under : (Bucket → ℕ) → Text → List (Text × Bucket) → ℕ
unfolding same
under proj k totals = sum_of (λ e. if same e.0 k then proj e.1 else 0) totals

-- The end of a window at midnight, or none.
abbrev pub Midnight : Option ℕ → Type 0
Midnight none = Unit
Midnight (some at) = day_of at * 86400000000 ≡ at

module _ (cluster : ClusterConfig) (g : GroupBy) (k : Text) (since until : Option ℕ) where
  -- The days of the window, and what is grouped under the key.
  unfoldable pub grouped : ℕ → Text → Text → Text → ℕ → Bool
  unfolding key_for day_in_window same
  grouped day user storage_id route kind =
      day_in_window since until day && same (key_for cluster g user storage_id route) k

-- What the report says under a key: its transfers, those that succeeded, and their bytes.
abbrev figures_under : Text → List (Text × Bucket) → ℕ × ℕ × ℕ
figures_under k totals = (
  under (λ b. b.transfers) k totals,
  under (λ b. b.succeeded) k totals,
  under (λ b. b.bytes) k totals,
)

module _ (plus : ℕ → ℕ → ℕ) (cluster : ClusterConfig) (g : GroupBy) (k : Text)
    (since until : Option ℕ) where
  unfoldable pub reported : Db → ℕ × ℕ × ℕ
  unfolding under usage_totals
  reported db = figures_under k (usage_totals plus cluster g since until db)
