-- ===== src/Services/Reports/Rounding.antt =====
-- services/reports.py: totals that are small enough for Python's floats are added exactly.
use stashd.Prelude.{
  ℕ, ◌+◌, ◌≤◌, Text, same, ◌&&◌, List, [], ◌∷◌, select, Option, ◌≡◌, refl, ap, ◌∙◌, arith,
  Bool-cases, inl, inr,
}
use stashd.Domain.Transfers.{is_terminal}
use stashd.Config.{ClusterConfig}
use stashd.Models.{Transfer, TransferStat, Db}
use stashd.Services.Retention.{joined_storage, with_storage}
use stashd.Services.Reports.{
  GroupBy, Bucket, key_for, empty_bucket, add_bucket, add_to, transfer_bucket, stat_bucket,
  in_window, day_in_window, add_transfers, add_rolled_up, usage_totals,
}

-- Sums up to the limit are exact.
abbrev pub AddsExactly : (ℕ → ℕ → ℕ) → ℕ → Type 0
AddsExactly plus limit = (a b : ℕ) → a + b ≤ limit → plus a b ≡ a + b

abbrev size : Bucket → ℕ
size b = b.bytes + b.transfers + b.succeeded + b.counted_waits

abbrev sizes : List (Text × Bucket) → ℕ
sizes [] = 0
sizes (e ∷ totals) = size e.1 + sizes totals

abbrev transfer_sizes : List (Transfer × Text) → ℕ
transfer_sizes [] = 0
transfer_sizes (r ∷ rows) = size (transfer_bucket r.0) + transfer_sizes rows

abbrev stat_sizes : List TransferStat → ℕ
stat_sizes [] = 0
stat_sizes (s ∷ stats) = size (stat_bucket s) + stat_sizes stats

add_to-sizes :
    (key : Text) (amount : Bucket) (totals : List (Text × Bucket))
    → sizes (add_to ◌+◌ key amount totals) ≡ sizes totals + size amount
unfolding add_to
add_to-sizes key amount [] = omega arith
add_to-sizes key amount ((k, b) ∷ totals) = elim (Bool-cases (same k key)) [
  | inl q ↦ rw q (omega arith)
  | inr q ↦ rw q (omega (arith, add_to-sizes key amount totals))
]

-- The transfers and the buckets in the window.
abbrev pub rows_in : Option ℕ → Option ℕ → Db → List (Transfer × Text)
rows_in since until db =
    with_storage (joined_storage db)
      (select (λ t. is_terminal t.state && in_window since until t.submitted_at) db.transfers)

abbrev pub stats_in : Option ℕ → Option ℕ → Db → List TransferStat
stats_in since until db = select (λ s. day_in_window since until s.day) db.stats

-- All that the report adds up.
unfoldable pub figures : Option ℕ → Option ℕ → Db → ℕ
unfolding in_window day_in_window is_terminal with_storage
figures since until db =
    transfer_sizes (rows_in since until db) + stat_sizes (stats_in since until db)

module _ (plus : ℕ → ℕ → ℕ) (limit : ℕ) (exact : AddsExactly plus limit) where
  add_bucket_exact :
      (a b : Bucket) → size a + size b ≤ limit → add_bucket plus a b ≡ add_bucket ◌+◌ a b
  add_bucket_exact a b h = λ i. record {
    bytes = exact a.bytes b.bytes (omega arith) i;
    transfers = exact a.transfers b.transfers (omega arith) i;
    succeeded = exact a.succeeded b.succeeded (omega arith) i;
    counted_waits = exact a.counted_waits b.counted_waits (omega arith) i;
  }

  add_to_exact :
      (key : Text) (amount : Bucket) (totals : List (Text × Bucket))
      → sizes totals + size amount ≤ limit
      → add_to plus key amount totals ≡ add_to ◌+◌ key amount totals
  unfolding add_to
  add_to_exact key amount [] h =
      ap (λ b. (key, b) ∷ []) (add_bucket_exact empty_bucket amount (omega arith))
  add_to_exact key amount ((k, b) ∷ totals) h = elim (Bool-cases (same k key)) [
    | inl q ↦ rw q (ap (λ x. (k, x) ∷ totals) (add_bucket_exact b amount (omega arith)))
    | inr q ↦ rw q (ap (λ rest. (k, b) ∷ rest) (add_to_exact key amount totals (omega arith)))
  ]

  module _ (cluster : ClusterConfig) (g : GroupBy) where
    transfers_exact :
        (rows : List (Transfer × Text)) (totals : List (Text × Bucket))
        → sizes totals + transfer_sizes rows ≤ limit
        → (add_transfers plus cluster g rows totals ≡ add_transfers ◌+◌ cluster g rows totals)
          × (sizes (add_transfers ◌+◌ cluster g rows totals) ≡ sizes totals + transfer_sizes rows)
    unfolding add_transfers
    transfers_exact [] totals h = (refl, omega arith)
    transfers_exact ((t, s) ∷ rows) totals h =
        let key = key_for cluster g t.user s t.route in
        let grown = add_to-sizes key (transfer_bucket t) totals in
        let (e, n) =
          transfers_exact rows (add_to ◌+◌ key (transfer_bucket t) totals) (omega arith) in
        (
          ap (add_transfers plus cluster g rows)
                (add_to_exact key (transfer_bucket t) totals (omega arith))
              ∙ e,
          omega arith,
        )

    rolled_up_exact :
        (stats : List TransferStat) (totals : List (Text × Bucket))
        → sizes totals + stat_sizes stats ≤ limit
        → add_rolled_up plus cluster g stats totals ≡ add_rolled_up ◌+◌ cluster g stats totals
    unfolding add_rolled_up
    rolled_up_exact [] totals h = refl
    rolled_up_exact (s ∷ stats) totals h =
        let key = key_for cluster g s.user s.storage_id s.route in
        let grown = add_to-sizes key (stat_bucket s) totals in
        ap (add_rolled_up plus cluster g stats)
          (add_to_exact key (stat_bucket s) totals (omega arith))
        ∙ rolled_up_exact stats (add_to ◌+◌ key (stat_bucket s) totals) (omega arith)

    pub usage_totals_exact :
        (since until : Option ℕ) (db : Db)
        → figures since until db ≤ limit
        → usage_totals plus cluster g since until db ≡ usage_totals ◌+◌ cluster g since until db
    unfolding usage_totals figures
    usage_totals_exact since until db h =
        let (e, n) = transfers_exact (rows_in since until db) [] (omega arith) in
        ap (add_rolled_up plus cluster g (stats_in since until db)) e
        ∙ rolled_up_exact (stats_in since until db) _ (omega arith)
