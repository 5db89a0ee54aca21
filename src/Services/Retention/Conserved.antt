-- ===== src/Services/Retention/Conserved.antt =====
-- services/retention.py: what a prune leaves unchanged.
use stashd.Prelude.{
  ℕ, ◌+◌, ◌-◌, Text, same_refl, same_iff, Bool, true, false, not, ◌&&◌, ◌||◌, List, [], ◌∷◌, select,
  sum_of, All, Option, none, some, ltb, ◌==◌, if◌then◌else◌, ◌≡◌, refl, ap, arith, Bool-cases,
  Option-cases, inl, inr,
}
use stashd.Domain.Transfers.{is_terminal}
use stashd.Config.{ClusterConfig}
use stashd.Models.{Transfer, TransferStat, Db}
use stashd.Session.{after, ◌>>=◌, reads, writes}
use stashd.Session.Keeps.{after-commit}
use stashd.Services.Retention.{
  day_of, kind_index, joined_storage, is_bucket, new_bucket, succeeded_one, add_to_bucket, roll_up,
  is_past, with_storage, roll_up_all, past_rows, has_id, prune_transfers, prune_audit, prune,
}

-- The bucket's own day, user, storage, route and kind are the transfer's.
is_bucket-key :
    (t : Transfer) (storage_id : Text) (s : TransferStat)
    → is_bucket t storage_id s ≡ true
    → (s.day ≡ day_of t.submitted_at)
      × (s.user ≡ t.user)
      × (s.storage_id ≡ storage_id)
      × (s.route ≡ t.route)
      × (kind_index s.kind ≡ kind_index t.kind)
unfolding is_bucket
is_bucket-key t storage_id s h =
    ground
      (arith, same_iff s.user t.user, same_iff s.storage_id storage_id, same_iff s.route t.route)

-- A selection by day, user, storage, route and kind, and a figure that buckets and rows both have.
pub record Figure : Type 0 where
  pub chosen : ℕ → Text → Text → Text → ℕ → Bool
  pub of_stat : TransferStat → ℕ
  pub of_row : Transfer → ℕ
  pub adds : (t : Transfer) (s : TransferStat) → of_stat (add_to_bucket t s) ≡ of_stat s + of_row t
  pub starts : (t : Transfer) (storage_id : Text) → of_stat (new_bucket t storage_id) ≡ 0

module _ (f : Figure) where
  unfoldable pub share : TransferStat → ℕ
  share s =
      if f.chosen s.day s.user s.storage_id s.route (kind_index s.kind) then f.of_stat s else 0

  unfoldable pub row_share : Transfer → Text → ℕ
  row_share t storage_id =
      if f.chosen (day_of t.submitted_at) t.user storage_id t.route (kind_index t.kind)
      then f.of_row t
      else 0

  share-added :
      (t : Transfer) (storage_id : Text) (s : TransferStat)
      → is_bucket t storage_id s ≡ true
      → share (add_to_bucket t s) ≡ share s + row_share t storage_id
  unfolding share row_share add_to_bucket
  share-added t storage_id s h =
      let (a, b, c, d, e) = is_bucket-key t storage_id s h in
      rw (a, b, c, d, e) (ground (arith, f.adds t s))

  new_bucket-is_bucket :
      (t : Transfer) (storage_id : Text) → is_bucket t storage_id (new_bucket t storage_id) ≡ true
  unfolding is_bucket new_bucket
  new_bucket-is_bucket t storage_id =
      ground (arith, same_refl t.user, same_refl storage_id, same_refl t.route)

  share-new : (t : Transfer) (storage_id : Text) → share (new_bucket t storage_id) ≡ 0
  unfolding share
  share-new t storage_id = ground (arith, f.starts t storage_id)

  roll_up-share :
      (t : Transfer) (storage_id : Text) (stats : List TransferStat)
      → sum_of share (roll_up t storage_id stats) ≡ sum_of share stats + row_share t storage_id
  unfolding roll_up
  roll_up-share t storage_id [] = omega (
    arith,
    share-added t storage_id (new_bucket t storage_id) (new_bucket-is_bucket t storage_id),
    share-new t storage_id,
  )
  roll_up-share t storage_id (s ∷ stats) = elim (Bool-cases (is_bucket t storage_id s)) [
    | inl e ↦ rw e (omega (arith, share-added t storage_id s e))
    | inr e ↦ rw e (omega (arith, roll_up-share t storage_id stats))
  ]

  roll_up_all-share :
      (rows : List (Transfer × Text)) (stats : List TransferStat)
      → sum_of share (roll_up_all rows stats)
        ≡ sum_of share stats + sum_of (λ r. row_share r.0 r.1) rows
  unfolding roll_up_all
  roll_up_all-share [] stats = omega arith
  roll_up_all-share ((t, s) ∷ rows) stats =
      omega (arith, roll_up_all-share rows (roll_up t s stats), roll_up-share t s stats)

  -- What a row that stays in the table adds to a figure.
  unfoldable pub standing_share : (Transfer → Option Text) → Transfer → ℕ
  standing_share storage_id t =
      if is_terminal t.state then elim (storage_id t) [ none ↦ 0 | some s ↦ row_share t s ] else 0

-- No two rows have one id: it is the primary key.
abbrev pub DistinctIds : List Transfer → Type 0
DistinctIds [] = Unit
DistinctIds (t ∷ ts) = All (λ u. (t.id == u.id) ≡ false) ts × DistinctIds ts

abbrev is_joined {ℓ} : {A : Type ℓ} → Option A → Bool
is_joined none = false
is_joined (some a) = true

module _ (before : ℕ) (storage_id : Transfer → Option Text) where
  rows_of : List Transfer → List (Transfer × Text)
  rows_of ts = with_storage storage_id (select (is_past before) ts)

  -- Whether a row goes.
  goes : Transfer → Bool
  goes t = is_past before t && is_joined (storage_id t)

  has_id-step :
      (id : ℕ) (t : Transfer) (ts : List Transfer)
      → has_id id (rows_of (t ∷ ts)) ≡ ((goes t && t.id == id) || has_id id (rows_of ts))
  unfolding rows_of with_storage goes
  has_id-step id t ts = elim (Bool-cases (is_past before t)) [
    | inl e ↦
        rw e (elim (Option-cases (storage_id t)) [ inl n ↦ rw n refl | inr (s, k) ↦ rw k refl ])
    | inr e ↦ rw e refl
  ]

  id-absent :
      (id : ℕ) (ts : List Transfer)
      → All (λ u. (id == u.id) ≡ false) ts
      → has_id id (rows_of ts) ≡ false
  unfolding rows_of with_storage
  id-absent id [] h = refl
  id-absent id (t ∷ ts) h = ground (arith, has_id-step id t ts, id-absent id ts)

  goes-later :
      (t : Transfer) (ts us : List Transfer)
      → All (λ u. (t.id == u.id) ≡ false) us
      → All (λ u. has_id u.id (rows_of ts) ≡ goes u) us
      → All (λ u. has_id u.id (rows_of (t ∷ ts)) ≡ goes u) us
  goes-later t ts [] h k = tt
  goes-later t ts (u ∷ us) (h, hs) (k, ks) =
      (ground (arith, has_id-step u.id t ts), goes-later t ts us hs ks)

  goes-All : (ts : List Transfer) → DistinctIds ts → All (λ u. has_id u.id (rows_of ts) ≡ goes u) ts
  goes-All [] h = tt
  goes-All (t ∷ ts) (h, hs) = (
    ground (arith, has_id-step t.id t ts, id-absent t.id ts),
    goes-later t ts ts h (goes-All ts hs),
  )

  module _ (f : Figure) where
    rows-share :
        (ts : List Transfer)
        → sum_of (λ r. row_share f r.0 r.1) (rows_of ts)
          ≡ sum_of (λ t. if goes t then standing_share f storage_id t else 0) ts
    unfolding rows_of with_storage goes standing_share is_past
    rows-share [] = refl
    rows-share (t ∷ ts) = elim (Bool-cases (is_terminal t.state)) [
      | inr e ↦ rw e (omega (arith, rows-share ts))
      | inl e ↦ elim (Bool-cases (ltb t.submitted_at before)) [
        | inr k ↦ rw (e, k) (omega (arith, rows-share ts))
        | inl k ↦
            rw (e, k)
              (elim (Option-cases (storage_id t)) [
                | inl n ↦ rw n (omega (arith, rows-share ts))
                | inr (s, n) ↦ rw n (ap (λ m. row_share f t s + m) (rows-share ts))
              ])
      ]
    ]

    sum-split :
        (p : Transfer → Bool) (ts : List Transfer)
        → All (λ u. p u ≡ goes u) ts
        → sum_of (standing_share f storage_id) (select (λ t. not (p t)) ts)
            + sum_of (λ t. if goes t then standing_share f storage_id t else 0) ts
          ≡ sum_of (standing_share f storage_id) ts
    sum-split p [] h = refl
    sum-split p (t ∷ ts) (h, hs) = ground (arith, sum-split p ts hs)

    pruned-share :
        (ts : List Transfer) (stats : List TransferStat)
        → DistinctIds ts
        → sum_of (share f) (roll_up_all (rows_of ts) stats)
            + sum_of (standing_share f storage_id) (select (λ t. not (has_id t.id (rows_of ts))) ts)
          ≡ sum_of (share f) stats + sum_of (standing_share f storage_id) ts
    pruned-share ts stats h = omega (
      arith,
      roll_up_all-share f (rows_of ts) stats,
      rows-share ts,
      sum-split (λ t. has_id t.id (rows_of ts)) ts (goes-All ts h),
    )

-- A figure of all terminal transfers, those in the table and those in the buckets.
unfoldable pub recorded : Figure → Db → ℕ
unfolding share standing_share
recorded f db =
    sum_of (share f) db.stats + sum_of (standing_share f (joined_storage db)) db.transfers

recorded-pruned :
    (f : Figure) (before old : ℕ) (db : Db)
    → DistinctIds db.transfers
    → recorded f (prune_audit old (prune_transfers before db)) ≡ recorded f db
unfolding recorded prune_audit prune_transfers past_rows
recorded-pruned f before old db h =
    unfold rows_of in pruned-share before (joined_storage db) f db.transfers db.stats h

recorded-after :
    (f : Figure) (cluster : ClusterConfig) (now : ℕ) (db : Db)
    → DistinctIds db.transfers
    → recorded f (after (prune cluster now) db) ≡ recorded f db
unfolding after prune ◌>>=◌ reads writes
recorded-after f cluster now db h =
    after-commit (λ d. recorded f d ≡ recorded f db) _ _ refl
      (recorded-pruned f (now - cluster.keep_transfers) (now - cluster.keep_audit) db h)

unfoldable pub all_transfers : (ℕ → Text → Text → Text → ℕ → Bool) → Figure
unfolding add_to_bucket new_bucket
all_transfers chosen = record {
  chosen = chosen;
  of_stat = λ s. s.transfers;
  of_row = λ t. 1;
  adds = λ t s. refl;
  starts = λ t storage_id. refl;
}

unfoldable pub successes : (ℕ → Text → Text → Text → ℕ → Bool) → Figure
unfolding add_to_bucket new_bucket
successes chosen = record {
  chosen = chosen;
  of_stat = λ s. s.succeeded;
  of_row = λ t. succeeded_one t.state;
  adds = λ t s. refl;
  starts = λ t storage_id. refl;
}

unfoldable pub bytes_moved : (ℕ → Text → Text → Text → ℕ → Bool) → Figure
unfolding add_to_bucket new_bucket
bytes_moved chosen = record {
  chosen = chosen;
  of_stat = λ s. s.bytes_transferred;
  of_row = λ t. t.bytes_done;
  adds = λ t s. refl;
  starts = λ t storage_id. refl;
}

-- The terminal transfers of the chosen days, users, storages, routes and kinds, in the table and in
-- the buckets: how many, how many succeeded, and their bytes.
unfoldable pub terminal_totals : (ℕ → Text → Text → Text → ℕ → Bool) → Db → ℕ × ℕ × ℕ
unfolding recorded all_transfers successes bytes_moved
terminal_totals chosen db = (
  recorded (all_transfers chosen) db,
  recorded (successes chosen) db,
  recorded (bytes_moved chosen) db,
)

-- Where no two rows have one id, a prune changes none of the totals of terminal transfers, for any
-- choice of day, user, storage, route and kind: what goes from the table is in the buckets.
pub prune-terminal_totals :
    (chosen : ℕ → Text → Text → Text → ℕ → Bool) (cluster : ClusterConfig) (now : ℕ) (db : Db)
    → DistinctIds db.transfers
    → terminal_totals chosen (after (prune cluster now) db) ≡ terminal_totals chosen db
unfolding terminal_totals
prune-terminal_totals chosen cluster now db h = λ i. (
  recorded-after (all_transfers chosen) cluster now db h i,
  recorded-after (successes chosen) cluster now db h i,
  recorded-after (bytes_moved chosen) cluster now db h i,
)
