-- ===== src/Services/Reports/Allocated/Summed.antt =====
-- What the rows of the allocation report add up to (services/reports.py).
use stashd.Prelude.{
  ℕ, ◌+◌, Text, same, same_iff, ◌≡◌, refl, ◌∙◌, Bool, ◌&&◌, List, [], ◌∷◌, select, sum_of, Option,
  none, some, if◌then◌else◌, arith,
}
use stashd.Config.{ClusterConfig}
use stashd.Models.{Fileset, Db}
use stashd.Services.Admitting.{is_live, storage_allocated}
use stashd.Services.Reports.Allocated.{
  Group, AllocationRow, Offender, limit_for, add_group, groups, push_row, rows_of,
  allocation_report,
}

-- What the rows of a storage hold.
abbrev pub reported_on : Text → List AllocationRow → ℕ
reported_on st rows =
    sum_of (λ r. if same r.group.storage_id st then r.group.allocated_bytes else 0) rows

abbrev grouped_on : Text → List Group → ℕ
grouped_on st gs = sum_of (λ g. if same g.storage_id st then g.allocated_bytes else 0) gs

abbrev held_on : Text → List Fileset → ℕ
held_on st fs = sum_of (λ f. if same f.storage_id st then f.allocated_bytes else 0) fs

module _ (text_lt : Text → Text → Bool) (st : Text) where
  grouped_on-add_group :
      (f : Fileset) (gs : List Group)
      → grouped_on st (add_group text_lt f gs)
        ≡ (if same f.storage_id st then f.allocated_bytes else 0) + grouped_on st gs
  unfolding add_group
  grouped_on-add_group f [] = ground arith
  grouped_on-add_group f (g ∷ gs) =
      ground (arith, same_iff f.storage_id g.storage_id, grouped_on-add_group f gs)

  grouped_on-groups : (fs : List Fileset) → grouped_on st (groups text_lt fs) ≡ held_on st fs
  unfolding groups
  grouped_on-groups [] = refl
  grouped_on-groups (f ∷ fs) =
      omega (arith, grouped_on-add_group f (groups text_lt fs), grouped_on-groups fs)

  reported_on-push_row :
      (g : Group) (limit : Option ℕ) (held : ℕ) (rest : Option (List AllocationRow))
      (rows : List AllocationRow)
      → ((rs : List AllocationRow) → rest ≡ some rs → reported_on st rs ≡ held)
      → push_row text_lt g limit rest ≡ some rows
      → reported_on st rows ≡ (if same g.storage_id st then g.allocated_bytes else 0) + held
  reported_on-push_row g none held rest rows before h = ground arith
  reported_on-push_row g (some limit) held none rows before h = ground arith
  reported_on-push_row g (some limit) held (some rs) rows before h =
      let e = before rs refl in ground arith

  reported_on-rows_of :
      (cluster : ClusterConfig) (db : Db) (gs : List Group) (rows : List AllocationRow)
      → rows_of text_lt cluster db gs ≡ some rows
      → reported_on st rows ≡ grouped_on st gs
  unfolding rows_of
  reported_on-rows_of cluster db [] rows h = ground arith
  reported_on-rows_of cluster db (g ∷ gs) rows h =
      reported_on-push_row g (limit_for cluster g.user g.storage_id db) (grouped_on st gs)
        (rows_of text_lt cluster db gs) rows (reported_on-rows_of cluster db gs) h

held_on-select :
    (st : Text) (fs : List Fileset)
    → held_on st (select is_live fs)
      ≡ sum_of (λ f. f.allocated_bytes) (select (λ f. same f.storage_id st && is_live f) fs)
held_on-select st [] = refl
held_on-select st (f ∷ fs) = ground (arith, held_on-select st fs)

shown :
    (report : Option (List AllocationRow)) (rows : List AllocationRow) (fs : List Offender)
    (offenders : List Offender)
    → ◌≡◌ {A = Option (List AllocationRow × List Offender)}
        (elim report [ none ↦ none | some rs ↦ some (rs, fs) ])
        (some (rows, offenders))
    → report ≡ some rows
shown none rows fs offenders h = ground arith
shown (some rs) rows fs offenders h = ground arith

-- When the allocation report is made, its rows on a storage add up to what the admission rule counts
-- as allocated there.
pub allocation_report-storage_allocated :
    (text_lt : Text → Text → Bool) (cluster : ClusterConfig) (db : Db) (st : Text)
    (rows : List AllocationRow) (offenders : List Offender)
    → allocation_report text_lt cluster db ≡ some (rows, offenders)
    → reported_on st rows ≡ storage_allocated st db
unfolding allocation_report storage_allocated
allocation_report-storage_allocated text_lt cluster db st rows offenders h =
    reported_on-rows_of text_lt st cluster db (groups text_lt (select is_live db.filesets)) rows
      (shown _ rows _ offenders h)
    ∙ (grouped_on-groups text_lt st (select is_live db.filesets) ∙ held_on-select st db.filesets)
