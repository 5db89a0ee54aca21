-- ===== src/Services/Reports/Allocated.antt =====
-- services/reports.py: the allocation report, what each user holds on each storage. The database's
-- order of texts is an argument.
pub mod Summed
use stashd.Prelude.{
  ℕ, ◌+◌, Text, same, Bool, true, false, ◌&&◌, List, [], ◌∷◌, map, select, Option, none, some,
  if◌then◌else◌,
}
use stashd.Domain.Filesets.{holds_allocation}
use stashd.Config.{ClusterConfig, Storage, storage}
use stashd.Models.{Fileset, Db}
use stashd.Services.Admitting.{is_live, limit_of, storage_limit}

-- A group of the query: a user's live filesets on one storage.
pub record Group : Type 0 where
  pub user : Text
  pub storage_id : Text
  pub allocated_bytes : ℕ
  pub used_bytes : ℕ
  pub filesets : ℕ

pub record AllocationRow : Type 0 where
  pub group : Group
  pub limit_bytes : ℕ

pub record Offender : Type 0 where
  pub user : Text
  pub storage_id : Text
  pub fileset : Text
  pub allocated_bytes : ℕ
  pub used_bytes : ℕ

abbrev pub alone : Fileset → Group
alone f = record {
  user = f.owner_user;
  storage_id = f.storage_id;
  allocated_bytes = f.allocated_bytes;
  used_bytes = f.used_bytes;
  filesets = 1;
}

abbrev pub joined : Fileset → Group → Group
joined f g = record g {
  allocated_bytes = g.allocated_bytes + f.allocated_bytes;
  used_bytes = g.used_bytes + f.used_bytes;
  filesets = g.filesets + 1;
}

abbrev offender : Fileset → Offender
offender f = record {
  user = f.owner_user;
  storage_id = f.storage_id;
  fileset = f.name;
  allocated_bytes = f.allocated_bytes;
  used_bytes = f.used_bytes;
}

-- `allocations.storage_limit(cluster, storage_id, limits)`; `none` where it raises KeyError.
unfoldable pub limit_for : ClusterConfig → Text → Text → Db → Option ℕ
unfolding limit_of storage storage_limit
limit_for cluster user storage_id db = elim (limit_of user (some storage_id) db) [
  | some override ↦ some override
  | none ↦ elim (storage cluster storage_id) [ none ↦ none | some s ↦ some (storage_limit s none) ]
]

module _ (text_lt : Text → Text → Bool) where
  abbrev pub pair_lt : Text → Text → Text → Text → Bool
  pair_lt a s b t = if same a b then text_lt s t else text_lt a b

  -- `group_by(owner_user, storage_id).order_by(owner_user, storage_id)`, a row at a time.
  unfoldable pub add_group : Fileset → List Group → List Group
  unfolding same
  add_group f [] = alone f ∷ []
  add_group f (g ∷ gs) =
      if same f.owner_user g.user && same f.storage_id g.storage_id
      then joined f g ∷ gs
      else if pair_lt f.owner_user f.storage_id g.user g.storage_id
      then alone f ∷ g ∷ gs
      else g ∷ add_group f gs

  unfoldable pub groups : List Fileset → List Group
  unfolding add_group
  groups [] = []
  groups (f ∷ fs) = add_group f (groups fs)

  -- `order_by(owner_user, name)`.
  unfoldable pub add_offender : Fileset → List Fileset → List Fileset
  unfolding same
  add_offender f [] = f ∷ []
  add_offender f (g ∷ gs) =
      if pair_lt f.owner_user f.name g.owner_user g.name then f ∷ g ∷ gs else g ∷ add_offender f gs

  unfoldable pub offenders_of : List Fileset → List Fileset
  unfolding add_offender
  offenders_of [] = []
  offenders_of (f ∷ fs) = add_offender f (offenders_of fs)

  abbrev pub push_row : Group → Option ℕ → Option (List AllocationRow) → Option (List AllocationRow)
  push_row g none rows = none
  push_row g (some limit) none = none
  push_row g (some limit) (some rows) = some (record { group = g; limit_bytes = limit } ∷ rows)

  unfoldable pub rows_of : ClusterConfig → Db → List Group → Option (List AllocationRow)
  unfolding limit_for
  rows_of cluster db [] = some []
  rows_of cluster db (g ∷ gs) =
      push_row g (limit_for cluster g.user g.storage_id db) (rows_of cluster db gs)

  -- `none` where the lookup of a limit raises.
  unfoldable pub allocation_report :
      ClusterConfig → Db → Option (List AllocationRow × List Offender)
  unfolding groups rows_of offenders_of holds_allocation
  allocation_report cluster db =
      let live = select is_live db.filesets in
      elim (rows_of cluster db (groups live)) [
        | none ↦ none
        | some rows ↦
            some (rows, map offender (offenders_of (select (λ f. f.over_allocation) live)))
      ]
