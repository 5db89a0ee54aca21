-- ===== src/Domain/Allocation.antt =====
-- domain/allocation.py: admission control.
pub mod Admission
use stashd.Prelude.{
  is_empty, ℕ, max, Text, codes, Bool, true, false, ◌&&◌, not, List, [], ◌∷◌, leb, Option, none,
  some, if◌then◌else◌,
}
use stashd.Prelude.Int.{ℤ, pos, pos_part, sub_ℕ, ◌-ℤ◌, ltb_ℤ, leb_ℤ}
use stashd.Domain.Errors.{
  ErrorCode, Detail, num, int, text, texts, Result, ok, raise, refuse, ◌>>=◌, ◌>>◌,
}
use stashd.Domain.Floats.{Float, FloatOps}

pub record AllocationRequest : Type 0 where
  pub user : Text
  pub storage_id : Text
  pub requested_bytes : ℤ

pub record AllocationState : Type 0 where
  pub user_allocated_on_storage : ℕ
  pub user_limit_on_storage : ℕ
  pub user_allocated_on_caches : ℕ
  pub user_total_limit : ℕ
  pub storage_allocated : ℕ
  pub storage_capacity_bytes : ℕ
  pub fill_limit : Float
  pub user_fileset_count : ℕ
  pub max_filesets_per_user : ℕ
  pub over_allocation_filesets : List Text
  pub storage_drained : Bool

-- `int(state.storage_capacity_bytes * state.fill_limit)`.
abbrev pub usable : FloatOps → AllocationState → ℕ
usable f state = f.floor (f.scale state.storage_capacity_bytes state.fill_limit)

-- The first violated rule, or `ok` for a request that fits. `max(free, 0)` is `pos_part`. The
-- detail `fill_limit` of the last rule is a float and is left out.
unfoldable pub admit : FloatOps → AllocationRequest → AllocationState → Result (Unit {0})
admit f request state = do
  let needed = request.requested_bytes
  let storage = request.storage_id
  let free_on_storage = sub_ℕ state.user_limit_on_storage state.user_allocated_on_storage
  let free_in_total = sub_ℕ state.user_total_limit state.user_allocated_on_caches
  let free_on_capacity = sub_ℕ (usable f state) state.storage_allocated
  refuse (leb_ℤ needed (pos 0)) ErrorCode.conflict (("requested_bytes", int needed) ∷ [])
  refuse state.storage_drained ErrorCode.storage_drained (("storage", text storage) ∷ [])
  refuse (not (is_empty state.over_allocation_filesets)) ErrorCode.over_allocation
      (("filesets", texts state.over_allocation_filesets) ∷ [])
  refuse (leb state.max_filesets_per_user state.user_fileset_count) ErrorCode.too_many_filesets
      (("count", num state.user_fileset_count) ∷ ("limit", num state.max_filesets_per_user) ∷ [])
  refuse (ltb_ℤ free_on_storage needed) ErrorCode.allocation_limit_exceeded (
      ("required_bytes", int needed)
      ∷ ("free_bytes", num (pos_part free_on_storage))
      ∷ ("limit_bytes", num state.user_limit_on_storage)
      ∷ ("scope", text (codes "storage"))
      ∷ ("storage", text storage)
      ∷ [])
  refuse (ltb_ℤ free_in_total needed) ErrorCode.total_allocation_limit_exceeded (
      ("required_bytes", int needed)
      ∷ ("free_bytes", num (pos_part free_in_total))
      ∷ ("limit_bytes", num state.user_total_limit)
      ∷ ("scope", text (codes "total"))
      ∷ [])
  refuse (ltb_ℤ free_on_capacity needed) ErrorCode.storage_full (
      ("required_bytes", int needed)
      ∷ ("free_bytes", num (pos_part free_on_capacity))
      ∷ ("capacity_bytes", num state.storage_capacity_bytes)
      ∷ ("storage", text storage)
      ∷ [])

-- What a cached fileset reserves: its source with headroom, or more if asked.
unfoldable pub allocation_for_source : FloatOps → ℕ → Float → Option ℕ → ℕ
allocation_for_source f measured_bytes headroom requested =
    let with_headroom = max (f.ceil (f.scale measured_bytes headroom)) 1 in
    elim requested [ none ↦ with_headroom | some wanted ↦ max with_headroom wanted ]

-- The delta that a resize would add.
unfoldable pub check_resize : ℕ → ℕ → ℤ → Bool → Result ℤ
check_resize current used new force = do
  refuse (leb_ℤ new (pos 0)) ErrorCode.conflict (("requested_bytes", int new) ∷ [])
  refuse (ltb_ℤ new (pos used) && not force) ErrorCode.conflict
      (("used_bytes", num used) ∷ ("requested_bytes", int new) ∷ [])
  ok (new -ℤ pos current)
