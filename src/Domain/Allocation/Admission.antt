-- ===== src/Domain/Allocation/Admission.antt =====
-- What `admit`, `allocation_for_source` and `check_resize` of domain/allocation.py guarantee.
use stashd.Prelude.{
  ℕ, ◌+◌, max, ◌≤◌, ◌<◌, ◌≡◌, refl, ◌≢◌, ◌⊎◌, ◌↔◌, Bool, true, false, [], none, some, arith,
}
use stashd.Prelude.Int.{ℤ, pos, pos_part, neg_part, ◌≤ℤ◌, ◌-ℤ◌}
use stashd.Domain.Errors.{ErrorCode, StashError, ok, err}
use stashd.Domain.Floats.{Float, FloatOps}
use stashd.Domain.Allocation.{
  AllocationRequest, AllocationState, usable, admit, allocation_for_source, check_resize,
}

-- The rules of docs/CONCEPTS.md, over a request of `n` bytes.
pub record Fits (f : FloatOps) (n : ℕ) (s : AllocationState) : Type 0 where
  pub positive : 0 < n
  pub not_drained : s.storage_drained ≡ false
  pub no_offender : s.over_allocation_filesets ≡ []
  pub below_count : s.user_fileset_count < s.max_filesets_per_user
  pub within_storage_limit : s.user_allocated_on_storage + n ≤ s.user_limit_on_storage
  pub within_total_limit : s.user_allocated_on_caches + n ≤ s.user_total_limit
  pub within_capacity : s.storage_allocated + n ≤ usable f s

-- A request of n bytes is admitted exactly when all the rules hold.
pub admit_iff :
    (f : FloatOps) (r : AllocationRequest) (s : AllocationState) (n : ℕ)
    → r.requested_bytes ≡ pos n
    → (admit f r s ≡ ok tt) ↔ Fits f n s
unfolding admit
admit_iff f r s n e = (λ h. ground arith, λ h. ground arith)

-- The rules that are tried before those about bytes.
abbrev pub Admissible : ℤ → AllocationState → Type 0
Admissible n s =
    (0 < pos_part n)
    × (s.storage_drained ≡ false)
    × (s.over_allocation_filesets ≡ [])
    × (s.user_fileset_count < s.max_filesets_per_user)

-- What the error code of a refusal says of the request and the state.
abbrev pub Explains : FloatOps → ℤ → AllocationState → ErrorCode → Type 0
Explains f n s ErrorCode.conflict = n ≤ℤ pos 0
Explains f n s ErrorCode.storage_drained = (s.storage_drained ≡ true) × (0 < pos_part n)
Explains f n s ErrorCode.over_allocation =
    (s.over_allocation_filesets ≢ []) × (0 < pos_part n) × (s.storage_drained ≡ false)
Explains f n s ErrorCode.too_many_filesets =
    (s.max_filesets_per_user ≤ s.user_fileset_count)
    × (0 < pos_part n)
    × (s.storage_drained ≡ false)
    × (s.over_allocation_filesets ≡ [])
Explains f n s ErrorCode.allocation_limit_exceeded =
    (s.user_limit_on_storage < s.user_allocated_on_storage + pos_part n) × Admissible n s
Explains f n s ErrorCode.total_allocation_limit_exceeded =
    (s.user_total_limit < s.user_allocated_on_caches + pos_part n)
    × (s.user_allocated_on_storage + pos_part n ≤ s.user_limit_on_storage)
    × Admissible n s
Explains f n s ErrorCode.storage_full =
    (usable f s < s.storage_allocated + pos_part n)
    × (s.user_allocated_on_storage + pos_part n ≤ s.user_limit_on_storage)
    × (s.user_allocated_on_caches + pos_part n ≤ s.user_total_limit)
    × Admissible n s
Explains f n s _ = ⊥

explains :
    (f : FloatOps) (r : AllocationRequest) (s : AllocationState) (e : StashError) (c : ErrorCode)
    → admit f r s ≡ err e
    → e.code ≡ c
    → Explains f r.requested_bytes s c
unfolding admit
explains f r s e ErrorCode.unauthenticated h q = ground arith
explains f r s e _ h q = ground arith

-- A refusal carries one of the seven codes, whose rule is violated while all rules that come before
-- it hold: a positive size, the drain, the offenders, the count, and of the byte rules the user's
-- limit on the storage, the total limit and the capacity, in this order.
pub admit-Explains :
    (f : FloatOps) (r : AllocationRequest) (s : AllocationState) (e : StashError)
    → admit f r s ≡ err e
    → Explains f r.requested_bytes s e.code
admit-Explains f r s e h = explains f r s e e.code h refl

max-cases : (a b : ℕ) → (max a b ≡ a) ⊎ (max a b ≡ b)
max-cases a b = ground arith

-- A cached fileset reserves at least one byte, the source with headroom, and what was asked for,
-- and never more than the largest of the three.
pub allocation_for_source_least :
    (f : FloatOps) (measured : ℕ) (headroom : Float) (wanted : ℕ)
    → let got = allocation_for_source f measured headroom (some wanted) in
      let scaled = f.ceil (f.scale measured headroom) in
      (1 ≤ got)
      × (scaled ≤ got)
      × (wanted ≤ got)
      × ((got ≡ 1) ⊎ (got ≡ scaled) ⊎ (got ≡ wanted))
      × (allocation_for_source f measured headroom none ≤ got)
unfolding allocation_for_source
allocation_for_source_least f measured headroom wanted = (
  omega arith,
  omega arith,
  omega arith,
  ground (
    arith,
    max-cases (max (f.ceil (f.scale measured headroom)) 1) wanted,
    max-cases (f.ceil (f.scale measured headroom)) 1,
  ),
  omega arith,
)

-- A resize is accepted exactly when the new size is positive and, unless forced, covers what is
-- used; its result then brings the current size to the new one.
pub check_resize_iff :
    (current used : ℕ) (new : ℤ) (force : Bool) (delta : ℤ)
    → (check_resize current used new force ≡ ok delta) ↔ (
        (0 < pos_part new)
        × ((used ≤ pos_part new) ⊎ (force ≡ true))
        × (pos_part delta + current ≡ neg_part delta + pos_part new)
        × (delta ≡ new -ℤ pos current))
unfolding check_resize
check_resize_iff current used new force delta = (λ h. ground arith, λ h. ground arith)
