-- ===== src/Domain/Errors.antt =====
-- domain/errors.py: the wire codes, and what a rejection carries. `details` holds numbers and
-- texts; the English `message` is left out.
use stashd.Prelude.{ℕ, Text, codes, String, Bool, true, false, List, ◌≡◌, refl, arith}
use stashd.Prelude.Int.{ℤ}

pub data ErrorCode : Type 0 where
  unauthenticated forbidden not_found invalid_request invalid_name invalid_path : ErrorCode
  path_not_found permission_denied not_a_source_storage not_a_cache_storage : ErrorCode
  fileset_exists fileset_not_ready source_mismatch allocation_limit_exceeded : ErrorCode
  total_allocation_limit_exceeded storage_full over_allocation too_many_filesets : ErrorCode
  too_many_queued flush_target_required conflict storage_drained daemon_unavailable : ErrorCode
  config_stale internal : ErrorCode

-- The value of a member, `str(code)`.
unfoldable pub code_text : ErrorCode → Text
code_text unauthenticated = codes "UNAUTHENTICATED"
code_text forbidden = codes "FORBIDDEN"
code_text not_found = codes "NOT_FOUND"
code_text invalid_request = codes "INVALID_REQUEST"
code_text invalid_name = codes "INVALID_NAME"
code_text invalid_path = codes "INVALID_PATH"
code_text path_not_found = codes "PATH_NOT_FOUND"
code_text permission_denied = codes "PERMISSION_DENIED"
code_text not_a_source_storage = codes "NOT_A_SOURCE_STORAGE"
code_text not_a_cache_storage = codes "NOT_A_CACHE_STORAGE"
code_text fileset_exists = codes "FILESET_EXISTS"
code_text fileset_not_ready = codes "FILESET_NOT_READY"
code_text source_mismatch = codes "SOURCE_MISMATCH"
code_text allocation_limit_exceeded = codes "ALLOCATION_LIMIT_EXCEEDED"
code_text total_allocation_limit_exceeded = codes "TOTAL_ALLOCATION_LIMIT_EXCEEDED"
code_text storage_full = codes "STORAGE_FULL"
code_text over_allocation = codes "OVER_ALLOCATION"
code_text too_many_filesets = codes "TOO_MANY_FILESETS"
code_text too_many_queued = codes "TOO_MANY_QUEUED"
code_text flush_target_required = codes "FLUSH_TARGET_REQUIRED"
code_text conflict = codes "CONFLICT"
code_text storage_drained = codes "STORAGE_DRAINED"
code_text daemon_unavailable = codes "DAEMON_UNAVAILABLE"
code_text config_stale = codes "CONFIG_STALE"
code_text internal = codes "INTERNAL"

pub data Detail : Type 0 where
  num : ℕ → Detail
  int : ℤ → Detail
  text : Text → Detail
  texts : List Text → Detail

pub record StashError : Type 0 where
  pub code : ErrorCode
  pub details : List (String × Detail)

pub data Result {ℓ} (A : Type ℓ) : Type ℓ where
  ok : A → Result A
  err : StashError → Result A

infixl 5 ◌>>=◌ ◌>>◌
abbrev pub ◌>>=◌ {ℓ κ} : {A : Type ℓ} {B : Type κ} → Result A → (A → Result B) → Result B
ok a >>= f = f a
err e >>= f = err e

abbrev pub ◌>>◌ {ℓ κ} : {A : Type ℓ} {B : Type κ} → Result A → Result B → Result B
m >> k = m >>= λ _. k

-- `raise Code(...)` and `if test: raise ...`.
abbrev pub raise {ℓ} : {A : Type ℓ} → ErrorCode → List (String × Detail) → Result A
raise c d = err (record { code = c; details = d })

abbrev pub refuse : Bool → ErrorCode → List (String × Detail) → Result (Unit {0})
refuse true c d = raise c d
refuse false c d = ok tt

-- Inversion of a bind, for code whose parts stay shut.
pub >>=-eq-ok {ℓ κ} :
    {A : Type ℓ} {B : Type κ} (m : Result A) (f : A → Result B) (b : B)
    → (m >>= f) ≡ ok b
    → (a : A) × (m ≡ ok a) × (f a ≡ ok b)
>>=-eq-ok (ok a) f b h = (a, refl, h)
>>=-eq-ok (err e) f b h = absurd (ground arith)

-- Whether a call raised.
abbrev pub is_err {ℓ} : {A : Type ℓ} → Result A → Bool
is_err (ok a) = false
is_err (err e) = true
