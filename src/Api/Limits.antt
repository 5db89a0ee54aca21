-- ===== src/Api/Limits.antt =====
-- api/public/allocations.py: setting and clearing a user's limits. The reads are left out.
use stashd.Prelude.{ℕ, Text, ◌≡◌, false, not, [], ◌∷◌, Option, none, some, arith}
use stashd.Domain.Errors.{ErrorCode, text, Result, err, refuse}
use stashd.Domain.Errors
use stashd.Domain.Identity.{Principal}
use stashd.Config.{ClusterConfig}
use stashd.Models.{UserLimit}
use stashd.Session.{Session, Exec, ◌>>◌, lift}
use stashd.Services.Releases.{Owner}
use stashd.Services.Limiting.{set_limit, clear_limit}
use stashd.Api.Access.{owner_for, caller_is_admin}
use stashd.Api.Transfers.Guarded.{refusal, lift-stops}

module _ (cluster : ClusterConfig) (now : ℕ) (by_name : Text → Result Owner)
    (caller : Principal) where
  -- Writing a limit is admin-only, and the user has to exist.
  unfoldable admin_for : Text → Result Owner
  unfolding caller_is_admin owner_for
  admin_for user =
      Errors.◌>>◌
        (refuse (not (caller_is_admin caller cluster)) ErrorCode.forbidden
          (("user", text user) ∷ []))
        (owner_for caller user by_name)

  -- `_set` and `_clear`.
  unfoldable set : Text → Option Text → ℕ → Exec UserLimit
  unfolding admin_for set_limit
  set user storage_id allocation_limit_bytes =
      lift (admin_for user) >> set_limit cluster now caller user storage_id allocation_limit_bytes

  unfoldable clear : Text → Option Text → Exec (Unit {0})
  unfolding admin_for clear_limit
  clear user storage_id = lift (admin_for user) >> clear_limit cluster now caller user storage_id

  unfoldable set_total_limit : Text → ℕ → Exec UserLimit
  unfolding set
  set_total_limit user allocation_limit_bytes = set user none allocation_limit_bytes

  unfoldable set_storage_limit : Text → Text → ℕ → Exec UserLimit
  unfolding set
  set_storage_limit user storage_id allocation_limit_bytes =
      set user (some storage_id) allocation_limit_bytes

  unfoldable clear_total_limit : Text → Exec (Unit {0})
  unfolding clear
  clear_total_limit user = clear user none

  unfoldable clear_storage_limit : Text → Text → Exec (Unit {0})
  unfolding clear
  clear_storage_limit user storage_id = clear user (some storage_id)

  -- A caller who is no admin changes no limit, not even an own one.
  limits-refused :
      (user : Text) (storage_id : Option Text) (bytes : ℕ) (s : Session)
      → caller_is_admin caller cluster ≡ false
      → (set user storage_id bytes s ≡ (err (refusal user), s))
        × (clear user storage_id s ≡ (err (refusal user), s))
  unfolding set clear admin_for
  limits-refused user storage_id bytes s plain = (
    lift-stops (admin_for user) (refusal user) _ s (ground arith),
    lift-stops (admin_for user) (refusal user) _ s (ground arith),
  )
