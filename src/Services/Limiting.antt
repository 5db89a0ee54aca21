-- ===== src/Services/Limiting.antt =====
-- services/limits.py and services/drain.py: the runtime settings that an admin changes.
pub mod Lookup
use stashd.Prelude.{
  ℕ, Text, same, codes, Bool, true, false, not, ◌&&◌, List, [], ◌∷◌, ◌++◌, map, any, select, Option,
  none, some, if◌then◌else◌,
}
use stashd.Domain.Errors.{ErrorCode, num, text, Result, ok, raise}
use stashd.Domain.Identity.{Principal}
use stashd.Config.{ClusterConfig, storage}
use stashd.Models.{UserLimit, StorageState}
use stashd.Session.{Exec, ◌>>=◌, ◌>>◌, pure, lift, reads, writes, commit}
use stashd.Services.Admitting.{limit_matches}
use stashd.Services.Accounting.{record_event}

unfoldable pub known_storage : ClusterConfig → Text → Result (Unit {0})
unfolding storage
known_storage cluster storage_id = elim (storage cluster storage_id) [
  | none ↦ raise ErrorCode.not_found (("storage", text storage_id) ∷ [])
  | some s ↦ ok tt
]

-- `_check_storage`.
abbrev check_storage : ClusterConfig → Option Text → Result (Unit {0})
check_storage cluster none = ok tt
check_storage cluster (some storage_id) = known_storage cluster storage_id

-- The row that `_find` selects.
unfoldable pub is_limit_of : Text → Option Text → UserLimit → Bool
unfolding same
is_limit_of user storage_id l = same l.user user && limit_matches l.storage_id storage_id

-- A row changed where it is found, or added after the others.
unfoldable pub put_limit : UserLimit → List UserLimit → List UserLimit
unfolding is_limit_of
put_limit limit rows =
    if any (is_limit_of limit.user limit.storage_id) rows
    then map (λ l. if is_limit_of limit.user limit.storage_id l then limit else l) rows
    else rows ++ (limit ∷ [])

unfoldable pub put_state : StorageState → List StorageState → List StorageState
unfolding same
put_state state rows =
    if any (λ s. same s.storage_id state.storage_id) rows
    then map (λ s. if same s.storage_id state.storage_id then state else s) rows
    else rows ++ (state ∷ [])

abbrev scope_text : Option Text → Text
scope_text none = codes "cluster"
scope_text (some []) = codes "cluster"
scope_text (some storage_id) = storage_id

module _ (cluster : ClusterConfig) (now : ℕ) where
  unfoldable pub set_limit : Principal → Text → Option Text → ℕ → Exec UserLimit
  unfolding known_storage put_limit record_event
  set_limit actor user storage_id bytes = do
    lift (check_storage cluster storage_id)
    let limit : UserLimit = record {
      user = user;
      storage_id = storage_id;
      allocation_limit_bytes = bytes;
    }
    writes (λ db. record db { limits = put_limit limit db.limits })
    record_event now actor user "limit" (scope_text storage_id) "set_limit" none
        (("allocation_limit_bytes", num bytes) ∷ [])
    commit
    pure limit

  unfoldable pub clear_limit : Principal → Text → Option Text → Exec (Unit {0})
  unfolding known_storage is_limit_of record_event
  clear_limit actor user storage_id = do
    lift (check_storage cluster storage_id)
    found ← reads (λ db. any (is_limit_of user storage_id) db.limits)
    (if found then pure tt else lift (raise ErrorCode.not_found (("user", text user) ∷ [])))
    writes
        (λ db. record db { limits = select (λ l. not (is_limit_of user storage_id l)) db.limits })
    record_event now actor user "limit" (scope_text storage_id) "clear_limit" none []
    commit

  unfoldable pub set_drained : Principal → Text → Bool → Exec Bool
  unfolding known_storage put_state record_event
  set_drained actor storage_id drained = do
    lift (known_storage cluster storage_id)
    writes (λ db. record db {
      storage_states =
          put_state (record { storage_id = storage_id; drained = drained }) db.storage_states;
    })
    record_event now actor actor.username "storage" storage_id
        (if drained then "drain" else "undrain") none []
    commit
    pure drained
