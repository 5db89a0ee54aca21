-- ===== src/Examples/Domain.antt =====
-- The theorems on the domain rules at work on concrete values.
use stashd.Prelude.{◌≡◌, ◌↔◌, refl, arith, codes, true, false, [], ◌∷◌}
use mathlib.Core.List.{Perm}
use stashd.Prelude.Int.{pos}
use stashd.Domain.Errors.{ErrorCode, StashError, text, ok}
use stashd.Domain.Allocation.{AllocationRequest, AllocationState, admit}
use stashd.Domain.Allocation.Admission.{Fits, admit_iff, Explains, admit-Explains}
use stashd.Domain.Scheduling.{walk}
use stashd.Domain.Scheduling.Limits.{Within, walk-Within}
use stashd.Domain.Scheduling.Progress.{Planned, walk-Planned}
use stashd.Domain.References.{
  Reference, validate_storage_id, parse_reference, reference_text, validate_storage_path,
}
use stashd.Domain.References.Paths.{Accepted, validate_storage_path-Accepted}
use stashd.Domain.References.Parsing.{Valid, Written, parse_reference-Valid}
use stashd.Domain.Fairshare.{FairShareAccount}
use stashd.Domain.Priority.{order_queue}
use stashd.Domain.Priority.Order.{InOrder, Comparisons, order_queue-InOrder}
use stashd.Examples.{hundredths, concurrency, bandwidth, queued_warm, later_warm, idle}

abbrev request : AllocationRequest
request = record { user = codes "ada"; storage_id = codes "NVME"; requested_bytes = pos 400 }

abbrev busy : AllocationState
busy = record {
  user_allocated_on_storage = 300;
  user_limit_on_storage = 800;
  user_allocated_on_caches = 300;
  user_total_limit = 900;
  storage_allocated = 600;
  storage_capacity_bytes = 1000;
  fill_limit = 90;
  user_fileset_count = 1;
  max_filesets_per_user = 4;
  over_allocation_filesets = [];
  storage_drained = false;
}

abbrev account : FairShareAccount
account = record { user = codes "ada"; points = 500; decayed_at = 3 }

walk-Within_example :
    Within concurrency bandwidth [] idle
      (walk (queued_warm ∷ later_warm ∷ []) idle concurrency bandwidth []).0
walk-Within_example = walk-Within concurrency bandwidth [] (queued_warm ∷ later_warm ∷ []) idle

walk-Planned_example :
    let (plan, end) = walk (queued_warm ∷ later_warm ∷ []) idle concurrency bandwidth [] in
    Planned end concurrency bandwidth [] (queued_warm ∷ later_warm ∷ []) plan
walk-Planned_example = walk-Planned concurrency bandwidth [] (queued_warm ∷ later_warm ∷ []) idle

admit_iff_example : (admit hundredths request busy ≡ ok tt) ↔ Fits hundredths 400 busy
admit_iff_example = admit_iff hundredths request busy 400 refl

-- The request at a storage that is drained.
abbrev drained : StashError
drained = record {
  code = ErrorCode.storage_drained;
  details = ("storage", text (codes "NVME")) ∷ [];
}

admit-Explains_example :
    Explains hundredths (pos 400) (record busy { storage_drained = true }) ErrorCode.storage_drained
unfolding admit
admit-Explains_example =
    admit-Explains hundredths request (record busy { storage_drained = true }) drained refl

parse_reference-Valid_example :
    Valid (Reference.path_ref (record { storage = codes "ARCHIVE"; path = codes "/raw" }))
    × Written
        (codes "ARCHIVE:/raw/")
        (Reference.path_ref (record { storage = codes "ARCHIVE"; path = codes "/raw" }))
    × (parse_reference (
          reference_text
            (Reference.path_ref (record { storage = codes "ARCHIVE"; path = codes "/raw" })))
        ≡ ok (Reference.path_ref (record { storage = codes "ARCHIVE"; path = codes "/raw" })))
unfolding parse_reference validate_storage_id validate_storage_path
parse_reference-Valid_example =
    parse_reference-Valid (codes "ARCHIVE:/raw/")
      (Reference.path_ref (record { storage = codes "ARCHIVE"; path = codes "/raw" })) refl

validate_storage_path-Accepted_example :
    Accepted (codes "ARCHIVE") (codes "/raw/one/") (codes "/raw/one")
unfolding validate_storage_path
validate_storage_path-Accepted_example =
    validate_storage_path-Accepted (codes "ARCHIVE") (codes "/raw/one/") (codes "/raw/one") refl

hundredths-Comparisons : Comparisons hundredths
hundredths-Comparisons = record { eq_symm = λ a b. ground arith; lt_asymm = λ a b h. ground arith }

order_queue-InOrder_example :
    Perm
      (order_queue hundredths 1000 (queued_warm ∷ later_warm ∷ []) (account ∷ []) 9)
      (queued_warm ∷ later_warm ∷ [])
    × InOrder hundredths 1000
        (account ∷ [])
        9
        (order_queue hundredths 1000 (queued_warm ∷ later_warm ∷ []) (account ∷ []) 9)
order_queue-InOrder_example =
    order_queue-InOrder hundredths 1000 (account ∷ []) 9 (queued_warm ∷ later_warm ∷ [])
      hundredths-Comparisons
