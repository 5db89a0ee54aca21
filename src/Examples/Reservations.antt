-- ===== src/Examples/Reservations.antt =====
-- The theorems on reserved bytes and limits at work on concrete requests.
use stashd.Prelude.{◌≡◌, refl, codes, false, some, inr}
use stashd.Session.{after}
use stashd.Services.Admitting.{storage_allocated}
use stashd.Services.Events.{apply_event}
use stashd.Services.Events.Reservation.{apply_event-keeps-storage_allocated}
use stashd.Services.Cancelling.{cancel_transfer}
use stashd.Services.Cancelling.Request.{cancel_transfer-keeps-storage_allocated}
use stashd.Examples.{hundredths, cluster, ada, db, store, broken}

apply_event-keeps-storage_allocated_example :
    storage_allocated
      (codes "NVME")
      (after (apply_event cluster 20 hundredths (some store) broken) db)
    ≡ storage_allocated (codes "NVME") db
apply_event-keeps-storage_allocated_example =
    apply_event-keeps-storage_allocated cluster 20 hundredths (some store) broken (codes "NVME") db
      (inr refl) (tt, tt)

cancel_transfer-keeps-storage_allocated_example :
    storage_allocated (codes "NVME") (after (cancel_transfer hundredths cluster 20 ada false 1) db)
    ≡ storage_allocated (codes "NVME") db
cancel_transfer-keeps-storage_allocated_example =
    cancel_transfer-keeps-storage_allocated hundredths cluster 20 ada false 1 (codes "NVME") db
      (tt, tt)
