-- ===== src/Services/Cancelling/Reservation.antt =====
-- Who may cancel, and what a cancellation leaves of the fileset (services/cancel.py).
use stashd.Prelude.{◌≡◌, ◌↔◌, ◌⊎◌, Text, same_iff, Bool, true, false, arith}
use stashd.Domain.Errors.{ok}
use stashd.Domain.Filesets.{FilesetState, next_fileset_state, holds_allocation}
use stashd.Domain.Transfers.{is_terminal, can_cancel}
use stashd.Domain.Identity.{Principal}
use stashd.Models.{Fileset, Transfer}
use stashd.Session.Ledger.{weigh}
use stashd.Services.Releases.Reservation.{on_storage}
use stashd.Services.Cancelling.{check_cancel, leave_failed}

-- A cancellation is allowed exactly to the transfer's user and to an admin, and while the transfer
-- is not at its end.
pub check_cancel_iff :
    (actor : Principal) (is_admin : Bool) (t : Transfer)
    → (check_cancel actor is_admin t ≡ ok tt)
      ↔ (((t.user ≡ actor.username) ⊎ (is_admin ≡ true)) × (is_terminal t.state ≡ false))
unfolding check_cancel can_cancel
check_cancel_iff actor is_admin t =
    let i = same_iff t.user actor.username in (λ h. ground arith, λ h. ground arith)

-- A cancelled transfer leaves its fileset failed, or released as it was; its bytes stay reserved
-- on every storage, and the fileset keeps its id.
pub leave_failed-Reserved :
    (t : Transfer) (old new : Fileset) (st : Text)
    → leave_failed t old ≡ ok new
    → (new.id ≡ old.id)
      × ((new.state ≡ FilesetState.failed)
          ⊎ ((new.state ≡ FilesetState.released) × (old.state ≡ FilesetState.released)))
      × (weigh (on_storage st) new ≡ weigh (on_storage st) old)
unfolding leave_failed next_fileset_state holds_allocation
leave_failed-Reserved t old new st h = ground arith
