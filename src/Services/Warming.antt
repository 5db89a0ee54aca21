-- ===== src/Services/Warming.antt =====
-- services/warm.py: submitting a warm.
pub mod Submitting
use stashd.Prelude.{
  ℕ, ◌+◌, ◌-◌, max, Text, digits_of, same, codes, Bool, true, false, not, ◌&&◌, ◌||◌, List, [], ◌∷◌,
  ◌++◌, select, sum_of, length, ltb, leb, Option, none, some, if◌then◌else◌,
}
use stashd.Prelude.Int.{pos}
use stashd.Domain.Errors.{ErrorCode, StashError, Detail, num, text, Result, ok, err, raise, refuse}
use stashd.Domain.Errors
use stashd.Domain.Floats.{FloatOps}
use stashd.Domain.Allocation.{AllocationRequest, admit, allocation_for_source}
use stashd.Domain.References.{validate_fileset_name}
use stashd.Domain.Filesets.{FilesetKind, FilesetState, is_state, is_output, next_fileset_state}
use stashd.Domain.Transfers.{TransferKind, TransferState}
use stashd.Domain.Transfers
use stashd.Domain.Routes.{Route, route_text, throughput_for, estimate}
use stashd.Domain.Fairshare.{points_for_bytes}
use stashd.Domain.Identity.{Principal}
use stashd.Config.{ClusterConfig, Storage, source, storage, has_role}
use stashd.Models.{Fileset, Transfer, Db}
use stashd.Session.{Session, Exec, ◌>>=◌, ◌>>◌, pure, lift, reads, writes, commit}
use stashd.Session.Rows.{put_fileset, add_fileset, add_transfer}
use stashd.Services.Accounting.{record_event, charge}
use stashd.Services.Releases.{Owner, live_fileset}
use stashd.Services.Dispatching.{ProbeResult, TransferDispatcher}
use stashd.Services.Admitting.{admission_state, cache_storage, audited_refusal}
use stashd.Services.Filesets.{reference}

pub record Preflight : Type 0 where
  pub source_reference : Text
  pub target_reference : Text
  pub path : Text
  pub route : Route
  pub bytes_total : ℕ
  pub file_count : ℕ
  pub allocation_bytes : ℕ
  pub refresh : Bool
  pub queued_ahead_bytes : ℕ

unfoldable pub source_storage : ClusterConfig → Text → Result Storage
source_storage cluster storage_id = elim (storage cluster storage_id) [
  | none ↦ raise ErrorCode.not_found (("storage", text storage_id) ∷ [])
  | some s ↦
      (if has_role s source
        then ok s
        else raise ErrorCode.not_a_source_storage (("storage", text storage_id) ∷ []))
]

abbrev pub text_or_none : Option Text → Text
text_or_none none = codes "None"
text_or_none (some t) = t

-- `_check_refresh`: only a cached fileset of the same source is filled again, and only when asked.
unfoldable pub check_refresh : Fileset → Text → Bool → Text → Text → Result (Unit {0})
unfolding same
check_refresh existing source_reference refresh storage_id name =
    let current =
      reference (text_or_none existing.source_storage_id) (text_or_none existing.source_path) in
    let named = ("storage", text storage_id) ∷ ("name", text name) ∷ [] in
    if is_output existing.kind
    then raise ErrorCode.fileset_exists named
    else if not (same current source_reference)
    then raise ErrorCode.source_mismatch (named ++ (("source", text current) ∷ []))
    else if not refresh
    then raise ErrorCode.conflict named
    else if is_state existing.state FilesetState.populating
    then raise ErrorCode.conflict (("storage", text storage_id) ∷ [])
    else ok tt

abbrev check_existing : Option Fileset → Text → Bool → Text → Text → Result (Unit {0})
check_existing none r b s n = ok tt
check_existing (some fileset) r b s n = check_refresh fileset r b s n

unfoldable pub queued_ahead : Route → Db → ℕ
unfolding same
queued_ahead route db =
    sum_of (λ t. t.bytes_total)
      (select
        (λ t. same t.route (route_text route) && Transfers.is_state t.state TransferState.submitted)
        db.transfers)

unfoldable pub queued_of : Text → Db → ℕ
unfolding same
queued_of user db = length (
    select
      (λ t.
        same t.user user
        && (Transfers.is_state t.state TransferState.submitted
            || Transfers.is_state t.state TransferState.assigned))
      db.transfers)

unfoldable pub check_queue_length : ClusterConfig → Text → Db → Result (Unit {0})
unfolding queued_of
check_queue_length cluster user db =
    refuse (leb cluster.limits.queued_transfers_per_user (queued_of user db))
      ErrorCode.too_many_queued
      (("queued", num (queued_of user db))
        ∷ ("limit", num cluster.limits.queued_transfers_per_user)
        ∷ [])

unfoldable pub eta : FloatOps → ClusterConfig → Route → ℕ → ℕ → ℕ × ℕ
eta f cluster route bytes_total queued_ahead_bytes =
    estimate f bytes_total queued_ahead_bytes
      (throughput_for route cluster.nominal_throughput.default cluster.nominal_throughput.routes)

abbrev path_or_empty : Option Fileset → Text
path_or_empty none = []
path_or_empty (some fileset) = fileset.path

abbrev is_some {ℓ} : {A : Type ℓ} → Option A → Bool
is_some none = false
is_some (some a) = true

abbrev pub allocated_or_zero : Option Fileset → ℕ
allocated_or_zero none = 0
allocated_or_zero (some fileset) = fileset.allocated_bytes

unfoldable pub readable_source : Text → Text → ProbeResult → Result (Unit {0})
readable_source storage_id path probe =
    let named = ("storage", text storage_id) ∷ ("path", text path) ∷ [] in
    if not probe.exists
    then raise ErrorCode.path_not_found named
    else if not probe.readable
    then raise ErrorCode.permission_denied named
    else ok tt
