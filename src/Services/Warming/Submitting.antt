-- ===== src/Services/Warming/Submitting.antt =====
-- `preflight` and `submit_warm` of services/warm.py.
use stashd.Prelude.{
  ℕ, ◌-◌, max, Text, digits_of, Bool, false, [], ◌∷◌, ltb, Option, none, some, if◌then◌else◌,
}
use stashd.Prelude.Int.{pos}
use stashd.Domain.Errors.{ErrorCode, StashError, Detail, text, Result, ok, err, raise}
use stashd.Domain.Errors
use stashd.Domain.Floats.{FloatOps}
use stashd.Domain.Allocation.{admit, allocation_for_source}
use stashd.Domain.References.{validate_fileset_name}
use stashd.Domain.Filesets.{FilesetKind, FilesetState, is_state, next_fileset_state}
use stashd.Domain.Transfers.{TransferKind, TransferState}
use stashd.Domain.Routes.{Route, route_text}
use stashd.Domain.Fairshare.{points_for_bytes}
use stashd.Domain.Identity.{Principal}
use stashd.Config.{ClusterConfig, Storage, storage}
use stashd.Models.{Fileset, Transfer, Db}
use stashd.Session.{Exec, ◌>>=◌, ◌>>◌, pure, lift, reads, writes, commit}
use stashd.Session.Rows.{put_fileset, add_fileset, add_transfer}
use stashd.Services.Accounting.{record_event, charge}
use stashd.Services.Releases.{Owner, live_fileset}
use stashd.Services.Dispatching.{TransferDispatcher}
use stashd.Services.Admitting.{admission_state, cache_storage, audited_refusal}
use stashd.Services.Filesets.{reference}
use stashd.Services.Warming.{
  Preflight, source_storage, check_existing, queued_ahead, check_queue_length, path_or_empty,
  is_some, allocated_or_zero, readable_source,
}

unfoldable pub new_cached : ℕ → ℕ → Owner → Text → Text → Text → Text → ℕ → Fileset
new_cached id now owner storage_id name source_storage_id source_path allocation = record {
  id = id;
  name = name;
  owner_user = owner.user;
  owner_uid = owner.uid;
  owner_gid = owner.gid;
  storage_id = storage_id;
  kind = FilesetKind.cached;
  state = FilesetState.creating;
  path = [];
  allocated_bytes = allocation;
  used_bytes = 0;
  used_bytes_at = none;
  file_count = none;
  over_allocation = false;
  source_storage_id = some source_storage_id;
  source_path = some source_path;
  created_at = now;
  warm_started_at = none;
  warm_finished_at = none;
  last_flushed_at = none;
  last_flush_target = none;
  released_at = none;
  last_transfer_id = none;
}

unfoldable pub new_transfer : TransferKind → ℕ → ℕ → Text → ℕ → Text → Route → ℕ → Bool → Transfer
new_transfer kind id now user fileset_id peer_ref route bytes_total release_after = record {
  id = id;
  kind = kind;
  user = user;
  fileset_id = fileset_id;
  peer_ref = some peer_ref;
  state = TransferState.submitted;
  route = route_text route;
  bytes_total = bytes_total;
  bytes_done = 0;
  files_done = none;
  executing_daemon_id = none;
  bwlimit_bytes_per_s = none;
  attempt = 1;
  last_sequence = 0;
  task_id = none;
  retry_after = none;
  release_after = release_after;
  error_code = none;
  submitted_at = now;
  started_at = none;
  finished_at = none;
}

module _ (f : FloatOps) (cluster : ClusterConfig) (now : ℕ) where
  unfoldable pub preflight :
      TransferDispatcher → Owner → Text → Text → Text → Text → Option ℕ → Bool → Exec Preflight
  unfolding source_storage cache_storage readable_source live_fileset queued_ahead
  preflight dispatcher owner source_id source_path target_id name size_bytes refresh = do
    lift (source_storage cluster source_id)
    lift (cache_storage cluster target_id)
    lift (validate_fileset_name name)
    probe ← lift (dispatcher.probe source_id owner source_path)
    lift (readable_source source_id source_path probe)
    existing ← reads (live_fileset owner.user target_id name)
    let from = reference source_id source_path
    lift (check_existing existing from refresh target_id name)
    let route : Route = record { source = source_id; target = target_id }
    ahead ← reads (queued_ahead route)
    pure (record {
      source_reference = from;
      target_reference = reference target_id name;
      path = path_or_empty existing;
      route = route;
      bytes_total = probe.bytes_total;
      file_count = probe.file_count;
      allocation_bytes =
          allocation_for_source f probe.bytes_total cluster.allocation_headroom size_bytes;
      refresh = is_some existing;
      queued_ahead_bytes = ahead;
    })

  abbrev admit_more : Owner → ℕ → Db → Option Storage → Result (Unit {0})
  admit_more owner more db none = raise ErrorCode.internal []
  admit_more owner more db (some s) =
      admit f (record { user = owner.user; storage_id = s.id; requested_bytes = pos more })
        (admission_state cluster owner.user s db)

  -- The decision under the user's lock: only what is not reserved yet is admitted.
  unfoldable pub decide_warm : Owner → Text → Text → ℕ → Db → Result (Option Fileset)
  unfolding check_queue_length live_fileset admission_state
  decide_warm owner target_id name allocation_bytes db =
      let existing = live_fileset owner.user target_id name db in
      let already = allocated_or_zero existing in
      Errors.◌>>◌ (check_queue_length cluster owner.user db) (
        Errors.◌>>◌
          (if ltb already allocation_bytes
            then admit_more owner (allocation_bytes - already) db (storage cluster target_id)
            else ok tt)
          (ok existing))

  -- `existing or Fileset(...)`, with the larger of the two reservations.
  abbrev reserve_row : Option Fileset → Fileset → Exec Fileset
  reserve_row none made = do
    let fresh = record made { warm_started_at = some now }
    writes (add_fileset fresh)
    pure fresh
  reserve_row (some fileset) made = do
    let grown = record fileset {
      allocated_bytes = max fileset.allocated_bytes made.allocated_bytes;
      warm_started_at = some now;
    }
    writes (put_fileset grown)
    pure grown

  abbrev ready_first : FilesetState → Result FilesetState
  ready_first state =
      if is_state state FilesetState.creating
      then next_fileset_state state FilesetState.ready
      else ok state

  -- `_prepare_destination`: it runs after the commit, and an error of it is raised from there.
  unfoldable pub prepare_destination : TransferDispatcher → Owner → Fileset → Result Fileset
  prepare_destination dispatcher owner fileset =
      Errors.◌>>=◌
        (dispatcher.prepare fileset.storage_id owner fileset.name fileset.allocated_bytes)
        λ endpoint. Errors.◌>>=◌ (ready_first fileset.state) λ ready.
          Errors.◌>>=◌ (next_fileset_state ready FilesetState.populating)
            λ populating. ok (record fileset { path = endpoint.path; state = populating })

  unfoldable pub submit_warm :
      TransferDispatcher → Principal → Owner → Preflight → Text → Text → Text → Text → Exec Transfer
  unfolding decide_warm new_cached new_transfer prepare_destination record_event charge
  submit_warm dispatcher actor owner plan source_id source_path target_id name = do
    decision ← reads (decide_warm owner target_id name plan.allocation_bytes)
    existing ←
        audited_refusal
          (λ refusal.
            record_event now actor owner.user "transfer" plan.target_reference "warm"
              (some refusal.code) refusal.details)
          decision
    fileset_id ← reads (λ db. db.next_fileset)
    fileset ←
        reserve_row existing (
          new_cached fileset_id now owner target_id name source_id source_path
            plan.allocation_bytes)
    transfer_id ← reads (λ db. db.next_transfer)
    let transfer =
        new_transfer TransferKind.warm transfer_id now owner.user fileset.id plan.source_reference
          plan.route plan.bytes_total false
    writes (add_transfer transfer)
    commit
    prepared ← lift (prepare_destination dispatcher owner fileset)
    writes (put_fileset prepared)
    charge f now owner.user
        (points_for_bytes f TransferKind.warm plan.bytes_total cluster.points_per_gib)
        cluster.half_life
    record_event now actor owner.user "transfer" (digits_of transfer.id) "warm" none
        (("source", text plan.source_reference) ∷ ("target", text plan.target_reference) ∷ [])
    commit
    pure transfer
