-- ===== src/Services/Scheduler.antt =====
-- scheduler/loop.py: one pass of the scheduler.
pub mod Requests
use stashd.Prelude.{
  ℕ, ◌+◌, Text, same, codes, Bool, true, false, not, ◌&&◌, ◌||◌, List, [], ◌∷◌, ◌++◌, map, select,
  find_first, ltb, leb, ◌==◌, Option, none, some, if◌then◌else◌,
}
use stashd.Domain.Errors.{ErrorCode, num, text, Result, ok, err, raise}
use stashd.Domain.Errors
use stashd.Domain.Floats.{FloatOps}
use stashd.Domain.Transfers.{
  TransferKind, TransferState, is_state, is_flush, is_warm, moves_data, next_transfer_state,
}
use stashd.Domain.Routes.{Route, Channel, split_route, channel_for}
use stashd.Domain.Scheduling.{
  QueuedTransfer, Load, Dispatch, Counts, bump, bump_all, storages, plan_dispatch,
}
use stashd.Domain.Priority.{order_queue}
use stashd.Config.{ClusterConfig, daemon_for}
use stashd.Models.{Fileset, Transfer, Db}
use stashd.Session.{Session, Exec, ◌>>=◌, ◌>>◌, pure, lift, reads, writes, commit}
use stashd.Session.Rows.{get_fileset, put_transfer}
use stashd.Services.Accounting.{accounts_for}
use stashd.Services.Releases.{Owner}
use stashd.Services.Dispatching.{TransferEndpoint, StartRequest, StartedTask, TransferDispatcher}
use stashd.Services.Admitting.{drained_storages}
use stashd.Services.Flushing.{relative_path}

-- A retry waits out its backoff first.
unfoldable pub is_waiting : ℕ → Transfer → Bool
is_waiting now t =
    is_state t.state TransferState.submitted
    && elim t.retry_after [ none ↦ true | some after ↦ leb after now ]

-- `_waiting`: rows are kept in the order of their ids.
unfoldable pub waiting : ℕ → Db → List Transfer
unfolding is_waiting
waiting now db = select (is_waiting now) db.transfers

-- `_queued`; a route with no arrow raises ValueError.
unfoldable pub queued : Transfer → Result QueuedTransfer
queued t = elim (split_route t.route) [
  | none ↦ raise ErrorCode.internal []
  | some (source, target) ↦ ok (record {
    id = t.id;
    user = t.user;
    kind = t.kind;
    route = record { source = source; target = target };
    bytes_total = t.bytes_total;
    submitted_at = t.submitted_at;
  })
]

unfoldable pub all_queued : List Transfer → Result (List QueuedTransfer)
unfolding queued
all_queued [] = ok []
all_queued (t ∷ ts) =
    let rest = all_queued ts in Errors.◌>>=◌ (queued t) λ q. Errors.◌>>=◌ rest λ qs. ok (q ∷ qs)

abbrev in_flight : Transfer → Bool
in_flight t = is_state t.state TransferState.assigned || is_state t.state TransferState.running

-- The body of the loop in `_load`.
unfoldable pub count : Load → Transfer → QueuedTransfer → Load
unfolding bump bump_all storages
count load t q = record {
  total = load.total + 1;
  per_user = bump load.per_user t.user;
  per_storage = bump_all load.per_storage (storages q);
  per_route = if moves_data t.kind then bump load.per_route t.route else load.per_route;
}

unfoldable pub count_all : Load → List Transfer → Result Load
unfolding queued count
count_all load [] = ok load
count_all load (t ∷ ts) = Errors.◌>>=◌ (queued t) λ q. count_all (count load t q) ts

abbrev idle : Load
idle = record { total = 0; per_storage = λ _. 0; per_user = λ _. 0; per_route = λ _. 0 }

unfoldable pub load_of : Db → Result Load
unfolding count_all
load_of db = count_all idle (select in_flight db.transfers)

-- `text.split(":", 1)[-1]`.
unfoldable pub after_colon : Text → Option Text
after_colon [] = none
after_colon (c ∷ t) = let rest = after_colon t in if c == b':' then some t else rest

abbrev or_whole : Text → Option Text → Text
or_whole t none = t
or_whole t (some rest) = rest

unfoldable pub peer_path : Option Text → Text
unfolding after_colon
peer_path none = []
peer_path (some t) = or_whole t (after_colon t)

-- `_endpoint`; a storage or a daemon that the config does not know raises KeyError.
unfoldable pub endpoint : ClusterConfig → Text → Text → Text → Owner → Result TransferEndpoint
endpoint cluster source target path owner = elim (daemon_for cluster source) [
  | none ↦ raise ErrorCode.internal []
  | some from ↦ (elim (daemon_for cluster target) [
    | none ↦ raise ErrorCode.internal []
    | some to ↦ (elim (channel_for from.id to.id) [
      | Channel.local ↦ ok (record { path = path; host = none; user = none })
      | Channel.ssh ↦ ok (record { path = path; host = some to.host; user = some owner.user })
    ])
  ])
]

-- `_is_refresh`.
unfoldable pub is_refresh : Fileset → Bool
is_refresh fileset = elim fileset.warm_finished_at [ none ↦ false | some at ↦ true ]

unfoldable pub deletes : Transfer → Fileset → Bool
unfolding is_refresh
deletes transfer fileset = is_warm transfer.kind && ltb 0 transfer.attempt && is_refresh fileset

abbrev owner_of : Fileset → Owner
owner_of fileset = record {
  user = fileset.owner_user;
  uid = fileset.owner_uid;
  gid = fileset.owner_gid;
}

abbrev request_for : Transfer → Fileset → Option ℕ → Text → TransferEndpoint → StartRequest
request_for transfer fileset bwlimit path at = record {
  transfer_id = transfer.id;
  source_path = path;
  owner = owner_of fileset;
  target = at;
  bwlimit_bytes_per_s = bwlimit;
  delete = deletes transfer fileset;
}

-- What `_start` asks of the daemon. `none` is the refusal of the probe of a flush's target.
unfoldable pub start_request :
    ClusterConfig
    → TransferDispatcher
    → Transfer
    → Fileset
    → Option ℕ
    → Text × Text
    → Result (Option StartRequest)
unfolding peer_path endpoint deletes relative_path
start_request cluster dispatcher transfer fileset bwlimit (source, target) =
    if is_flush transfer.kind
    then elim (dispatcher.probe target (owner_of fileset) (peer_path transfer.peer_ref)) [
      | err refusal ↦ ok none
      | ok resolved ↦
          Errors.◌>>=◌ (endpoint cluster source target resolved.path (owner_of fileset))
            (λ at. ok (some (request_for transfer fileset bwlimit (relative_path fileset) at)))
    ]
    else Errors.◌>>=◌ (endpoint cluster source fileset.storage_id fileset.path (owner_of fileset))
        (λ at. ok (some (request_for transfer fileset bwlimit (peer_path transfer.peer_ref) at)))

abbrev split_or_raise : Text → Result (Text × Text)
split_or_raise t = elim (split_route t) [ none ↦ raise ErrorCode.internal [] | some p ↦ ok p ]

-- The transfer once a daemon took it.
unfoldable pub handed_over : Transfer → StartedTask → Option ℕ → Result Transfer
handed_over transfer started bwlimit =
    Errors.◌>>=◌ (next_transfer_state transfer.state TransferState.assigned) λ state.
      ok (record transfer {
        state = state;
        executing_daemon_id = some started.daemon_id;
        task_id = some started.task_id;
        bwlimit_bytes_per_s = bwlimit;
      })

module _ (f : FloatOps) (cluster : ClusterConfig) (dispatcher : TransferDispatcher) (now : ℕ) where
  abbrev pub hand_over : Transfer → Option ℕ → Result StartedTask → Exec Bool
  hand_over transfer bwlimit (err refusal) = pure false
  hand_over transfer bwlimit (ok started) = do
    assigned ← lift (handed_over transfer started bwlimit)
    writes (put_transfer assigned)
    pure true

  abbrev pub ask : Transfer → Option ℕ → Text → Option StartRequest → Exec Bool
  ask transfer bwlimit source none = pure false
  ask transfer bwlimit source (some request) =
      hand_over transfer bwlimit (dispatcher.start source request)

  abbrev pub start_found : Transfer → Option ℕ → Option Fileset → Exec Bool
  start_found transfer bwlimit none = pure false
  start_found transfer bwlimit (some fileset) = do
    ends ← lift (split_or_raise transfer.route)
    request ← lift (start_request cluster dispatcher transfer fileset bwlimit ends)
    ask transfer bwlimit ends.0 request

  -- `_start`: a refusal leaves the transfer queued.
  unfoldable pub start : Transfer → Option ℕ → Exec Bool
  unfolding start_request handed_over
  start transfer bwlimit = do
    fileset ← reads (get_fileset transfer.fileset_id)
    start_found transfer bwlimit fileset

  -- One turn of the loop over the plan.
  unfoldable pub start_planned : Dispatch → Option Transfer → Exec Bool
  unfolding start
  start_planned dispatch none = lift (raise ErrorCode.internal [])
  start_planned dispatch (some transfer) =
      if moves_data transfer.kind then start transfer dispatch.bwlimit_bytes_per_s else pure false

  -- The loop over the plan.
  unfoldable pub start_all : List Transfer → List Dispatch → Exec (List Dispatch)
  unfolding start_planned
  start_all rows [] = pure []
  start_all rows (dispatch ∷ plan) =
      let rest = start_all rows plan in
      do
        started ← start_planned dispatch (find_first (λ t. t.id == dispatch.transfer_id) rows)
        others ← rest
        pure (if started then dispatch ∷ others else others)

  unfoldable pub plan_of : List Transfer → Db → Result (List Dispatch)
  unfolding all_queued load_of
  plan_of rows db = Errors.◌>>=◌ (all_queued rows) λ qs. Errors.◌>>=◌ (load_of db) λ load. ok (
      plan_dispatch
        (order_queue f cluster.half_life qs
          (accounts_for f now (map (λ (t : Transfer). t.user) rows) cluster.half_life db) now)
        load cluster.limits.concurrency cluster.limits.bandwidth (drained_storages db))

  -- What follows when something is waiting.
  unfoldable pub dispatch_waiting : List Transfer → Exec (List Dispatch)
  unfolding plan_of start_all
  dispatch_waiting [] = pure []
  dispatch_waiting (t ∷ ts) = do
    plan ← reads (plan_of (t ∷ ts))
    dispatches ← lift plan
    started ← start_all (t ∷ ts) dispatches
    commit
    pure started

  -- `schedule_once`; whether the advisory lock was taken is an argument.
  unfoldable pub schedule_once : Bool → Exec (List Dispatch)
  unfolding dispatch_waiting waiting
  schedule_once taken =
      if not taken then pure [] else do rows ← reads (waiting now); dispatch_waiting rows
