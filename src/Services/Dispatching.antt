-- ===== src/Services/Dispatching.antt =====
-- clients/transfers.py: the transfer dispatcher as the controller's services see it. What a daemon
-- answers to a call is an argument; the HTTP client behind it is not modelled.
use stashd.Prelude.{ℕ, Text, Bool, Option}
use stashd.Domain.Errors.{Result}
use stashd.Services.Releases.{Owner}

pub record ProbeResult : Type 0 where
  pub path : Text
  pub exists : Bool
  pub is_dir : Bool
  pub readable : Bool
  pub writable : Bool
  pub bytes_total : ℕ
  pub file_count : ℕ
  pub complete : Bool

-- `engines.base.TransferEndpoint`.
pub record TransferEndpoint : Type 0 where
  pub path : Text
  pub host : Option Text
  pub user : Option Text

pub record StartedTask : Type 0 where
  pub task_id : Text
  pub daemon_id : Text

-- What `dispatcher.start` sends to the daemon of the source.
pub record StartRequest : Type 0 where
  pub transfer_id : ℕ
  pub source_path : Text
  pub owner : Owner
  pub target : TransferEndpoint
  pub bwlimit_bytes_per_s : Option ℕ
  pub delete : Bool

-- A task as its daemon reports it: `state` is the daemon's word for it.
pub record TaskReport : Type 0 where
  pub state : Text
  pub bytes_done : ℕ
  pub files_done : ℕ
  pub failure : Option Text

pub record TransferDispatcher : Type 0 where
  pub probe : Text → Owner → Text → Result ProbeResult
  pub prepare : Text → Owner → Text → ℕ → Result TransferEndpoint
  pub start : Text → StartRequest → Result StartedTask
  pub abort : Text → Text → Result (Unit {0})
  pub task_state : Text → Text → Result TaskReport
