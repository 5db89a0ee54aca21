-- ===== src/Clients.antt =====
-- clients/filesets.py, clients/transfers.py and clients/usage.py: what the controller makes of a
-- daemon's answer, and the error envelope of api/errors.py in which the daemon sends a refusal. The
-- JSON text of a body is left out, and so are the URLs and the fields of the single requests.
pub mod Refusals
use stashd.Prelude.{
  ℕ, ◌==◌, Text, String, same, Bool, true, false, List, [], ◌∷◌, Option, none, some, find_first,
  leb, ltb, ◌&&◌, if◌then◌else◌,
}
use stashd.Domain.Errors.{
  ErrorCode, code_text, Detail, text, StashError, Result, ok, err, raise, ◌>>=◌,
}
use stashd.Config.{ClusterConfig, Daemon, daemon_for}
use stashd.Services.Releases.{Owner, FilesetLocation, FilesetStore}
use stashd.Services.Dispatching.{
  ProbeResult, TransferEndpoint, StartRequest, StartedTask, TaskReport, TransferDispatcher,
}
use stashd.Services.Usage.{Measured, Measurable, UsageSource}
use stashd.Api.Failures.{status_of}

-- `ErrorBody`, without its message and request id.
pub record ErrorBody : Type 0 where
  pub code : Text
  pub details : List (String × Detail)

-- An answer: none at all, a success with its body, or a failure, whose body may not be an envelope.
pub data Response (A : Type 0) : Type 0 where
  http_error : Response A
  success : A → Response A
  failure : ℕ → Option ErrorBody → Response A

-- The members of ErrorCode.
abbrev pub error_codes : List ErrorCode
error_codes =
    ErrorCode.unauthenticated ∷ ErrorCode.forbidden ∷ ErrorCode.not_found
    ∷ ErrorCode.invalid_request ∷ ErrorCode.invalid_name ∷ ErrorCode.invalid_path
    ∷ ErrorCode.path_not_found ∷ ErrorCode.permission_denied ∷ ErrorCode.not_a_source_storage
    ∷ ErrorCode.not_a_cache_storage ∷ ErrorCode.fileset_exists ∷ ErrorCode.fileset_not_ready
    ∷ ErrorCode.source_mismatch ∷ ErrorCode.allocation_limit_exceeded
    ∷ ErrorCode.total_allocation_limit_exceeded ∷ ErrorCode.storage_full ∷ ErrorCode.over_allocation
    ∷ ErrorCode.too_many_filesets ∷ ErrorCode.too_many_queued ∷ ErrorCode.flush_target_required
    ∷ ErrorCode.conflict ∷ ErrorCode.storage_drained ∷ ErrorCode.daemon_unavailable
    ∷ ErrorCode.config_stale ∷ ErrorCode.internal ∷ []

-- `ErrorCode(code)`, and INTERNAL where it raises ValueError.
abbrev known_or_internal : Option ErrorCode → ErrorCode
known_or_internal none = ErrorCode.internal
known_or_internal (some code) = code

unfoldable pub error_code : Text → ErrorCode
unfolding same code_text
error_code t = known_or_internal (find_first (λ c. same (code_text c) t) error_codes)

unfoldable pub failure_from : Option ErrorBody → Text → Text → StashError
unfolding error_code
failure_from none daemon_id storage_id = record {
  code = ErrorCode.daemon_unavailable;
  details = ("daemon", text daemon_id) ∷ ("storage", text storage_id) ∷ [];
}
failure_from (some body) daemon_id storage_id = record {
  code = error_code body.code;
  details = body.details;
}

module _ {A : Type 0} where
  -- `_request`, once the daemon has answered.
  unfoldable pub received : Text → Text → Response A → Result A
  unfolding failure_from
  received daemon_id storage_id http_error =
      raise ErrorCode.daemon_unavailable
        (("daemon", text daemon_id) ∷ ("storage", text storage_id) ∷ [])
  received daemon_id storage_id (success body) = ok body
  received daemon_id storage_id (failure status body) = err (failure_from body daemon_id storage_id)

  -- `_domain_error` and `envelope`: what a handler returns or raises, as an answer.
  unfoldable pub envelope : Result A → Response A
  unfolding status_of code_text
  envelope (ok body) = success body
  envelope (err e) =
      failure (status_of e.code) (some (record { code = code_text e.code; details = e.details }))

-- A row of the answer set in the dict of those before it.
unfoldable pub put_measured : ℕ → Measured → List (ℕ × Measured) → List (ℕ × Measured)
put_measured id u [] = (id, u) ∷ []
put_measured id u ((i, v) ∷ more) =
    let rest = put_measured id u more in if i == id then (i, u) ∷ more else (i, v) ∷ rest

unfoldable pub measured_rows : List (ℕ × Measured) → List (ℕ × Measured) → List (ℕ × Measured)
unfolding put_measured
measured_rows found [] = found
measured_rows found ((id, u) ∷ rows) = measured_rows (put_measured id u found) rows

-- Any answer but a success is an HTTPError, and the daemon's own refusal is not read.
unfoldable pub usage_received : Text → Response (List (ℕ × Measured)) → Result (List (ℕ × Measured))
unfolding measured_rows
usage_received daemon_id http_error =
    raise ErrorCode.daemon_unavailable (("daemon", text daemon_id) ∷ [])
usage_received daemon_id (failure status body) =
    raise ErrorCode.daemon_unavailable (("daemon", text daemon_id) ∷ [])
usage_received daemon_id (success rows) = ok (measured_rows [] rows)
