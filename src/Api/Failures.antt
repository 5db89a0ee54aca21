-- ===== src/Api/Failures.antt =====
-- api/errors.py: the status of each wire code, and the code of a status that the framework chose.
use stashd.Prelude.{ℕ, ◌||◌, if◌then◌else◌, ◌==◌}
use stashd.Domain.Errors.{ErrorCode}

-- `_STATUS[code]`.
unfoldable pub status_of : ErrorCode → ℕ
status_of ErrorCode.unauthenticated = 401
status_of ErrorCode.forbidden = 403
status_of ErrorCode.permission_denied = 403
status_of ErrorCode.not_found = 404
status_of ErrorCode.path_not_found = 404
status_of ErrorCode.invalid_request = 400
status_of ErrorCode.invalid_name = 400
status_of ErrorCode.invalid_path = 400
status_of ErrorCode.not_a_source_storage = 400
status_of ErrorCode.not_a_cache_storage = 400
status_of ErrorCode.flush_target_required = 400
status_of ErrorCode.conflict = 409
status_of ErrorCode.fileset_exists = 409
status_of ErrorCode.fileset_not_ready = 409
status_of ErrorCode.source_mismatch = 409
status_of ErrorCode.allocation_limit_exceeded = 409
status_of ErrorCode.total_allocation_limit_exceeded = 409
status_of ErrorCode.storage_full = 409
status_of ErrorCode.over_allocation = 409
status_of ErrorCode.too_many_filesets = 409
status_of ErrorCode.too_many_queued = 409
status_of ErrorCode.storage_drained = 503
status_of ErrorCode.daemon_unavailable = 503
status_of ErrorCode.config_stale = 503
status_of ErrorCode.internal = 500

-- `_BY_STATUS.get(status, ErrorCode.INTERNAL)`.
unfoldable pub code_by_status : ℕ → ErrorCode
code_by_status n =
    if n == 401
    then ErrorCode.unauthenticated
    else if n == 403
    then ErrorCode.forbidden
    else if n == 404 || n == 405
    then ErrorCode.not_found
    else if n == 409
    then ErrorCode.conflict
    else ErrorCode.internal
