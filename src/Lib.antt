-- ===== src/Lib.antt =====
-- stashd moves data between a cluster's storages and keeps filesets on its caches. A controller
-- holds the state in a database, admits requests, schedules transfers and asks the daemons that own
-- the storages to run them; the daemons report back in events. This library models the controller
-- and the daemons' transfer engine, task runner and storage driver.
--
-- The parts, and the files that model them (paths from the repository's root):
-- Prelude: the names that all modules share, and texts, lists, tests and integers.
-- Domain: the rules of src/stashd/domain/, one module per file there. Allocation decides on
--   requests for bytes, Scheduling plans which queued transfers start, Priority orders the queue,
--   Fairshare decays and charges points, Routes and References print and parse, Filesets and
--   Transfers are the two state machines, Identity is the admin rule, Errors the wire codes. Their
--   child modules prove what the rules guarantee. Units reads the sizes, rates and durations of the
--   config.
-- Config: the values of src/stashd/config/cluster.py that the controller reads, its lookups, and
--   (Checks) the problems for which _check_cross_references refuses a config. Distribution is
--   src/stashd/config/distribution.py, reload.py and clients/config.py: how a config is reloaded,
--   fetched, cached and refreshed. Modes is the check of a fileset's mode.
-- Paths: what drivers/posix.py and the config use of Python's pathlib.
-- Models: the rows of src/stashd/models/ as records, and the database as the list of each table.
-- Session: a SQLAlchemy session as the rows last committed and the rows as the session sees them.
--   A request is a function on sessions (Exec): `after` gives the rows that it leaves committed.
--   `commit` checks the table constraints of models/fileset.py and models/transfer.py (Rows). Keeps
--   and Leads are rules for invariants and for what holds after a return, Ledger, Keys and Profile
--   are about sums of reserved bytes and the ids of rows.
-- Services: src/stashd/services/ and src/stashd/scheduler/loop.py. Admitting (admission_state,
--   cache_storage), Filesets (create_output_fileset, resize_fileset), Warming (preflight,
--   submit_warm), Flushing, Cancelling (cancel_transfer), Releases (release_fileset,
--   perform_release), Events (apply_event), Scheduler (schedule_once), Reconciling (reconcile),
--   Limiting (set_limit, clear_limit, set_drained), Accounting (audit.record, fairshare.charge),
--   Usage (reconcile_storage), Retention (prune), Reports (the totals of usage_report, and in
--   Allocated the allocation report), Registering (services/daemons.py), Listing (list_transfers of
--   services/transfers.py with its cursors). Unattended proves what those that the controller runs
--   by itself keep. Lineage is about histories of reports, cancellations and releases, and the
--   allocation of a fileset.
-- Daemon: Output and Rsync (src/stashd/engines/rsync.py), Driver (src/stashd/drivers/posix.py, on
--   an abstract file system), Runner (src/stashd/tasks/threaded.py and the numbering of reports in
--   src/stashd/clients/events.py) as a list of actions of its threads in any order, Requests
--   (src/stashd/api/internal/tasks.py and filesets.py, src/stashd/tasks/execute.py), Starting
--   (src/stashd/drivers/factory.py).
-- Clients: src/stashd/clients/filesets.py, transfers.py, usage.py and the error envelope of
--   src/stashd/api/errors.py: how a daemon's answer becomes a value or a refusal of the controller;
--   the JSON text, the URLs and the fields of the single requests are left out.
-- Api: Access (src/stashd/api/deps.py and src/stashd/auth/), Transfers
--   (src/stashd/api/public/transfers.py and src/stashd/schemas/transfers.py: submit_transfer, _warm
--   as warm_of, _flush as flush_of, cancel_transfer), Allocations and Limits
--   (src/stashd/api/public/allocations.py), Failures (the statuses of src/stashd/api/errors.py),
--   Filesets and Topology (the modules of that name in src/stashd/api/public/), Running (the part
--   of src/stashd/api/app.py through which the config reaches a process, with the route that serves
--   it; Following is a controller and a daemon side by side, as a list of reloads and refreshes),
--   Passes (the passes of its loops).
-- Examples: a small cluster, and each theorem applied to it.
--
-- A request reads the configuration and the rows, decides by the domain rules, writes and commits;
-- it calls a daemon between two commits. What a daemon answers is an argument: FilesetStore and
-- TransferDispatcher are records of functions, as clients/filesets.py and clients/transfers.py
-- declare them, and a call that changes a daemon's state shows as the answer that the request gets.
--
-- Numbers are natural numbers, as Python's int has no bound; a value that may be negative is a
-- Prelude.Int.ℤ. Times are microseconds. Texts are lists of code points. Python's floats are an
-- argument (Domain.Floats; in Services.Reports the addition of whole numbers that are floats). Loops run over lists; three counts are fuel, one more than a number for
-- its decimal digits, and the length of a text for the parts of a duration, each of which takes a
-- character at least, and for a client that asks for page after page one more than the number of
-- transfers, since each page but the last leaves fewer.
--
-- Not modelled: the HTTP routes that only pass their arguments on, and serialisation; the MUNGE
-- decoder and the user database, which are arguments; sending HTTP requests; the waits of the loops
-- of src/stashd/api/app.py, its lifespan and its wiring; src/stashd/cli.py and the bootstrap
-- config; reading YAML and what pydantic checks of one field but a fileset's mode; starting and
-- killing processes; failures of the config cache's file; the waits and rates of the usage report;
-- logging, metrics and health; the texts of messages; the drivers, engines and runners for tests.
-- Requests run one after another: the advisory locks and the isolation of concurrent sessions are
-- left out, except that the scheduler's lock may be taken.
pub mod Prelude
pub mod Domain
pub mod Config
pub mod Models
pub mod Api
pub mod Session
pub mod Services
pub mod Daemon
pub mod Clients
pub mod Paths
pub mod Examples
