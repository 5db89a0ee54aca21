-- ===== src/Daemon/Rsync.antt =====
-- engines/rsync.py and engines/base.py: the command of a transfer, what its end means, and the
-- handles of running and cancelled transfers. The process is an argument: what it printed, and how
-- it ended. `str.lower`, and `int(float(amount) * factor)`, are arguments too.
pub mod Endings
use stashd.Prelude.{
  ℕ, ◌+◌, ◌*◌, ◌/◌, Text, codes, String, digits_of, same, Bool, true, false, not, ◌&&◌, ◌||◌, List,
  [], ◌∷◌, ◌++◌, Option, none, some, any, select, find_first, if◌then◌else◌, ◌==◌, leb, ltb,
}
use stashd.Prelude.Int.{ℤ, pos, negsuc}
use stashd.Domain.Transfers.{FailureClass}
use stashd.Domain.Transfers
use stashd.Domain.Units.{int_of}
use stashd.Domain.References.{rstrip_slashes}
use stashd.Services.Releases.{Owner}
use stashd.Services.Dispatching.{TransferEndpoint}
use stashd.Daemon.Output.{updates, progress_match, search_amount, without_commas}

-- `TransferEndpoint.is_remote`.
abbrev pub is_remote : TransferEndpoint → Bool
is_remote e = elim e.host [ none ↦ false | some host ↦ true ]

-- `f"{self.user}@" if self.user else ""`.
abbrev account_of : Option Text → Text
account_of none = []
account_of (some []) = []
account_of (some (c ∷ user)) = (c ∷ user) ++ codes "@"

unfoldable pub as_argument : TransferEndpoint → Text
unfolding rstrip_slashes
as_argument e =
    let path = rstrip_slashes e.path ++ codes "/" in
    elim e.host [ none ↦ path | some host ↦ account_of e.user ++ (host ++ (codes ":" ++ path)) ]

-- Without `timeout_seconds`, which no caller sets.
pub record TransferOptions : Type 0 where
  pub bwlimit_bytes_per_s : Option ℕ
  pub delete : Bool

abbrev base_arguments : List Text
base_arguments =
    codes "-a" ∷ codes "--numeric-ids" ∷ codes "--partial" ∷ codes "--info=progress2,stats2" ∷ []

abbrev ssh_arguments : Bool → List Text
ssh_arguments true = codes "-e" ∷ codes "ssh -o BatchMode=yes" ∷ []
ssh_arguments false = []

abbrev bwlimit_arguments : Option ℕ → List Text
bwlimit_arguments none = []
bwlimit_arguments (some limit) = (codes "--bwlimit=" ++ digits_of (limit / 1024)) ∷ []

abbrev delete_arguments : Bool → List Text
delete_arguments true = codes "--delete" ∷ []
delete_arguments false = []

-- `RsyncEngine.command`; `wrap` is the identity's.
unfoldable pub command :
    (Owner → List Text → List Text)
    → Text
    → TransferEndpoint
    → TransferEndpoint
    → TransferOptions
    → Owner
    → List Text
unfolding as_argument
command wrap rsync source target options owner = wrap owner (
    rsync
    ∷ (base_arguments
        ++ (ssh_arguments (is_remote source || is_remote target)
            ++ (bwlimit_arguments options.bwlimit_bytes_per_s
                ++ (delete_arguments options.delete
                    ++ (as_argument source ∷ as_argument target ∷ []))))))

-- `SudoIdentity.wrap`.
unfoldable pub sudo_wrap : Owner → List Text → List Text
sudo_wrap owner argv = codes "sudo" ∷ codes "-n" ∷ codes "-u" ∷ owner.user ∷ codes "--" ∷ argv

abbrev starts_with : Text → Text → Bool
starts_with [] t = true
starts_with (x ∷ xs) [] = false
starts_with (x ∷ xs) (c ∷ t) = c == x && starts_with xs t

-- `text in lowered`.
unfoldable pub contains : Text → Text → Bool
contains part [] = starts_with part []
contains part (c ∷ t) = starts_with part (c ∷ t) || contains part t

-- `_MESSAGES`.
abbrev messages : List (Text × FailureClass)
messages =
    (codes "no space left", FailureClass.no_space)
    ∷ (codes "quota exceeded", FailureClass.quota_exceeded)
    ∷ (codes "permission denied", FailureClass.permission_denied)
    ∷ (codes "no such file or directory", FailureClass.source_missing)
    ∷ []

abbrev class_of : Option (Text × FailureClass) → FailureClass
class_of none = FailureClass.tool_error
class_of (some (t, failure)) = failure

-- `_FROM_MESSAGE`: the codes that leave the cause to the message.
abbrev pub from_message : ℕ → Bool
from_message n = n == 11 || n == 23 || n == 24

-- `_BY_CODE.get(returncode, FailureClass.INTERNAL)`.
abbrev pub by_code : ℕ → FailureClass
by_code n =
    if any (λ k. n == k) (1 ∷ 2 ∷ 4 ∷ 13 ∷ 14 ∷ 21 ∷ 22 ∷ [])
    then FailureClass.tool_error
    else if n == 3
    then FailureClass.source_missing
    else if any (λ k. n == k) (5 ∷ 6 ∷ 10 ∷ 12 ∷ [])
    then FailureClass.network
    else if n == 20
    then FailureClass.cancelled
    else if n == 30 || n == 35
    then FailureClass.timeout
    else FailureClass.internal

-- `none` is success. A process that a signal ended has a negative code.
unfoldable pub classify_exit : (Text → Text) → ℤ → Text → Option FailureClass
unfolding contains
classify_exit lower (negsuc n) stderr = some FailureClass.internal
classify_exit lower (pos n) stderr =
    if n == 0
    then none
    else if from_message n
    then some (class_of (find_first (λ m. contains m.0 (lower stderr)) messages))
    else some (by_code n)

-- What the process did: what each read of its output returned, its errors and its exit code.
pub record Process : Type 0 where
  pub reads : List Text
  pub stderr : Text
  pub returncode : ℤ

pub record TransferResult : Type 0 where
  pub failure : Option FailureClass
  pub returncode : ℤ
  pub bytes_transferred : ℕ
  pub files_transferred : ℕ

-- `"\n".join(collected)`.
unfoldable pub join_lines : List Text → Text
join_lines [] = []
join_lines (t ∷ []) = t
join_lines (t ∷ u ∷ ts) = t ++ (10 ∷ join_lines (u ∷ ts))

-- `number(pattern)`: the outer `none` is a ValueError, the inner one no match.
abbrev number_in : Option Text → Option (Option ℕ)
unfolding int_of
number_in none = some none
number_in (some amount) = elim (int_of (without_commas amount)) [
  | none ↦ none
  | some n ↦ some (some n)
]

unfoldable pub stat_number : Text → Text → Option (Option ℕ)
unfolding search_amount int_of
stat_number heading output = number_in (search_amount heading true output)

-- `parse_progress`; `none` is an error of `float` or `int`, `some none` a line without progress.
abbrev read_amount : (Text → ℕ → Option ℕ) → Option (Text × ℕ) → Option (Option ℕ)
read_amount to_bytes none = some none
read_amount to_bytes (some (amount, scale)) = elim (to_bytes (without_commas amount) scale) [
  | none ↦ none
  | some n ↦ some (some n)
]

unfoldable pub parse_progress : (Text → ℕ → Option ℕ) → Text → Option (Option ℕ)
unfolding progress_match
parse_progress to_bytes line = read_amount to_bytes (progress_match line)

-- What the loop of `_collect` has reported so far, and `seen`; `none` where a line raised.
abbrev also : ℕ → List ℕ × Option ℕ → List ℕ × Option ℕ
also moved (reported, seen) = (moved ∷ reported, seen)

unfoldable pub follow : (Text → ℕ → Option ℕ) → ℕ → List Text → List ℕ × Option ℕ
unfolding parse_progress
follow to_bytes seen [] = ([], some seen)
follow to_bytes seen (line ∷ more) = elim (parse_progress to_bytes line) [
  | none ↦ ([], none)
  | some none ↦ follow to_bytes seen more
  | some (some moved) ↦
      if moved == seen then follow to_bytes seen more else also moved (follow to_bytes moved more)
]

-- `stats.bytes_transferred if stats.bytes_transferred else seen`.
abbrev pub or_seen : Option ℕ → ℕ → ℕ
or_seen none seen = seen
or_seen (some n) seen = if n == 0 then seen else n

-- `_running` and `_cancelled`.
pub record EngineState : Type 0 where
  pub running : List Text
  pub cancelled : List Text

abbrev pub holds : List Text → Text → Bool
holds handles handle = any (λ h. same h handle) handles

abbrev pub without : Text → List Text → List Text
without handle handles = select (λ h. not (same h handle)) handles

unfoldable pub set_running : Text → EngineState → EngineState
unfolding same
set_running handle st = record st { running = handle ∷ without handle st.running }

-- The `finally` of `run`.
unfoldable pub unset_running : Text → EngineState → EngineState
unfolding same
unset_running handle st = record st { running = without handle st.running }

-- `cancel`: `found` is whether the process group was still there to be killed.
unfoldable pub cancel : Bool → Text → EngineState → Bool × EngineState
unfolding same
cancel found handle st = (
  holds st.running handle && found,
  record st { cancelled = handle ∷ without handle st.cancelled },
)

-- The end of `_collect`, after the streams are closed.
abbrev pub conclude : (Text → Text) → Process → Bool → ℕ → Option ℕ → Option ℕ → TransferResult
unfolding classify_exit
conclude lower process was_cancelled seen bytes files = record {
  failure =
      if was_cancelled
      then some FailureClass.cancelled
      else classify_exit lower process.returncode process.stderr;
  returncode = process.returncode;
  bytes_transferred = or_seen bytes seen;
  files_transferred = or_seen files 0;
}

-- The mark is dropped once it is read; where a line or a number raised before, it stays.
abbrev pub settle :
    List ℕ
    → Option TransferResult
    → Text
    → EngineState
    → (List ℕ × Option TransferResult) × EngineState
unfolding same
settle reported none handle st = ((reported, none), st)
settle reported (some r) handle st =
    ((reported, some r), record st { cancelled = without handle st.cancelled })

module _ (lower : Text → Text) (to_bytes : Text → ℕ → Option ℕ) where
  -- What `_collect` returns once the lines are read; `none` where it raises.
  unfoldable pub finished : Process → Bool → Option ℕ → List Text → Option TransferResult
  unfolding stat_number join_lines classify_exit
  finished process was_cancelled none collected = none
  finished process was_cancelled (some seen) collected =
      let output = join_lines collected in
      elim (stat_number (codes "Total transferred file size:") output) [
        | none ↦ none
        | some bytes ↦ elim (stat_number (codes "Number of regular files transferred:") output) [
          | none ↦ none
          | some files ↦ some (conclude lower process was_cancelled seen bytes files)
        ]
      ]

  -- `_collect`: the progress it reports, and its result.
  unfoldable pub collect :
      Process → Text → EngineState → (List ℕ × Option TransferResult) × EngineState
  unfolding finished follow updates same
  collect process handle st =
      let collected = updates [] process.reads in
      let (reported, seen) = follow to_bytes 0 collected in
      settle reported (finished process (holds st.cancelled handle) seen collected) handle st
