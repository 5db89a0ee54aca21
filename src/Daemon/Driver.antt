-- ===== src/Daemon/Driver.antt =====
-- drivers/posix.py: the POSIX driver. `identity.run`, `resolve` of symbolic links, `stat` and
-- `splitlines` are arguments; `W` is the state of the file system they work on. Raising is `err`.
pub mod Containment
use stashd.Prelude.{
  ℕ, ◌+◌, ◌*◌, Text, codes, String, same, Bool, true, false, not, ◌&&◌, ◌||◌, List, [], ◌∷◌, ◌++◌,
  Option, none, some, select, every, is_digit, value_from, leb, length, ltb, ◌==◌, if◌then◌else◌,
}
use stashd.Domain.Errors.{ErrorCode, Detail, text, Result, ok, err, raise}
use stashd.Domain.Errors
use stashd.Domain.Units.{is_space, lstrip, int_of}
use stashd.Domain.References.{
  validate_storage_path, validate_fileset_name, fileset_name_match, segments_of, strip_path,
  is_special,
}
use stashd.Services.Releases.{Owner, FilesetLocation}
use stashd.Daemon.Output.{many, run_of, nonempty}
use stashd.Paths.{PosixPath, parse, join, print, same_path, is_parent}

pub record Completed : Type 0 where
  pub returncode : ℕ
  pub stdout : Text
  pub stderr : Text

pub record ResolvedPath : Type 0 where
  pub storage_id : Text
  pub relative : Text
  pub absolute : Text

pub record PathStat : Type 0 where
  pub exists : Bool
  pub is_dir : Bool
  pub readable : Bool
  pub writable : Bool

pub record UsageReport : Type 0 where
  pub used_bytes : ℕ
  pub file_count : ℕ

pub record SizeReport : Type 0 where
  pub bytes_total : ℕ
  pub file_count : ℕ
  pub complete : Bool

pub record Host (W : Type 0) : Type 0 where
  -- `identity.run`; `none` where it raises IdentityError.
  pub run : Owner → List Text → W → Option Completed × W
  -- `CurrentUserIdentity().run`.
  pub run_itself : List Text → W → Option Completed × W
  -- `Path.resolve`.
  pub resolve : PosixPath → W → PosixPath
  -- `Path(path).stat().st_uid`; `none` where it raises.
  pub owner_uid : Text → W → Option ℕ
  -- `Path(path).exists()`.
  pub exists : Text → W → Bool
  pub splitlines : Text → List Text

pub record PosixDriver : Type 0 where
  pub storage_id : Text
  pub prefix : PosixPath
  pub root : PosixPath
  -- `f"{self._mode:04o}"`.
  pub mode : Text

abbrev pub Act : Type 0 → Type 0 → Type 0
Act W A = W → Result A × W

abbrev pub proceed : {W A B : Type 0} → Result A × W → (A → Act W B) → Result B × W
proceed (ok a, w) f = f a w
proceed (err e, w) f = (err e, w)

infixl 5 ◌>>=◌ ◌>>◌
abbrev pub ◌>>=◌ : {W A B : Type 0} → Act W A → (A → Act W B) → Act W B
◌>>=◌ m f w = proceed (m w) f

abbrev pub ◌>>◌ : {W A B : Type 0} → Act W A → Act W B → Act W B
m >> n = m >>= λ _. n

abbrev pub from : {W A : Type 0} → Result A → Act W A
from r w = (r, w)

abbrev pub is_ok : Completed → Bool
is_ok c = c.returncode == 0

abbrev pub lstrip_slashes : Text → Text
lstrip_slashes [] = []
lstrip_slashes (c ∷ t) = if c == b'/' then lstrip_slashes t else c ∷ t

abbrev pub is_inside : PosixPath → PosixPath → Bool
unfolding same_path is_parent
is_inside root candidate = same_path candidate root || is_parent root candidate

unfoldable pub checked : PosixDriver → Text → PosixPath → PosixPath → Result (Unit {0})
unfolding same_path is_parent
checked d path candidate expected =
    if not (same_path candidate expected) || not (is_parent d.prefix candidate)
    then raise ErrorCode.invalid_path (("path", text path) ∷ [])
    else ok tt

-- `_check_inside_prefix`.
unfoldable pub check_inside_prefix : PosixDriver → FilesetLocation → Result (Unit {0})
unfolding parse join checked
check_inside_prefix d location =
    checked d location.path (parse location.path)
      (join (join d.prefix location.owner.user) location.name)

unfoldable pub fileset_path : PosixDriver → Owner → Text → Result Text
unfolding validate_fileset_name join print
fileset_path d owner name =
    Errors.◌>>=◌ (validate_fileset_name name)
      λ valid. ok (print (join (join d.prefix owner.user) valid))

module _ {W : Type 0} (host : Host W) where
  -- `PosixDriver._run`: an IdentityError is PERMISSION_DENIED, a DriverError is INTERNAL.
  abbrev pub ended : PosixDriver → Option Completed × W → Result (Unit {0}) × W
  ended d (none, w) = (raise ErrorCode.permission_denied [], w)
  ended d (some c, w) =
      (if is_ok c then ok tt else raise ErrorCode.internal (("storage", text d.storage_id) ∷ []), w)

  unfoldable pub run_checked : PosixDriver → Owner → List Text → Act W (Unit {0})
  run_checked d owner argv w = ended d (host.run owner argv w)

  -- The end of `resolve`: the candidate has to stay in the storage's root.
  unfoldable pub resolve_inside : PosixDriver → W → Text → Result ResolvedPath
  unfolding join is_inside print
  resolve_inside d w relative =
      let candidate = host.resolve (join d.root (lstrip_slashes relative)) w in
      if is_inside (host.resolve d.root w) candidate
      then ok
          (record { storage_id = d.storage_id; relative = relative; absolute = print candidate })
      else raise ErrorCode.invalid_path
          (("path", text relative) ∷ ("storage", text d.storage_id) ∷ [])

  unfoldable pub resolve : PosixDriver → Text → Act W ResolvedPath
  unfolding validate_storage_path resolve_inside
  resolve d storage_relative_path w = (
    Errors.◌>>=◌ (validate_storage_path d.storage_id storage_relative_path) (resolve_inside d w),
    w,
  )

  -- `_check_ownership`.
  unfoldable pub check_ownership : PosixDriver → Text → Owner → Act W (Unit {0})
  check_ownership d path owner w = (
    elim (host.owner_uid path w) [
      | none ↦ raise ErrorCode.internal []
      | some found ↦
          if found == owner.uid
          then ok tt
          else raise ErrorCode.internal (("storage", text d.storage_id) ∷ [])
    ],
    w,
  )

  unfoldable pub create_fileset : PosixDriver → Owner → Text → ℕ → Act W FilesetLocation
  unfolding fileset_path run_checked check_ownership
  create_fileset d owner name allocation = do
    path ← from (fileset_path d owner name)
    run_checked d owner (codes "mkdir" ∷ codes "-p" ∷ path ∷ [])
    run_checked d owner (codes "chmod" ∷ d.mode ∷ path ∷ [])
    check_ownership d path owner
    from (ok (record { storage_id = d.storage_id; name = name; owner = owner; path = path }))

  unfoldable pub delete_fileset : PosixDriver → FilesetLocation → Act W (Unit {0})
  unfolding check_inside_prefix run_checked
  delete_fileset d location = do
    from (check_inside_prefix d location)
    run_checked d location.owner (codes "rm" ∷ codes "-rf" ∷ codes "--" ∷ location.path ∷ [])

  -- `self._identity.run(owner, argv).ok`.
  unfoldable pub test_path : Owner → Text → Text → Act W Bool
  test_path owner flag path w =
      let (c, after) = host.run owner (codes "test" ∷ flag ∷ path ∷ []) w in
      (elim c [ none ↦ raise ErrorCode.permission_denied [] | some done ↦ ok (is_ok done) ], after)

  abbrev stat_existing : Text → Owner → Bool → Act W PathStat
  unfolding test_path
  stat_existing path owner false =
      from (ok (record { exists = false; is_dir = false; readable = false; writable = false }))
  stat_existing path owner true = do
    is_dir ← test_path owner (codes "-d") path
    readable ← test_path owner (codes "-r") path
    writable ← test_path owner (codes "-w") path
    from (ok (record { exists = true; is_dir = is_dir; readable = readable; writable = writable }))

  unfoldable pub stat : ResolvedPath → Owner → Act W PathStat
  unfolding test_path stat_existing
  stat path owner = do
    exists ← test_path owner (codes "-e") path.absolute
    stat_existing path.absolute owner exists

  -- `int(stdout.split(maxsplit=1)[0] or 0)` of digits, which `du` prints; `none` where it raises.
  unfoldable pub kibibytes : Text → Option ℕ
  unfolding many run_of lstrip int_of
  kibibytes stdout = elim (many (λ c. not (is_space c)) (lstrip stdout)) [
    | none ↦ none
    | some (word, rest) ↦ if every is_digit word then int_of word else none
  ]

  -- `len([line for line in stdout.splitlines() if line])`.
  unfoldable pub line_count : Text → ℕ
  line_count stdout = length (select nonempty (host.splitlines stdout))

  abbrev pub usage_report : Completed → Completed → Result UsageReport
  unfolding kibibytes line_count
  usage_report usage listing =
      if is_ok usage
      then elim (kibibytes usage.stdout) [
        | none ↦ raise ErrorCode.internal []
        | some k ↦ ok (record { used_bytes = k * 1024; file_count = line_count listing.stdout })
      ]
      else ok (record { used_bytes = 0; file_count = 0 })

  abbrev pub nothing : Result UsageReport
  nothing = ok (record { used_bytes = 0; file_count = 0 })

  -- `_usage` with the `run` it uses.
  unfoldable pub usage_with : (List Text → W → Option Completed × W) → Text → Act W UsageReport
  unfolding usage_report
  usage_with run path w =
      if host.exists path w
      then (let (usage, w1) = run (codes "du" ∷ codes "-sk" ∷ path ∷ []) w in
          elim usage [
            | none ↦ (nothing, w1)
            | some u ↦
                let (listing, w2) = run (codes "find" ∷ path ∷ codes "-type" ∷ codes "f" ∷ []) w1 in
                elim listing [ none ↦ (nothing, w2) | some l ↦ (usage_report u l, w2) ]
          ])
      else (nothing, w)

  unfoldable pub fileset_usage : PosixDriver → FilesetLocation → Act W UsageReport
  unfolding check_inside_prefix usage_with
  fileset_usage d location = do
    from (check_inside_prefix d location)
    usage_with (host.run location.owner) location.path

  unfoldable pub storage_usage : PosixDriver → Act W UsageReport
  unfolding usage_with print
  storage_usage d = usage_with host.run_itself (print d.prefix)

  abbrev pub size_report : PosixDriver → Completed → Completed → Result SizeReport
  unfolding kibibytes line_count
  size_report d usage listing =
      if is_ok usage
      then elim (kibibytes usage.stdout) [
        | none ↦ raise ErrorCode.internal []
        | some k ↦ ok (record {
          bytes_total = k * 1024;
          file_count = line_count listing.stdout;
          complete = is_ok listing;
        })
      ]
      else raise ErrorCode.internal (("storage", text d.storage_id) ∷ [])

  abbrev pub unfinished : Result SizeReport
  unfinished = ok (record { bytes_total = 0; file_count = 0; complete = false })

  -- `measure`, the time limit being part of `run`.
  unfoldable pub measure : PosixDriver → ResolvedPath → Owner → Act W SizeReport
  unfolding size_report
  measure d path owner w =
      let (usage, w1) = host.run owner (codes "du" ∷ codes "-sk" ∷ path.absolute ∷ []) w in
      elim usage [
        | none ↦ (unfinished, w1)
        | some u ↦
            let (listing, w2) =
              host.run owner (codes "find" ∷ path.absolute ∷ codes "-type" ∷ codes "f" ∷ []) w1 in
            elim listing [ none ↦ (unfinished, w2) | some l ↦ (size_report d u l, w2) ]
      ]
