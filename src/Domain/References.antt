-- ===== src/Domain/References.antt =====
-- domain/references.py: reference syntax and fileset naming. The two patterns are used with
-- `match`, whose `$` also accepts one line feed after the name.
pub mod Paths
pub mod Parsing
pub mod Names
use stashd.Prelude.{
  ℕ, ◌+◌, Text, codes, same, Bool, true, false, not, ◌&&◌, ◌||◌, List, [], ◌∷◌, ◌++◌, any, every,
  length, leb, ◌==◌, Option, none, some, if◌then◌else◌,
}
use stashd.Domain.Errors.{ErrorCode, Detail, text, Result, ok, raise, refuse, ◌>>=◌, ◌>>◌}

pub record PathRef : Type 0 where
  pub storage : Text
  pub path : Text

pub record FilesetRef : Type 0 where
  pub storage : Text
  pub name : Text

pub data Reference : Type 0 where
  path_ref : PathRef → Reference
  fileset_ref : FilesetRef → Reference

-- `str(reference)`.
unfoldable pub reference_text : Reference → Text
reference_text (path_ref r) = r.storage ++ (b':' ∷ r.path)
reference_text (fileset_ref r) = r.storage ++ (b':' ∷ r.name)

abbrev between : ℕ → ℕ → ℕ → Bool
between lo hi c = leb lo c && leb c hi

-- `[A-Z]` and `[A-Z0-9_-]`.
abbrev pub is_upper : ℕ → Bool
is_upper c = between b'A' b'Z' c

abbrev pub is_storage_char : ℕ → Bool
is_storage_char c = is_upper c || between b'0' b'9' c || c == b'_' || c == b'-'

-- `[A-Za-z0-9]` and `[A-Za-z0-9._-]`.
abbrev pub is_alnum : ℕ → Bool
is_alnum c = is_upper c || between b'a' b'z' c || between b'0' b'9' c

abbrev pub is_name_char : ℕ → Bool
is_name_char c = is_alnum c || c == b'.' || c == b'_' || c == b'-'

-- A first character, and at most `most` further ones.
unfoldable pub fits : (ℕ → Bool) → (ℕ → Bool) → ℕ → Text → Bool
fits first rest most [] = false
fits first rest most (c ∷ t) = first c && every rest t && leb (length t) most

-- The text less one final line feed.
unfoldable pub chomp : Text → Text
chomp [] = []
chomp (c ∷ []) = if c == 10 then [] else c ∷ []
chomp (c ∷ d ∷ t) = c ∷ chomp (d ∷ t)

unfoldable pub storage_id_match : Text → Bool
unfolding fits chomp
storage_id_match t =
    fits is_upper is_storage_char 31 t || fits is_upper is_storage_char 31 (chomp t)

unfoldable pub fileset_name_match : Text → Bool
unfolding fits chomp
fileset_name_match t = fits is_alnum is_name_char 63 t || fits is_alnum is_name_char 63 (chomp t)

unfoldable pub validate_storage_id : Text → Result Text
unfolding storage_id_match
validate_storage_id storage_id = do
  refuse (not (storage_id_match storage_id)) ErrorCode.invalid_name
      (("storage", text storage_id) ∷ [])
  ok storage_id

unfoldable pub validate_fileset_name : Text → Result Text
unfolding fileset_name_match
validate_fileset_name name = do
  refuse (not (fileset_name_match name)) ErrorCode.invalid_name (("name", text name) ∷ [])
  ok name

abbrev pub starts_with_slash : Text → Bool
starts_with_slash [] = false
starts_with_slash (c ∷ t) = c == b'/'

abbrev pub strip_cons : ℕ → Text → Text
strip_cons c [] = if c == b'/' then [] else c ∷ []
strip_cons c (d ∷ u) = c ∷ d ∷ u

-- `path.rstrip("/")`.
unfoldable pub rstrip_slashes : Text → Text
rstrip_slashes [] = []
rstrip_slashes (c ∷ t) = strip_cons c (rstrip_slashes t)

abbrev pub or_root : Text → Text
or_root [] = b'/' ∷ []
or_root (c ∷ t) = c ∷ t

-- `path.rstrip("/") or "/"`.
unfoldable pub strip_path : Text → Text
unfolding rstrip_slashes
strip_path path = or_root (rstrip_slashes path)

abbrev pub push_first : ℕ → List Text → List Text
push_first c [] = (c ∷ []) ∷ []
push_first c (s ∷ ss) = (c ∷ s) ∷ ss

-- `path.split("/")`.
unfoldable pub split_slash : Text → List Text
split_slash [] = [] ∷ []
split_slash (c ∷ t) = let rest = split_slash t in if c == b'/' then [] ∷ rest else push_first c rest

abbrev pub rest_of {ℓ} : {A : Type ℓ} → List A → List A
rest_of [] = []
rest_of (x ∷ xs) = xs

-- `segment in ("", ".", "..")`.
unfoldable pub is_special : Text → Bool
unfolding same
is_special segment = same segment [] || same segment (b'.' ∷ []) || same segment (b'.' ∷ b'.' ∷ [])

-- `path.split("/")[1:] if path != "/" else []`.
unfoldable pub segments_of : Text → List Text
unfolding split_slash same
segments_of path = if same path (b'/' ∷ []) then [] else rest_of (split_slash path)

unfoldable pub validate_storage_path : Text → Text → Result Text
unfolding segments_of strip_path is_special
validate_storage_path storage path = do
  refuse (not (starts_with_slash path)) ErrorCode.invalid_path (("path", text path) ∷ [])
  let stripped = strip_path path
  refuse (any is_special (segments_of stripped)) ErrorCode.invalid_path
      (("path", text stripped) ∷ [])
  ok stripped

abbrev found_left : ℕ → Option (Text × Text) → Option (Text × Text)
found_left c none = none
found_left c (some (a, b)) = some (c ∷ a, b)

-- `text.partition(":")`; `none` where the separator is missing.
unfoldable pub partition_colon : Text → Option (Text × Text)
partition_colon [] = none
partition_colon (c ∷ t) =
    let rest = partition_colon t in if c == b':' then some ([], t) else found_left c rest

parse_rest : Text → Text → Result Reference
parse_rest storage rest =
    if starts_with_slash rest
    then (do
      path ← validate_storage_path storage rest
      ok (path_ref (record { storage = storage; path = path })))
    else (do
      name ← validate_fileset_name rest
      ok (fileset_ref (record { storage = storage; name = name })))

parse_parts : Option (Text × Text) → Result Reference
unfolding parse_rest
parse_parts none = raise ErrorCode.invalid_name []
parse_parts (some (storage, [])) = raise ErrorCode.invalid_name []
parse_parts (some (storage, c ∷ t)) = do validate_storage_id storage; parse_rest storage (c ∷ t)

unfoldable pub parse_reference : Text → Result Reference
unfolding parse_parts partition_colon
parse_reference t = parse_parts (partition_colon t)

-- Where a fileset lies: `{prefix.rstrip('/')}/{owner}/{name}`.
unfoldable pub fileset_path : Text → Text → Text → Result Text
unfolding rstrip_slashes
fileset_path fileset_prefix owner_user name = do
  valid ← validate_fileset_name name
  ok (rstrip_slashes fileset_prefix ++ (b'/' ∷ (owner_user ++ (b'/' ∷ valid))))
