-- ===== src/Api/Access.antt =====
-- auth/munge.py, auth/token.py, auth/owners.py and api/deps.py: who a request comes from, and whom
-- it acts for. The MUNGE decoder and the system's user database are arguments.
pub mod Verified
use stashd.Prelude.{
  is_empty, ℕ, Text, codes, same, Bool, true, false, not, ◌&&◌, ◌||◌, List, [], ◌∷◌, map, Option,
  none, some, if◌then◌else◌, ltb, leb, ◌==◌, ◌+◌, ◌%◌,
}
use stashd.Domain.Errors.{ErrorCode, text, Result, ok, err, raise, refuse, ◌>>=◌, ◌>>◌}
use stashd.Domain.Identity.{Principal, is_admin}
use stashd.Domain.Units.{strip}
use stashd.Config.{ClusterConfig}
use stashd.Services.Releases.{Owner}

pub record AuthProvider : Type 0 where
  pub scheme : Text
  pub authenticate : Text → Result Principal

-- What `IdentityLookup.lookup` answers.
pub record Identity : Type 0 where
  pub username : Text
  pub groups : List Text
  pub gids : List ℕ

-- `none` is any exception of the decoder.
unfoldable pub authenticate :
    (Text → Option (ℕ × ℕ)) → (ℕ → ℕ → Result Identity) → Text → Result Principal
authenticate decode lookup credential = elim (decode credential) [
  | none ↦ raise ErrorCode.unauthenticated []
  | some (uid, gid) ↦ do
    found ← lookup uid gid
    ok (record {
      uid = uid;
      gid = gid;
      username = found.username;
      groups = found.groups;
      gids = found.gids;
    })
]

unfoldable pub munge_provider : (Text → Option (ℕ × ℕ)) → (ℕ → ℕ → Result Identity) → AuthProvider
unfolding authenticate
munge_provider decode lookup = record {
  scheme = codes "Munge";
  authenticate = authenticate decode lookup;
}

-- `TokenAuthProvider.from_file`: the file is its permission bits and its text, `none` when it is
-- missing; the result is `none` where the source raises ConfigError. `mode & 0o077` is `% 64`.
unfoldable pub from_file : Option (ℕ × Text) → Option Text
unfolding strip
from_file none = none
from_file (some (mode, contents)) =
    if not (mode % 64 == 0) || is_empty (strip contents) then none else some (strip contents)

unfoldable pub verify : Text → Text → Result (Unit {0})
unfolding same
verify token credential =
    refuse (is_empty credential || not (same credential token)) ErrorCode.unauthenticated []

abbrev lower_char : ℕ → ℕ
lower_char c = if leb 65 c && leb c 90 then c + 32 else c

-- `scheme.lower()`.
unfoldable pub lower : Text → Text
lower t = map lower_char t

-- `header.partition(" ")` without the separator.
unfoldable pub partition_space : Text → Text × Text
partition_space [] = ([], [])
partition_space (c ∷ t) =
    let rest = partition_space t in if c == 32 then ([], t) else (c ∷ rest.0, rest.1)

-- `header` is empty when the request has no Authorization.
unfoldable pub principal : AuthProvider → Text → Result Principal
unfolding same lower strip partition_space
principal provider header =
    let (scheme, credential) = partition_space header in
    do
      refuse (not (same (lower scheme) (lower provider.scheme)) || is_empty (strip credential))
          ErrorCode.unauthenticated []
      provider.authenticate (strip credential)

-- `none` is a daemon without a peer token.
unfoldable pub peer : Option Text → Text → Result (Unit {0})
unfolding same lower strip partition_space verify
peer none header = raise ErrorCode.unauthenticated []
peer (some token) header =
    let (scheme, credential) = partition_space header in
    do
      refuse (not (same (lower scheme) (codes "bearer"))) ErrorCode.unauthenticated []
      verify token (strip credential)

-- A caller's own identity is verified already; `by_name` looks up anyone else.
unfoldable pub owner_for : Principal → Text → (Text → Result Owner) → Result Owner
unfolding same
owner_for caller subject by_name =
    if same subject caller.username
    then ok (record { user = caller.username; uid = caller.uid; gid = caller.gid })
    else by_name subject

unfoldable pub caller_is_admin : Principal → ClusterConfig → Bool
unfolding is_admin
caller_is_admin caller cluster = is_admin caller cluster.admin_uids cluster.admin_gids

-- `subject or caller.username`.
unfoldable pub wanted_user : Option Text → Principal → Text
wanted_user none caller = caller.username
wanted_user (some subject) caller = if is_empty subject then caller.username else subject

unfoldable pub subject_owner :
    ClusterConfig → (Text → Result Owner) → Principal → Option Text → Result Owner
unfolding same caller_is_admin wanted_user owner_for
subject_owner cluster by_name caller subject =
    let wanted = wanted_user subject caller in
    do
      refuse (not (same wanted caller.username) && not (caller_is_admin caller cluster))
          ErrorCode.forbidden (("user", text wanted) ∷ [])
      owner_for caller wanted by_name
