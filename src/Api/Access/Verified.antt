-- ===== src/Api/Access/Verified.antt =====
-- What an accepted request has proved of its caller (api/deps.py).
use stashd.Prelude.{
  ℕ, Text, same_iff, ◌≡◌, ◌≢◌, ◌↔◌, ◌⊎◌, Bool, true, false, List, String, ◌||◌, any, ◌==◌, Option,
  some, arith,
}
use stashd.Domain.Errors.{ErrorCode, Detail, Result, ok, refuse, ◌>>◌}
use stashd.Domain.Identity.{Principal, is_one_of}
use stashd.Domain.Identity.Admins.{member_of, is_admin-eq-member_of}
use stashd.Domain.Units.{strip}
use stashd.Config.{ClusterConfig}
use stashd.Services.Releases.{Owner}
use stashd.Api.Access.{
  Identity, authenticate, munge_provider, partition_space, principal, owner_for, caller_is_admin,
  wanted_user, subject_owner,
}

-- uid 0, a listed uid, or a member of a listed group.
abbrev pub Admin : ClusterConfig → Principal → Type 0
Admin cluster p =
    (p.uid == 0 || is_one_of p.uid cluster.admin_uids || any (member_of p) cluster.admin_gids)
    ≡ true

abbrev pub own : Principal → Owner
own p = record { user = p.username; uid = p.uid; gid = p.gid }

-- Whom a request may act as, and with which uid and gid.
abbrev pub ActsAs : ClusterConfig → (Text → Result Owner) → Principal → Text → Owner → Type 0
ActsAs cluster by_name caller wanted owner =
    ((wanted ≡ caller.username) × (owner ≡ own caller))
    ⊎ ((wanted ≢ caller.username) × Admin cluster caller × (by_name wanted ≡ ok owner))

after_refuse {ℓ} :
    {A : Type ℓ} (b : Bool) (c : ErrorCode) (d : List (String × Detail)) (m : Result A) (a : A)
    → (refuse b c d >> m) ≡ ok a
    → m ≡ ok a
after_refuse true c d m a h = absurd (ground arith)
after_refuse false c d m a h = h

module _ (decode : Text → Option (ℕ × ℕ)) (lookup : ℕ → ℕ → Result Identity) where
  authenticate-decode :
      (credential : Text) (p : Principal)
      → authenticate decode lookup credential ≡ ok p
      → decode credential ≡ some (p.uid, p.gid)
  unfolding authenticate
  authenticate-decode credential p h = ground arith

  principal-decode :
      (header : Text) (p : Principal)
      → principal (munge_provider decode lookup) header ≡ ok p
      → decode (strip (partition_space header).1) ≡ some (p.uid, p.gid)
  unfolding principal munge_provider
  principal-decode header p h =
      let credential = strip (partition_space header).1 in
      authenticate-decode credential p
        (after_refuse _ _ _ (authenticate decode lookup credential) p h)

subject_owner_iff :
    (cluster : ClusterConfig) (by_name : Text → Result Owner) (caller : Principal)
    (subject : Option Text) (owner : Owner)
    → (subject_owner cluster by_name caller subject ≡ ok owner)
      ↔ ActsAs cluster by_name caller (wanted_user subject caller) owner
unfolding subject_owner owner_for caller_is_admin
subject_owner_iff cluster by_name caller subject owner =
    let i = same_iff (wanted_user subject caller) caller.username in
    let a = is_admin-eq-member_of caller cluster.admin_uids cluster.admin_gids in
    (λ h. ground arith, λ h. ground arith)

-- When the controller takes a request's `Authorization` as `caller`, MUNGE decoded its credential
-- to the uid and gid of `caller`; and the request then acts as `owner` exactly when the caller
-- asked for itself, with those two numbers, or asked for another user, is an admin by them, and
-- the user database gave `owner` for that user.
pub subject_owner-Verified :
    (decode : Text → Option (ℕ × ℕ)) (lookup : ℕ → ℕ → Result Identity) (cluster : ClusterConfig)
    (by_name : Text → Result Owner) (header : Text) (caller : Principal) (subject : Option Text)
    (owner : Owner)
    → principal (munge_provider decode lookup) header ≡ ok caller
    → (decode (strip (partition_space header).1) ≡ some (caller.uid, caller.gid))
      × ((subject_owner cluster by_name caller subject ≡ ok owner)
          ↔ ActsAs cluster by_name caller (wanted_user subject caller) owner)
subject_owner-Verified decode lookup cluster by_name header caller subject owner h = (
  principal-decode decode lookup header caller h,
  subject_owner_iff cluster by_name caller subject owner,
)
