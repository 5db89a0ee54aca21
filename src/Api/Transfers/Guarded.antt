-- ===== src/Api/Transfers/Guarded.antt =====
-- Which requests leave the database as it was (api/public/transfers.py).
use stashd.Prelude.{ℕ, Text, same_iff, ◌≡◌, ◌≢◌, refl, Bool, true, false, Option, [], ◌∷◌, arith}
use stashd.Domain.Errors.{ErrorCode, StashError, refuse, text, Result, err}
use stashd.Domain.Floats.{FloatOps}
use stashd.Domain.Identity.{Principal}
use stashd.Config.{ClusterConfig}
use stashd.Models.{Db}
use stashd.Session.{Session, Exec, ◌>>=◌, lift, after}
use stashd.Session.Keeps.{Keeps, Keeps-bind, Keeps-lift, Keeps-reads, Keeps-pure, Keeps-after}
use stashd.Services.Releases.{Owner, FilesetStore, release_fileset}
use stashd.Services.Dispatching.{TransferDispatcher}
use stashd.Services.Warming.Submitting
use stashd.Services.Flushing
use stashd.Api.Access.{subject_owner, caller_is_admin, wanted_user}
use stashd.Api.Transfers.{
  SubmitWarm, SubmitFlush, Submit, release, warm, flush, warm_of, flush_of, submit_transfer,
}

abbrev pub user_of : Submit → Option Text
user_of (release body) = body.user
user_of (warm body) = body.user
user_of (flush body) = body.user

abbrev pub is_dry_run : Submit → Bool
is_dry_run (release body) = false
is_dry_run (warm body) = body.dry_run
is_dry_run (flush body) = body.dry_run

module _ (f : FloatOps) (cluster : ClusterConfig) (now : ℕ) (dispatcher : TransferDispatcher)
    (P : Db → Type 0) where
  warm_preflight-Keeps :
      (owner : Owner) (source_id source_path target_id name : Text) (size_bytes : Option ℕ)
      (refresh : Bool)
      → Keeps P (
          Submitting.preflight f cluster now dispatcher owner source_id source_path target_id name
            size_bytes refresh)
  unfolding Submitting.preflight
  warm_preflight-Keeps owner source_id source_path target_id name size_bytes refresh =
      Keeps-bind _ _ (Keeps-lift _) λ _. Keeps-bind _ _ (Keeps-lift _) λ _.
        Keeps-bind _ _ (Keeps-lift _) λ _. Keeps-bind _ _ (Keeps-lift _) λ _.
          Keeps-bind _ _ (Keeps-lift _) λ _.
            Keeps-bind _ _ (Keeps-reads _) λ _.
              Keeps-bind _ _ (Keeps-lift _) λ _. Keeps-bind _ _ (Keeps-reads _) λ _. Keeps-pure _

  flush_preflight-Keeps :
      (caller : Principal) (owner : Owner) (is_admin : Bool) (storage_id name target_id path : Text)
      → Keeps P (
          Flushing.preflight f cluster now dispatcher caller owner is_admin storage_id name
            target_id path)
  unfolding Flushing.preflight
  flush_preflight-Keeps caller owner is_admin storage_id name target_id path =
      Keeps-bind _ _ (Keeps-lift _) λ _. Keeps-bind _ _ (Keeps-reads _) λ _.
        Keeps-bind _ _ (Keeps-lift _) λ _. Keeps-bind _ _ (Keeps-lift _) λ _.
          Keeps-bind _ _ (Keeps-lift _)
            λ _. Keeps-bind _ _ (Keeps-lift _) λ _. Keeps-bind _ _ (Keeps-lift _) λ _. Keeps-pure _

  module _ (by_name : Text → Result Owner) (caller : Principal) where
    warm_of-Keeps :
        (body : SubmitWarm)
        → body.dry_run ≡ true
        → Keeps P (warm_of f cluster now by_name dispatcher caller body)
    unfolding warm_of
    warm_of-Keeps body dry = rw dry (
        Keeps-bind _ _ (Keeps-lift _)
          λ owner. Keeps-bind _ _ (warm_preflight-Keeps owner _ _ _ _ _ _) λ _. Keeps-pure _)

    flush_of-Keeps :
        (body : SubmitFlush)
        → body.dry_run ≡ true
        → Keeps P (flush_of f cluster now by_name dispatcher caller body)
    unfolding flush_of
    flush_of-Keeps body dry = rw dry (
        Keeps-bind _ _ (Keeps-lift _)
          λ owner. Keeps-bind _ _ (flush_preflight-Keeps caller owner _ _ _ _ _) λ _. Keeps-pure _)

module _ (f : FloatOps) (cluster : ClusterConfig) (now : ℕ) (by_name : Text → Result Owner)
    (dispatcher : TransferDispatcher) (caller : Principal) (store : FilesetStore) where
  -- A dry run of a warm or of a flush commits nothing, whatever it answers.
  pub submit_transfer-dry_run :
      (body : Submit) (db : Db)
      → is_dry_run body ≡ true
      → after (submit_transfer f cluster now by_name dispatcher caller store body) db ≡ db
  unfolding submit_transfer
  submit_transfer-dry_run (release body) db dry = absurd (ground arith)
  submit_transfer-dry_run (warm body) db dry =
      Keeps-after _ db
        (warm_of-Keeps f cluster now dispatcher (λ d. d ≡ db) by_name caller body dry) refl
  submit_transfer-dry_run (flush body) db dry =
      Keeps-after _ db
        (flush_of-Keeps f cluster now dispatcher (λ d. d ≡ db) by_name caller body dry) refl

stops :
    {A B : Type 0} (m : Exec A) (e : StashError) (f : A → Exec B) (s : Session)
    → m s ≡ (err e, s)
    → (m >>= f) s ≡ (err e, s)
unfolding ◌>>=◌
stops m e f s h = rw h refl

pub lift-stops :
    {A B : Type 0} (r : Result A) (e : StashError) (f : A → Exec B) (s : Session)
    → r ≡ err e
    → (lift r >>= f) s ≡ (err e, s)
unfolding ◌>>=◌ lift
lift-stops r e f s h = rw h refl

-- What is raised where only an admin may act for the user.
abbrev pub refusal : Text → StashError
refusal wanted = record { code = ErrorCode.forbidden; details = ("user", text wanted) ∷ [] }

subject_owner-refused :
    (cluster : ClusterConfig) (by_name : Text → Result Owner) (caller : Principal)
    (subject : Option Text)
    → wanted_user subject caller ≢ caller.username
    → caller_is_admin caller cluster ≡ false
    → subject_owner cluster by_name caller subject ≡ err (refusal (wanted_user subject caller))
unfolding subject_owner
subject_owner-refused cluster by_name caller subject other not_admin =
    let i = same_iff (wanted_user subject caller) caller.username in ground arith

release_fileset-refused :
    (now : ℕ) (store : FilesetStore) (caller : Principal) (is_admin : Bool)
    (wanted storage_id name : Text) (discard : Bool) (s : Session)
    → wanted ≢ caller.username
    → is_admin ≡ false
    → release_fileset now store caller is_admin wanted storage_id name discard s
      ≡ (err (refusal wanted), s)
unfolding release_fileset
release_fileset-refused now store caller is_admin wanted storage_id name discard s other plain =
    let i = same_iff wanted caller.username in
    lift-stops (refuse _ ErrorCode.forbidden _) (refusal wanted) _ s (ground arith)

-- A caller who is no admin and names another user is refused with that user's name, for a warm, a
-- flush and a release, dry or not; nothing of the session changes.
pub submit_transfer-refused :
    (f : FloatOps) (cluster : ClusterConfig) (now : ℕ) (by_name : Text → Result Owner)
    (dispatcher : TransferDispatcher) (caller : Principal) (store : FilesetStore) (body : Submit)
    (s : Session)
    → wanted_user (user_of body) caller ≢ caller.username
    → caller_is_admin caller cluster ≡ false
    → submit_transfer f cluster now by_name dispatcher caller store body s
      ≡ (err (refusal (wanted_user (user_of body) caller)), s)
unfolding submit_transfer warm_of flush_of
submit_transfer-refused f cluster now by_name dispatcher caller store (warm body) s other plain =
    lift-stops _ _ _ s (subject_owner-refused cluster by_name caller body.user other plain)
submit_transfer-refused f cluster now by_name dispatcher caller store (flush body) s other plain =
    lift-stops _ _ _ s (subject_owner-refused cluster by_name caller body.user other plain)
submit_transfer-refused f cluster now by_name dispatcher caller store (release body) s other plain =
    stops _ _ _ s (
      release_fileset-refused now store caller (caller_is_admin caller cluster)
        (wanted_user body.user caller) body.target.storage body.target.fileset body.discard s other
        plain)
