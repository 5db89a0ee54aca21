-- ===== src/Daemon/Driver/Containment.antt =====
-- drivers/posix.py: which paths a delete or a measurement accepts, and where a probe may lead.
use stashd.Prelude.{Text, same, true, false, [], ◌∷◌, ◌++◌, ◌≡◌, refl, ap, ◌∙◌, arith}
use stashd.Domain.Errors.{ok}
use stashd.Domain.References.{starts_with_slash, validate_fileset_name, fileset_name_match}
use stashd.Domain.References.Names.{first_alnum, name-free, name-first}
use stashd.Services.Releases.{Owner, FilesetLocation}
use stashd.Paths.{PosixPath, parse, join, print, slashes, root_of, parts_of, kept, is_parent}
use stashd.Paths.Printing.{
  WellFormed, parse-print, join-WellFormed, same_path_refl, split-free, root_of-slashes,
  proper_start-append,
}
use stashd.Daemon.Driver.{PosixDriver, checked, check_inside_prefix, fileset_path}

alnum-part :
    (name : Text) → first_alnum name ≡ true → (starts_with_slash name ≡ false) × (kept name ≡ true)
unfolding kept same
alnum-part [] h = absurd (ground arith)
alnum-part (c ∷ t) h = ground arith

relative-root : (t : Text) → starts_with_slash t ≡ false → root_of t ≡ 0
relative-root t h = unfold slashes in root_of-slashes 0 t (omega arith) h

-- A valid name is one part of a path.
name-parts :
    (name : Text)
    → fileset_name_match name ≡ true
    → (root_of name ≡ 0) × (parts_of name ≡ name ∷ [])
unfolding parts_of
name-parts name h =
    let (relative, k) = alnum-part name (name-first name h) in
    (relative-root name relative, rw (split-free name (name-free name h)) (rw k refl))

module _ (p : PosixPath) (user : Text) (relative : starts_with_slash user ≡ false) where
  join-relative : join p user ≡ record { root = p.root; parts = p.parts ++ parts_of user }
  unfolding join
  join-relative = rw (relative-root user relative) refl

  -- The path of a valid name below a user's directory lies below the prefix.
  fileset-below :
      (name : Text) → fileset_name_match name ≡ true → is_parent p (join (join p user) name) ≡ true
  unfolding join is_parent
  fileset-below name h =
      let (root, parts) = name-parts name h in
      rw (root, relative-root user relative, parts)
        (ground (arith, proper_start-append p.parts (parts_of user) name))

accepted_name :
    (d : PosixDriver) (owner : Owner) (name path : Text)
    → fileset_path d owner name ≡ ok path
    → (fileset_name_match name ≡ true) × (path ≡ print (join (join d.prefix owner.user) name))
unfolding fileset_path validate_fileset_name
accepted_name d owner name path h = ground arith

expected-checked :
    (d : PosixDriver) (path : Text) (p : PosixPath)
    → is_parent d.prefix p ≡ true
    → checked d path p p ≡ ok tt
unfolding checked
expected-checked d path p below = rw (same_path_refl p, below) refl

abbrev location_at : PosixDriver → Owner → Text → Text → FilesetLocation
location_at d owner name path = record {
  storage_id = d.storage_id;
  name = name;
  owner = owner;
  path = path;
}

-- What `create_fileset` makes for a user whose name starts with no slash, under a prefix in the form
-- that parsing gives, `delete_fileset` and `fileset_usage` accept: the printed path is parsed back to
-- the path that is expected, and the prefix is among its parents.
pub check_inside_prefix-fileset_path :
    (d : PosixDriver) (owner : Owner) (name path : Text)
    → WellFormed d.prefix
    → starts_with_slash owner.user ≡ false
    → fileset_path d owner name ≡ ok path
    → check_inside_prefix d (location_at d owner name path) ≡ ok tt
unfolding check_inside_prefix
check_inside_prefix-fileset_path d owner name path wf relative h =
    let (valid, printed) = accepted_name d owner name path h in
    let expected = join (join d.prefix owner.user) name in
    let wf' =
      join-WellFormed (join d.prefix owner.user) name (join-WellFormed d.prefix owner.user wf) in
    ap (λ q. checked d path q expected) (ap parse printed ∙ parse-print expected wf')
    ∙ expected-checked d path expected (fileset-below d.prefix owner.user relative name valid)
