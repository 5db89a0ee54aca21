-- ===== src/Api/Filesets.antt =====
-- api/public/filesets.py, and the reads of services/filesets.py. The database's order of texts is an
-- argument. The times and counters that `to_wire` copies are left out of the wire form.
pub mod Resolving
use stashd.Prelude.{
  ℕ, Text, codes, same, Bool, true, false, not, ◌&&◌, ◌||◌, List, [], ◌∷◌, ◌++◌, map, select,
  is_empty, ltb, ◌==◌, Option, none, some, if◌then◌else◌,
}
use stashd.Domain.Errors.{ErrorCode, Result, ok, err}
use stashd.Domain.Floats.{FloatOps}
use stashd.Domain.Filesets.{FilesetKind, FilesetState, is_state, is_output, holds_allocation}
use stashd.Domain.Identity.{Principal}
use stashd.Config.{ClusterConfig}
use stashd.Models.{Fileset, Db}
use stashd.Session.{Exec, ◌>>=◌, ◌>>◌, pure, lift}
use stashd.Services.Releases.{Owner, FilesetStore}
use stashd.Services.Filesets
use stashd.Services.Filesets.{create_output_fileset}
use stashd.Api.Access.{subject_owner, caller_is_admin}

-- The arguments of list_filesets that choose rows.
pub record Query : Type 0 where
  pub storage : Option Text
  pub user : Option Text
  pub name : Option Text
  pub kind : Option FilesetKind
  pub state : Option FilesetState

abbrev pub given {ℓ} : {A : Type ℓ} → Option A → (A → Bool) → Bool
given none test = true
given (some a) test = test a

abbrev is_kind : FilesetKind → FilesetKind → Bool
is_kind k l = if is_output k then is_output l else not (is_output l)

unfoldable pub matches : Query → Fileset → Bool
unfolding same
matches q f =
    given q.storage (same f.storage_id)
    && given q.user (same f.owner_user)
    && given q.name (same f.name)
    && given q.kind (is_kind f.kind)
    && given q.state (is_state f.state)

module _ (text_lt : Text → Text → Bool) where
  -- Live rows first, and history after them, newest first.
  abbrev pub newer : Fileset → Fileset → Bool
  newer f g =
      if holds_allocation f.state
      then (if holds_allocation g.state then ltb g.id f.id else true)
      else if holds_allocation g.state
      then false
      else ltb g.id f.id

  abbrev pub by_text : Text → Text → Bool → Bool
  by_text s t rest = if same s t then rest else text_lt s t

  -- `order_by(storage_id, owner_user, name, state == RELEASED, id.desc())`.
  unfoldable pub before : Fileset → Fileset → Bool
  unfolding same holds_allocation
  before f g =
      by_text f.storage_id g.storage_id
        (by_text f.owner_user g.owner_user (by_text f.name g.name (newer f g)))

  unfoldable pub insert_row : Fileset → List Fileset → List Fileset
  unfolding before
  insert_row f [] = f ∷ []
  insert_row f (g ∷ gs) = if before f g then f ∷ g ∷ gs else g ∷ insert_row f gs

  unfoldable pub in_order : List Fileset → List Fileset
  unfolding insert_row
  in_order [] = []
  in_order (f ∷ fs) = insert_row f (in_order fs)

  unfoldable pub list_filesets : Query → Db → List Fileset
  unfolding matches in_order
  list_filesets q db = in_order (select (matches q) db.filesets)

-- The texts of `to_wire` that are made, and not copied.
abbrev text_or_empty : Option Text → Text
text_or_empty none = []
text_or_empty (some t) = t

unfoldable pub reference_of : Fileset → Text
reference_of f = f.storage_id ++ (codes ":" ++ f.name)

-- `none` where a part is null or empty.
unfoldable pub source_of : Fileset → Option Text
source_of f =
    let storage_id = text_or_empty f.source_storage_id in
    let path = text_or_empty f.source_path in
    if is_empty storage_id || is_empty path then none else some (storage_id ++ (codes ":" ++ path))

module _ (f : FloatOps) (cluster : ClusterConfig) (now : ℕ) (store : FilesetStore)
    (caller : Principal) where
  unfoldable pub create_fileset :
      (Text → Result Owner) → Option Text → Text → Text → ℕ → Exec Fileset
  unfolding subject_owner create_output_fileset
  create_fileset by_name user storage_id name size_bytes = do
    owner ← lift (subject_owner cluster by_name caller user)
    create_output_fileset f cluster now store caller owner storage_id name size_bytes

  unfoldable pub resize_fileset : ℕ → ℕ → Bool → Exec Fileset
  unfolding caller_is_admin Filesets.resize_fileset
  resize_fileset fileset_id size_bytes force =
      Filesets.resize_fileset f cluster now store caller (caller_is_admin caller cluster) fileset_id
        size_bytes force
