-- ===== src/Api/Filesets/Resolving.antt =====
-- How a client resolves STORAGE:name: by the first row of the list (services/filesets.py).
use stashd.Prelude.{
  Text, same, same_iff, ◌≡◌, refl, sym, ap, ◌∙◌, inl, inr, Bool, true, false, ◌&&◌, Bool-cases,
  List, [], ◌∷◌, All, any, select, find_first, Option, none, some, arith, if◌then◌else◌,
}
use stashd.Domain.Filesets.{holds_allocation}
use stashd.Models.{Fileset, Db}
use stashd.Session.Rows.{clash, live_names_unique}
use stashd.Services.Releases.{live_fileset}
use stashd.Api.Filesets.{Query, matches, newer, before, insert_row, in_order, list_filesets}

-- The query for one storage, user and name.
abbrev pub named : Text → Text → Text → Query
named storage_id user name = record {
  storage = some storage_id;
  user = some user;
  name = some name;
  kind = none;
  state = none;
}

abbrev live : Fileset → Bool
live f = holds_allocation f.state

-- The first row, where it is live.
abbrev pub first_live : List Fileset → Option Fileset
first_live [] = none
first_live (f ∷ fs) = if live f then some f else none

-- At most one of the rows is live.
abbrev AtMostOne : List Fileset → Type 0
AtMostOne [] = Unit
AtMostOne (f ∷ fs) = (live f ≡ true → any live fs ≡ false) × AtMostOne fs

no_live : (fs : List Fileset) → any live fs ≡ false → find_first live fs ≡ none
no_live [] h = refl
no_live (f ∷ fs) h = ground (arith, no_live fs)

module _ (text_lt : Text → Text → Bool) (storage_id user name : Text) where
  abbrev pub Named : Fileset → Type 0
  Named f = (f.storage_id ≡ storage_id) × (f.owner_user ≡ user) × (f.name ≡ name)

  before-newer : (f g : Fileset) → Named f → Named g → before text_lt f g ≡ newer text_lt f g
  unfolding before
  before-newer f g (a, b, c) (x, y, z) =
      let i = (same_iff f.storage_id g.storage_id).1 (a ∙ sym x) in
      let j = (same_iff f.owner_user g.owner_user).1 (b ∙ sym y) in
      let k = (same_iff f.name g.name).1 (c ∙ sym z) in rw (i, j, k) refl

  -- A live row comes before rows that are not, and a row that is not leaves the first one where
  -- it is, or is not live either.
  insert_row-live :
      (f : Fileset) (gs : List Fileset)
      → Named f
      → All Named gs
      → (live f ≡ true → first_live gs ≡ none)
      → first_live (insert_row text_lt f gs) ≡ (if live f then some f else first_live gs)
  unfolding insert_row
  insert_row-live f [] n ns alone = refl
  insert_row-live f (g ∷ gs) n ns alone = rw (before-newer f g n ns.0) (ground arith)

  insert_row-Named :
      (f : Fileset) (gs : List Fileset)
      → Named f
      → All Named gs
      → All Named (insert_row text_lt f gs)
  unfolding insert_row
  insert_row-Named f [] n ns = (n, tt)
  insert_row-Named f (g ∷ gs) n ns = elim (Bool-cases (before text_lt f g)) [
    | inl e ↦ rw e (n, ns)
    | inr e ↦ rw e (ns.0, insert_row-Named f gs n ns.1)
  ]

  in_order-Named : (fs : List Fileset) → All Named fs → All Named (in_order text_lt fs)
  unfolding in_order
  in_order-Named [] ns = tt
  in_order-Named (f ∷ fs) ns =
      insert_row-Named f (in_order text_lt fs) ns.0 (in_order-Named fs ns.1)

  in_order-live :
      (fs : List Fileset)
      → All Named fs
      → AtMostOne fs
      → first_live (in_order text_lt fs) ≡ find_first live fs
  unfolding in_order
  in_order-live [] ns one = refl
  in_order-live (f ∷ fs) ns one =
      let rest = in_order-live fs ns.1 one.1 in
      insert_row-live f (in_order text_lt fs) ns.0 (in_order-Named fs ns.1)
        (λ e. rest ∙ no_live fs (one.0 e))
      ∙ ap (λ o. if live f then some f else o) rest

  matches-Named : (f : Fileset) → matches (named storage_id user name) f ≡ true → Named f
  unfolding matches
  matches-Named f h = (
    (same_iff f.storage_id storage_id).0 (ground arith),
    (same_iff f.owner_user user).0 (ground arith),
    (same_iff f.name name).0 (ground arith),
  )

  select-Named : (fs : List Fileset) → All Named (select (matches (named storage_id user name)) fs)
  select-Named [] = tt
  select-Named (f ∷ fs) = elim (Bool-cases (matches (named storage_id user name) f)) [
    | inl e ↦ rw e (matches-Named f e, select-Named fs)
    | inr e ↦ rw e (select-Named fs)
  ]

  found-live :
      (fs : List Fileset)
      → find_first live (select (matches (named storage_id user name)) fs)
        ≡ find_first
            (λ f.
              same f.owner_user user
              && same f.storage_id storage_id
              && same f.name name
              && holds_allocation f.state)
            fs
  unfolding matches
  found-live [] = refl
  found-live (f ∷ fs) = ground (arith, found-live fs)

  clash-Named : (f g : Fileset) → Named f → Named g → clash f g ≡ (live f && live g)
  unfolding clash
  clash-Named f g (a, b, c) (x, y, z) =
      let i = (same_iff f.storage_id g.storage_id).1 (a ∙ sym x) in
      let j = (same_iff f.owner_user g.owner_user).1 (b ∙ sym y) in
      let k = (same_iff f.name g.name).1 (c ∙ sym z) in rw (i, j, k) (ground arith)

  alone :
      (f : Fileset) (fs : List Fileset)
      → Named f
      → live f ≡ true
      → any (clash f) fs ≡ false
      → any live (select (matches (named storage_id user name)) fs) ≡ false
  alone f [] n e h = refl
  alone f (g ∷ fs) n e h =
      let rest = alone f fs n e (ground arith) in
      elim (Bool-cases (matches (named storage_id user name) g)) [
        | inr q ↦ rw q rest
        | inl q ↦ let both = clash-Named f g n (matches-Named g q) in rw q (ground arith)
      ]

  unique-AtMostOne :
      (fs : List Fileset)
      → live_names_unique fs ≡ true
      → AtMostOne (select (matches (named storage_id user name)) fs)
  unfolding live_names_unique
  unique-AtMostOne [] h = tt
  unique-AtMostOne (f ∷ fs) h =
      let rest = unique-AtMostOne fs (ground arith) in
      elim (Bool-cases (matches (named storage_id user name) f)) [
        | inr q ↦ rw q rest
        | inl q ↦ rw q ((λ e. alone f fs (matches-Named f q) e (ground arith)), rest)
      ]

  -- Where the unique index on live names holds, the list of the filesets of one storage, user and
  -- name, in any order of texts, holds that name only, and its first row is the fileset that the
  -- services find for the name, where there is one, and history or nothing where there is none. A
  -- client that resolves STORAGE:name takes this row.
  pub list_filesets-live :
      (db : Db)
      → live_names_unique db.filesets ≡ true
      → (first_live (list_filesets text_lt (named storage_id user name) db)
          ≡ live_fileset user storage_id name db)
        × All Named (list_filesets text_lt (named storage_id user name) db)
  unfolding list_filesets live_fileset
  list_filesets-live db unique =
      let ns = select-Named db.filesets in
      (
        in_order-live _ ns (unique-AtMostOne db.filesets unique) ∙ found-live db.filesets,
        in_order-Named _ ns,
      )
