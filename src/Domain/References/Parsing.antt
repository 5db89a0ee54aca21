-- ===== src/Domain/References/Parsing.antt =====
-- Printing and parsing references (domain/references.py), and which names its patterns accept.
use mathlib.Core.List.{append_assoc}
use stashd.Prelude.{
  sym, ℕ, Text, ◌≡◌, refl, ◌≢◌, ap, ◌∙◌, ◌⊎◌, ◌↔◌, inl, inr, subst, Bool, true, false, Bool-cases,
  not, [], ◌∷◌, ◌++◌, every, ◌==◌, Option, none, some, arith,
}
use stashd.Domain.Errors.{ok, >>=-eq-ok}
use stashd.Domain.References.{
  strip_cons, rstrip_slashes, or_root, strip_path, found_left, PathRef, FilesetRef, Reference,
  path_ref, fileset_ref, reference_text, is_upper, is_storage_char, is_alnum, is_name_char, fits,
  chomp, storage_id_match, fileset_name_match, validate_storage_id, validate_fileset_name,
  starts_with_slash, validate_storage_path, partition_colon, parse_rest, parse_parts,
  parse_reference,
}
use stashd.Domain.References.Paths.{validate_storage_path-Accepted}

abbrev no_colon : Text → Bool
no_colon = every (λ c. not (c == b':'))

partition-append :
    (s t : Text) → no_colon s ≡ true → partition_colon (s ++ (b':' ∷ t)) ≡ some (s, t)
unfolding partition_colon
partition-append [] t h = refl
partition-append (c ∷ s) t h = ground (arith, partition-append s t)

no_colon-chars : (s : Text) → every is_storage_char s ≡ true → no_colon s ≡ true
no_colon-chars [] h = refl
no_colon-chars (c ∷ s) h = ground (arith, no_colon-chars s)

no_colon-fits : (n : ℕ) (s : Text) → fits is_upper is_storage_char n s ≡ true → no_colon s ≡ true
unfolding fits
no_colon-fits n [] h = refl
no_colon-fits n (c ∷ s) h = ground (arith, no_colon-chars s)

no_colon-chomp : (s : Text) → no_colon (chomp s) ≡ true → no_colon s ≡ true
unfolding chomp
no_colon-chomp [] h = refl
no_colon-chomp (c ∷ []) h = ground arith
no_colon-chomp (c ∷ d ∷ s) h = ground (arith, no_colon-chomp (d ∷ s))

no_colon-storage_id : (s : Text) → storage_id_match s ≡ true → no_colon s ≡ true
unfolding storage_id_match
no_colon-storage_id s h = elim (Bool-cases (fits is_upper is_storage_char 31 s)) [
  | inl e ↦ no_colon-fits 31 s e
  | inr e ↦ no_colon-chomp s (no_colon-fits 31 (chomp s) (rw e at h))
]

-- What a parsed reference satisfies.
pub data Valid : Reference → Type 0 where
  a_path :
      (r : PathRef)
      → storage_id_match r.storage ≡ true
      → starts_with_slash r.path ≡ true
      → validate_storage_path r.storage r.path ≡ ok r.path
      → Valid (path_ref r)
  a_fileset :
      (r : FilesetRef)
      → storage_id_match r.storage ≡ true
      → starts_with_slash r.name ≡ false
      → validate_fileset_name r.name ≡ ok r.name
      → Valid (fileset_ref r)

empty_name : (n : Text) → validate_fileset_name [] ≢ ok n
unfolding validate_fileset_name fileset_name_match
empty_name n h = ground arith

name_kept : (t n : Text) → validate_fileset_name t ≡ ok n → t ≡ n
unfolding validate_fileset_name
name_kept t n h = ground arith

parts_path :
    (s rest p : Text)
    → storage_id_match s ≡ true
    → starts_with_slash rest ≡ true
    → validate_storage_path s rest ≡ ok p
    → parse_parts (some (s, rest)) ≡ ok (path_ref (record { storage = s; path = p }))
unfolding parse_parts validate_storage_id
parts_path s [] p id starts h = cc
parts_path s (c ∷ t) p id starts h = rw (id, starts, h)

parts_name :
    (s rest n : Text)
    → storage_id_match s ≡ true
    → starts_with_slash rest ≡ false
    → validate_fileset_name rest ≡ ok n
    → parse_parts (some (s, rest)) ≡ ok (fileset_ref (record { storage = s; name = n }))
unfolding parse_parts validate_storage_id
parts_name s [] n id starts h = absurd (empty_name n h)
parts_name s (c ∷ t) n id starts h = rw (id, starts, h)

-- Printing a valid reference and parsing the text gives the reference back.
parse-reference_text : (r : Reference) → Valid r → parse_reference (reference_text r) ≡ ok r
unfolding parse_reference reference_text
parse-reference_text r (a_path p id starts path) =
    rw (partition-append p.storage p.path (no_colon-storage_id p.storage id))
      (parts_path p.storage p.path p.path id starts path)
parse-reference_text r (a_fileset f id starts name) =
    rw (partition-append f.storage f.name (no_colon-storage_id f.storage id))
      (parts_name f.storage f.name f.name id starts name)

ok_eq : {a b : Reference} → ok a ≡ ok b → a ≡ b
ok_eq h = ground arith

Valid-rest :
    (s rest : Text) (r : Reference) → storage_id_match s ≡ true → parse_rest s rest ≡ ok r → Valid r
unfolding parse_rest
Valid-rest s rest r id h = elim (Bool-cases (starts_with_slash rest)) [
  | inl starts ↦
      let (p, hp, e) = >>=-eq-ok (validate_storage_path s rest) _ r (rw starts at h) in
      let a = validate_storage_path-Accepted s rest p hp in
      subst Valid (ok_eq e) (a_path (record { storage = s; path = p }) id a.starts a.stable)
  | inr starts ↦
      let (n, hn, e) = >>=-eq-ok (validate_fileset_name rest) _ r (rw starts at h) in
      let k = name_kept rest n hn in
      subst Valid (ok_eq e)
        (a_fileset (record { storage = s; name = n }) id (rw k at starts) (rw k at hn))
]

Valid-parts : (o : Option (Text × Text)) (r : Reference) → parse_parts o ≡ ok r → Valid r
unfolding parse_parts validate_storage_id
Valid-parts none r h = absurd (ground arith)
Valid-parts (some (s, [])) r h = absurd (ground arith)
Valid-parts (some (s, c ∷ t)) r h = elim (Bool-cases (storage_id_match s)) [
  | inl id ↦ Valid-rest s (c ∷ t) r id (rw id at h)
  | inr bad ↦ absurd (ground arith)
]

-- The text is what is kept of it, and slashes.
abbrev pub Trimmed : Text → Text → Type 0
Trimmed t kept = (slashes : Text) × (every (λ c. c == b'/') slashes ≡ true) × (t ≡ kept ++ slashes)

strip_cons-Trimmed : (c : ℕ) (t u : Text) → Trimmed t u → Trimmed (c ∷ t) (strip_cons c u)
strip_cons-Trimmed c t (d ∷ u) (s, all, e) = (s, all, ap (◌∷◌ c) e)
strip_cons-Trimmed c t [] (s, all, e) = elim (Bool-cases (c == b'/')) [
  | inl q ↦ rw q (c ∷ s, ground arith, ap (◌∷◌ c) e)
  | inr q ↦ rw q (s, all, ap (◌∷◌ c) e)
]

rstrip-Trimmed : (t : Text) → Trimmed t (rstrip_slashes t)
unfolding rstrip_slashes
rstrip-Trimmed [] = ([], refl, refl)
rstrip-Trimmed (c ∷ t) = strip_cons-Trimmed c t (rstrip_slashes t) (rstrip-Trimmed t)

or_root-Trimmed : (t u : Text) → starts_with_slash t ≡ true → Trimmed t u → Trimmed t (or_root u)
or_root-Trimmed t (c ∷ u) starts h = h
or_root-Trimmed [] [] starts h = absurd (ground arith)
or_root-Trimmed (c ∷ t) [] starts ([], all, e) = absurd (ground arith)
or_root-Trimmed (c ∷ t) [] starts (d ∷ s, all, e) = (s, ground arith, ground arith)

path-Trimmed : (storage t p : Text) → validate_storage_path storage t ≡ ok p → Trimmed t p
unfolding validate_storage_path strip_path
path-Trimmed storage t p h =
    let starts : starts_with_slash t ≡ true = ground arith in
    let kept : strip_path t ≡ p = ground arith in
    subst (Trimmed t) kept (or_root-Trimmed t (rstrip_slashes t) starts (rstrip-Trimmed t))

found_left-eq :
    (c : ℕ) (t s rest : Text) (o : Option (Text × Text))
    → ((a b : Text) → o ≡ some (a, b) → t ≡ a ++ (b':' ∷ b))
    → found_left c o ≡ some (s, rest)
    → c ∷ t ≡ s ++ (b':' ∷ rest)
found_left-eq c t s rest none k h = absurd (ground arith)
found_left-eq c t [] rest (some (a, b)) k h = absurd (ground arith)
found_left-eq c t (d ∷ s) rest (some (a, b)) k h = let e = k a b refl in ground arith

partition-eq : (t s rest : Text) → partition_colon t ≡ some (s, rest) → t ≡ s ++ (b':' ∷ rest)
unfolding partition_colon
partition-eq [] s rest h = absurd (ground arith)
partition-eq (c ∷ t) s rest h = elim (Bool-cases (c == b':')) [
  | inr e ↦ found_left-eq c t s rest (partition_colon t) (partition-eq t) (rw e at h)
  | inl e ↦ at_colon s e (rw e at h)
]
  where
    at_colon :
        (a : Text)
        → (c == b':') ≡ true
        → ◌≡◌ {A = Option (Text × Text)} (some ([], t)) (some (a, rest))
        → c ∷ t ≡ a ++ (b':' ∷ rest)
    at_colon [] k q = ground arith
    at_colon (d ∷ a) k q = absurd (ground arith)

-- The text is that of the reference, and for a path any slashes after it.
abbrev pub Written : Text → Reference → Type 0
Written t (path_ref r) = Trimmed t (reference_text (path_ref r))
Written t (fileset_ref r) = t ≡ reference_text (fileset_ref r)

Written-rest :
    (s rest : Text) (r : Reference) → parse_rest s rest ≡ ok r → Written (s ++ (b':' ∷ rest)) r
unfolding parse_rest reference_text
Written-rest s rest r h = elim (Bool-cases (starts_with_slash rest)) [
  | inl starts ↦
      let (p, hp, e) = >>=-eq-ok (validate_storage_path s rest) _ r (rw starts at h) in
      let (slashes, all, q) = path-Trimmed s rest p hp in
      subst (Written (s ++ (b':' ∷ rest))) (ok_eq e)
        (slashes, all, ap (λ t. s ++ (b':' ∷ t)) q ∙ sym (append_assoc s (b':' ∷ p) slashes))
  | inr starts ↦
      let (n, hn, e) = >>=-eq-ok (validate_fileset_name rest) _ r (rw starts at h) in
      subst (Written (s ++ (b':' ∷ rest))) (ok_eq e)
        (ap (λ t. s ++ (b':' ∷ t)) (name_kept rest n hn))
]

Written-parts :
    (t : Text) (o : Option (Text × Text)) (r : Reference)
    → partition_colon t ≡ o
    → parse_parts o ≡ ok r
    → Written t r
unfolding parse_parts validate_storage_id
Written-parts t none r e h = absurd (ground arith)
Written-parts t (some (s, [])) r e h = absurd (ground arith)
Written-parts t (some (s, c ∷ u)) r e h = elim (Bool-cases (storage_id_match s)) [
  | inl id ↦
      subst (λ x. Written x r) (sym (partition-eq t s (c ∷ u) e))
        (Written-rest s (c ∷ u) r (rw id at h))
  | inr bad ↦ absurd (ground arith)
]

-- A text that parses gives a valid reference, whose own text is the text that was parsed but for the
-- slashes at the end of a path, all of which are dropped save a path's only one; and the reference's
-- own text parses to it again.
pub parse_reference-Valid :
    (t : Text) (r : Reference)
    → parse_reference t ≡ ok r
    → Valid r × Written t r × (parse_reference (reference_text r) ≡ ok r)
unfolding parse_reference
parse_reference-Valid t r h =
    let v = Valid-parts (partition_colon t) r h in
    (v, Written-parts t (partition_colon t) r refl h, parse-reference_text r v)

chomp-cases : (t : Text) → (chomp t ≡ t) ⊎ (t ≡ chomp t ++ (10 ∷ []))
unfolding chomp
chomp-cases [] = inl refl
chomp-cases (c ∷ []) = ground arith
chomp-cases (c ∷ d ∷ t) = ground (arith, chomp-cases (d ∷ t))

chomp-cons : (c : ℕ) (t : Text) → t ≢ [] → chomp (c ∷ t) ≡ c ∷ chomp t
unfolding chomp
chomp-cons c [] h = absurd (h refl)
chomp-cons c (d ∷ t) h = refl

append-ne-nil : (u : Text) → u ++ (10 ∷ []) ≢ []
append-ne-nil [] e = ground arith
append-ne-nil (c ∷ u) e = ground arith

chomp-append : (u : Text) → chomp (u ++ (10 ∷ [])) ≡ u
chomp-append [] = unfold chomp in refl
chomp-append (c ∷ u) = chomp-cons c (u ++ (10 ∷ [])) (append-ne-nil u) ∙ ap (◌∷◌ c) (chomp-append u)

name_accepted :
    (t : Text)
    → (fits is_alnum is_name_char 63 t ≡ true) ⊎ (fits is_alnum is_name_char 63 (chomp t) ≡ true)
    → validate_fileset_name t ≡ ok t
unfolding validate_fileset_name fileset_name_match
name_accepted t (inl h) = rw h
name_accepted t (inr h) = rw h (ground arith)

name_pattern :
    (t : Text)
    → validate_fileset_name t ≡ ok t
    → (fits is_alnum is_name_char 63 t ≡ true) ⊎ (fits is_alnum is_name_char 63 (chomp t) ≡ true)
unfolding validate_fileset_name fileset_name_match
name_pattern t h = ground arith

-- A name is accepted exactly when it fits the pattern, or is a line feed after a text that does:
-- the pattern's `$` lets one final line feed pass.
pub validate_fileset_name_iff :
    (name : Text)
    → (validate_fileset_name name ≡ ok name) ↔ (
        (fits is_alnum is_name_char 63 name ≡ true)
        ⊎ ((u : Text) × (name ≡ u ++ (10 ∷ [])) × (fits is_alnum is_name_char 63 u ≡ true)))
validate_fileset_name_iff name = (
  λ h. elim (name_pattern name h) [
    | inl e ↦ inl e
    | inr e ↦ elim (chomp-cases name) [
      | inl same ↦ inl (rw same at e)
      | inr cut ↦ inr (chomp name, cut, e)
    ]
  ],
  λ h. elim h [
    | inl e ↦ name_accepted name (inl e)
    | inr (u, e, f) ↦ name_accepted name (inr (rw (e, chomp-append u) f))
  ],
)
