-- ===== src/Domain/References/Names.antt =====
-- domain/references.py: what the characters of an accepted fileset name are.
use stashd.Prelude.{
  ℕ, Text, Bool, true, false, not, [], ◌∷◌, every, ◌==◌, ◌≡◌, refl, arith, Bool-cases, inl, inr,
}
use stashd.Domain.References.{fits, is_alnum, is_name_char, chomp, fileset_name_match}

-- A character that may stand in one part of a path.
abbrev pub part_char : ℕ → Bool
part_char c = not (c == b'/')

free-chars : (s : Text) → every is_name_char s ≡ true → every part_char s ≡ true
free-chars [] h = refl
free-chars (c ∷ s) h = ground (arith, free-chars s)

free-fits : (s : Text) → fits is_alnum is_name_char 63 s ≡ true → every part_char s ≡ true
unfolding fits
free-fits [] h = refl
free-fits (c ∷ s) h = ground (arith, free-chars s)

free-chomp : (s : Text) → every part_char (chomp s) ≡ true → every part_char s ≡ true
unfolding chomp
free-chomp [] h = refl
free-chomp (c ∷ []) h = ground arith
free-chomp (c ∷ d ∷ s) h = ground (arith, free-chomp (d ∷ s))

-- An accepted name holds no slash, and starts with a letter or a digit.
pub name-free : (name : Text) → fileset_name_match name ≡ true → every part_char name ≡ true
unfolding fileset_name_match
name-free name h = elim (Bool-cases (fits is_alnum is_name_char 63 name)) [
  | inl e ↦ free-fits name e
  | inr e ↦ free-chomp name (free-fits (chomp name) (rw e at h))
]

abbrev pub first_alnum : Text → Bool
first_alnum [] = false
first_alnum (c ∷ t) = is_alnum c

pub name-first : (name : Text) → fileset_name_match name ≡ true → first_alnum name ≡ true
unfolding fileset_name_match fits chomp
name-first [] h = ground arith
name-first (c ∷ []) h = ground arith
name-first (c ∷ d ∷ t) h = ground arith
