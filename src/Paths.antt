-- ===== src/Paths.antt =====
-- The part of Python's `pathlib.PurePosixPath` that drivers/posix.py relies on: a path is its root
-- and its parts, empty and `.` parts being dropped when it is parsed; `..` is kept.
pub mod Printing
use stashd.Prelude.{
  ℕ, zero, suc, Text, codes, String, same, Bool, true, false, not, ◌&&◌, ◌||◌, List, [], ◌∷◌, ◌++◌,
  select, ◌==◌, if◌then◌else◌,
}
use stashd.Domain.References.{split_slash}

-- How many slashes the root has: none, one, or two where a text starts with exactly two.
pub record PosixPath : Type 0 where
  pub root : ℕ
  pub parts : List Text

unfoldable pub root_of : Text → ℕ
root_of [] = 0
root_of (a ∷ []) = if a == b'/' then 1 else 0
root_of (a ∷ b ∷ []) = if a == b'/' then (if b == b'/' then 2 else 1) else 0
root_of (a ∷ b ∷ c ∷ t) = if a == b'/' then (if b == b'/' && not (c == b'/') then 2 else 1) else 0

-- A part that parsing keeps.
unfoldable pub kept : Text → Bool
unfolding same
kept part = not (same part [] || same part (b'.' ∷ []))

unfoldable pub parts_of : Text → List Text
unfolding split_slash kept
parts_of t = select kept (split_slash t)

-- `Path(text)`.
unfoldable pub parse : Text → PosixPath
unfolding root_of parts_of
parse t = record { root = root_of t; parts = parts_of t }

-- `path / text`: a text with a root of its own replaces the path.
unfoldable pub join : PosixPath → Text → PosixPath
unfolding root_of parts_of
join p t =
    if root_of t == 0
    then record { root = p.root; parts = p.parts ++ parts_of t }
    else record { root = root_of t; parts = parts_of t }

unfoldable pub slashes : ℕ → Text
slashes zero = []
slashes (suc n) = b'/' ∷ slashes n

-- The parts with a slash joined_parts them.
unfoldable pub joined_parts : List Text → Text
joined_parts [] = []
joined_parts (s ∷ []) = s
joined_parts (s ∷ r ∷ ss) = s ++ (b'/' ∷ joined_parts (r ∷ ss))

abbrev pub dot_if_empty : Text → Text
dot_if_empty [] = b'.' ∷ []
dot_if_empty (c ∷ t) = c ∷ t

-- `str(path)`.
unfoldable pub print : PosixPath → Text
unfolding slashes joined_parts
print p = dot_if_empty (slashes p.root ++ joined_parts p.parts)

unfoldable pub same_parts : List Text → List Text → Bool
unfolding same
same_parts [] [] = true
same_parts [] (t ∷ ts) = false
same_parts (s ∷ ss) [] = false
same_parts (s ∷ ss) (t ∷ ts) = same s t && same_parts ss ts

-- `p == q`.
unfoldable pub same_path : PosixPath → PosixPath → Bool
unfolding same_parts
same_path p q = p.root == q.root && same_parts p.parts q.parts

-- Whether the parts start with these, and go on.
unfoldable pub proper_start : List Text → List Text → Bool
unfolding same
proper_start [] [] = false
proper_start [] (t ∷ ts) = true
proper_start (s ∷ ss) [] = false
proper_start (s ∷ ss) (t ∷ ts) = same s t && proper_start ss ts

-- `p in q.parents`.
unfoldable pub is_parent : PosixPath → PosixPath → Bool
unfolding proper_start
is_parent p q = p.root == q.root && proper_start p.parts q.parts
