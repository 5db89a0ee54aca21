-- ===== src/Paths/Printing.antt =====
-- Paths printed and parsed again, and compared.
use stashd.Prelude.{
  ℕ, zero, suc, ◌≤◌, Text, same, same_refl, Bool, true, false, not, List, [], ◌∷◌, ◌++◌, select,
  every, All, ◌==◌, ◌≡◌, refl, sym, ap, ◌∙◌, arith, Bool-cases, inl, inr,
}
use mathlib.Core.List.{append-nil}
use stashd.Domain.References.{split_slash, push_first, starts_with_slash}
use stashd.Paths.{
  PosixPath, root_of, kept, parts_of, parse, join, slashes, joined_parts, print, same_parts,
  same_path, proper_start, dot_if_empty,
}

abbrev slash_free : Text → Bool
slash_free s = every (λ c. not (c == b'/')) s

-- A part as parsing makes it: neither empty nor `.`, and with no slash.
abbrev pub Part : Text → Type 0
Part s = (kept s ≡ true) × (slash_free s ≡ true)

pub record WellFormed (p : PosixPath) : Type 0 where
  pub root_small : p.root ≤ 2
  pub parts_kept : All Part p.parts

pub split-free : (s : Text) → slash_free s ≡ true → split_slash s ≡ s ∷ []
unfolding split_slash
split-free [] h = refl
split-free (c ∷ s) h = ground (arith, split-free s)

split-append :
    (s t : Text) → slash_free s ≡ true → split_slash (s ++ (b'/' ∷ t)) ≡ s ∷ split_slash t
unfolding split_slash
split-append [] t h = refl
split-append (c ∷ s) t h = ground (arith, split-append s t)

kept-empty : kept [] ≡ false
unfolding kept same
kept-empty = refl

parts_of-joined_parts : (ss : List Text) → All Part ss → parts_of (joined_parts ss) ≡ ss
unfolding parts_of joined_parts kept same
parts_of-joined_parts [] h = refl
parts_of-joined_parts (s ∷ []) ((k, f), h) = rw (split-free s f) (ground arith)
parts_of-joined_parts (s ∷ r ∷ ss) ((k, f), h) =
    rw (split-append s (joined_parts (r ∷ ss)) f) (ground (arith, parts_of-joined_parts (r ∷ ss) h))

parts_of-slashes : (n : ℕ) (t : Text) → parts_of (slashes n ++ t) ≡ parts_of t
unfolding parts_of slashes split_slash kept same
parts_of-slashes zero t = refl
parts_of-slashes (suc n) t = parts_of-slashes n t

part-starts :
    (s t : Text) → kept s ≡ true → slash_free s ≡ true → starts_with_slash (s ++ t) ≡ false
unfolding kept same
part-starts [] t k f = absurd (ground arith)
part-starts (c ∷ s) t k f = ground arith

joined_parts-starts : (ss : List Text) → All Part ss → starts_with_slash (joined_parts ss) ≡ false
unfolding joined_parts
joined_parts-starts [] h = refl
joined_parts-starts (s ∷ []) ((k, f), h) =
    ap starts_with_slash (sym (append-nil s)) ∙ part-starts s [] k f
joined_parts-starts (s ∷ r ∷ ss) ((k, f), h) = part-starts s (b'/' ∷ joined_parts (r ∷ ss)) k f

pub root_of-slashes :
    (n : ℕ) (t : Text) → n ≤ 2 → starts_with_slash t ≡ false → root_of (slashes n ++ t) ≡ n
unfolding root_of slashes
root_of-slashes zero [] h e = refl
root_of-slashes zero (a ∷ []) h e = ground arith
root_of-slashes zero (a ∷ b ∷ []) h e = ground arith
root_of-slashes zero (a ∷ b ∷ c ∷ t) h e = ground arith
root_of-slashes (suc zero) [] h e = refl
root_of-slashes (suc zero) (a ∷ []) h e = ground arith
root_of-slashes (suc zero) (a ∷ b ∷ t) h e = ground arith
root_of-slashes (suc (suc zero)) [] h e = refl
root_of-slashes (suc (suc zero)) (a ∷ t) h e = ground arith
root_of-slashes (suc (suc (suc n))) t h e = absurd (omega arith)

parse-dot : (t : Text) → parse (dot_if_empty t) ≡ parse t
unfolding parse root_of parts_of split_slash kept same
parse-dot [] = refl
parse-dot (c ∷ t) = refl

abbrev path_with : ℕ → List Text → PosixPath
path_with n ss = record { root = n; parts = ss }

-- A path in the form that parsing gives prints as a text that parses to it.
pub parse-print : (p : PosixPath) → WellFormed p → parse (print p) ≡ p
unfolding parse print parts_of
parse-print p wf =
    parse-dot (slashes p.root ++ joined_parts p.parts)
    ∙ ap (λ n. path_with n (parts_of (slashes p.root ++ joined_parts p.parts)))
        (root_of-slashes p.root (joined_parts p.parts) wf.root_small
          (joined_parts-starts p.parts wf.parts_kept))
    ∙ ap (path_with p.root) (
        parts_of-slashes p.root (joined_parts p.parts)
        ∙ parts_of-joined_parts p.parts wf.parts_kept)

All-append {ℓ κ} : {A : Type ℓ} (P : A → Type κ) (s t : List A) → All P s → All P t → All P (s ++ t)
All-append P [] t h k = k
All-append P (x ∷ s) t h k = (h.0, All-append P s t h.1 k)

free-push :
    (c : ℕ) (ss : List Text)
    → (c == b'/') ≡ false
    → All (λ s. slash_free s ≡ true) ss
    → All (λ s. slash_free s ≡ true) (push_first c ss)
free-push c [] e h = (rw e, tt)
free-push c (s ∷ ss) e h = (rw e h.0, h.1)

free-split : (t : Text) → All (λ s. slash_free s ≡ true) (split_slash t)
unfolding split_slash
free-split [] = (refl, tt)
free-split (c ∷ t) = elim (Bool-cases (c == b'/')) [
  | inl e ↦ rw e (refl, free-split t)
  | inr e ↦ rw e (free-push c (split_slash t) e (free-split t))
]

Part-select : (ss : List Text) → All (λ s. slash_free s ≡ true) ss → All Part (select kept ss)
Part-select [] h = tt
Part-select (s ∷ ss) h = elim (Bool-cases (kept s)) [
  | inl e ↦ rw e ((e, h.0), Part-select ss h.1)
  | inr e ↦ rw e (Part-select ss h.1)
]

parts_of-Part : (t : Text) → All Part (parts_of t)
unfolding parts_of
parts_of-Part t = Part-select (split_slash t) (free-split t)

root_of-small : (t : Text) → root_of t ≤ 2
unfolding root_of
root_of-small [] = omega arith
root_of-small (a ∷ []) = ground arith
root_of-small (a ∷ b ∷ []) = ground arith
root_of-small (a ∷ b ∷ c ∷ t) = ground arith

-- A relative text joined to a path in that form leaves it so.
pub join-WellFormed : (p : PosixPath) (t : Text) → WellFormed p → WellFormed (join p t)
unfolding join
join-WellFormed p t wf = elim (Bool-cases (root_of t == 0)) [
  | inl e ↦ rw e (record {
    root_small = wf.root_small;
    parts_kept = All-append Part p.parts (parts_of t) wf.parts_kept (parts_of-Part t);
  })
  | inr e ↦ rw e (record { root_small = root_of-small t; parts_kept = parts_of-Part t })
]

pub same_parts_refl : (ss : List Text) → same_parts ss ss ≡ true
unfolding same_parts
same_parts_refl [] = refl
same_parts_refl (s ∷ ss) = grind (arith, same_refl s, same_parts_refl ss)

pub same_path_refl : (p : PosixPath) → same_path p p ≡ true
unfolding same_path
same_path_refl p = ground (arith, same_parts_refl p.parts)

-- Parts with further ones after them, the last of them given.
pub proper_start-append :
    (ss mid : List Text) (s : Text) → proper_start ss ((ss ++ mid) ++ (s ∷ [])) ≡ true
unfolding proper_start
proper_start-append [] [] s = refl
proper_start-append [] (m ∷ mid) s = refl
proper_start-append (x ∷ ss) mid s = grind (arith, same_refl x, proper_start-append ss mid s)
