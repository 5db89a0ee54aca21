-- ===== src/Daemon/Output/Pieces.antt =====
-- engines/rsync.py: `_updates` yields the same lines however the stream is cut into reads.
use stashd.Prelude.{
  ℕ, Text, Bool, true, false, not, List, [], ◌∷◌, ◌++◌, every, select, ◌≡◌, refl, sym, ap, ◌∙◌,
  arith, Bool-cases, inl, inr,
}
use mathlib.Core.List.{append-nil, append_assoc}
use stashd.Daemon.Output.{
  is_break, push_piece, pieces, nonempty, complete_pieces, last_piece, remainder, updates,
}

abbrev as_list : Text × List Text → List Text
as_list (p, ps) = p ∷ ps

-- The lines of a text, ended by a line feed or a carriage return, the empty ones left out.
unfoldable pub lines_of : Text → List Text
unfolding pieces
lines_of t = select nonempty (as_list (pieces t))

unfoldable pub joined : List Text → Text
joined [] = []
joined (t ∷ ts) = t ++ joined ts

abbrev last_of : Text × List Text → Text
unfolding last_piece
last_of (p, ps) = last_piece p ps

abbrev left : Text × List Text → Text → Text
unfolding last_piece
left x t = last_of x ++ t

abbrev done : Text × List Text → List Text
unfolding complete_pieces
done (p, ps) = complete_pieces p ps

pushed :
    (c : ℕ) (x a : Text × List Text) (t : Text)
    → is_break c ≡ false
    → as_list a ≡ done x ++ as_list (pieces (left x t))
    → as_list (push_piece c a) ≡ done (push_piece c x) ++ as_list (pieces (left (push_piece c x) t))
unfolding complete_pieces last_piece pieces
pushed c (p, []) (a, qs) t off h = ground arith
pushed c (p, q ∷ ps) (a, qs) t off h = ground arith

pieces-append :
    (s t : Text)
    → as_list (pieces (s ++ t)) ≡ done (pieces s) ++ as_list (pieces (left (pieces s) t))
unfolding complete_pieces last_piece pieces
pieces-append [] t = refl
pieces-append (c ∷ s) t = elim (Bool-cases (is_break c)) [
  | inl e ↦ rw e (ap (λ r. [] ∷ r) (pieces-append s t))
  | inr e ↦ rw e (pushed c (pieces s) (pieces (s ++ t)) t e (pieces-append s t))
]

abbrev unbroken : Text → Bool
unbroken t = every (λ c. not (is_break c)) t

pieces-unbroken : (t : Text) → unbroken t ≡ true → pieces t ≡ (t, [])
unfolding pieces
pieces-unbroken [] h = refl
pieces-unbroken (c ∷ t) h = ground (arith, pieces-unbroken t)

last_push :
    (c : ℕ) (x : Text × List Text)
    → is_break c ≡ false
    → unbroken (last_of x) ≡ true
    → unbroken (last_of (push_piece c x)) ≡ true
unfolding last_piece
last_push c (p, []) off h = ground arith
last_push c (p, q ∷ ps) off h = h

last-unbroken : (s : Text) → unbroken (last_of (pieces s)) ≡ true
unfolding pieces last_piece
last-unbroken [] = refl
last-unbroken (c ∷ s) = elim (Bool-cases (is_break c)) [
  | inl e ↦ rw e (last-unbroken s)
  | inr e ↦ rw e (last_push c (pieces s) e (last-unbroken s))
]

select-append {ℓ} :
    {A : Type ℓ} (p : A → Bool) (s t : List A) → select p (s ++ t) ≡ select p s ++ select p t
select-append p [] t = refl
select-append p (x ∷ s) t = grind (arith, select-append p s t)

first_line : (c : ℕ) (t : Text) → (c ∷ t) ∷ [] ≡ select nonempty ((c ∷ t) ∷ [])
first_line c t = ground arith

remainder-lines_of : (t : Text) → unbroken t ≡ true → remainder t ≡ lines_of (t ++ [])
unfolding lines_of pieces
remainder-lines_of [] h = refl
remainder-lines_of (c ∷ t) h =
    first_line c t
    ∙ sym (
        ap lines_of (append-nil (c ∷ t))
        ∙ ap (λ x. select nonempty (as_list x)) (pieces-unbroken (c ∷ t) h))

read_more :
    (s rest : Text) (more : List Text)
    → more ≡ lines_of (left (pieces s) rest)
    → select nonempty (done (pieces s)) ++ more ≡ lines_of (s ++ rest)
unfolding lines_of
read_more s rest more h =
    ap (λ m. select nonempty (done (pieces s)) ++ m) h
    ∙ sym (select-append nonempty (done (pieces s)) (as_list (pieces (left (pieces s) rest))))
    ∙ sym (ap (select nonempty) (pieces-append s rest))

-- Every read but the last, empty one returned something.
abbrev pub Full : List Text → Type 0
Full chunks = every nonempty chunks ≡ true

updates_from :
    (buffer : Text) (chunks : List Text)
    → unbroken buffer ≡ true
    → Full chunks
    → updates buffer chunks ≡ lines_of (buffer ++ joined chunks)
unfolding updates joined
updates_from buffer [] plain full = remainder-lines_of buffer plain
updates_from buffer ([] ∷ chunks) plain full = absurd (ground arith)
updates_from buffer ((c ∷ chunk) ∷ chunks) plain full =
    let s = buffer ++ (c ∷ chunk) in
    read_more s (joined chunks) (updates (last_of (pieces s)) chunks)
      (updates_from (last_of (pieces s)) chunks (last-unbroken s) (ground (arith)))
    ∙ ap lines_of (append_assoc buffer (c ∷ chunk) (joined chunks))

-- However the stream is cut into reads, each of one character at least, the updates are the lines
-- of the whole output, in order: the runs without a carriage return or line feed that are not empty.
pub updates-lines_of :
    (chunks : List Text) → Full chunks → updates [] chunks ≡ lines_of (joined chunks)
updates-lines_of chunks full = updates_from [] chunks refl full
