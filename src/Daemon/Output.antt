-- ===== src/Daemon/Output.antt =====
-- engines/rsync.py: reading what rsync prints. Digits and white space are those of ASCII, and what
-- `float` and `int` make of an amount is an argument.
pub mod Pieces
use stashd.Prelude.{
  ℕ, ◌+◌, ◌*◌, ◌^◌, Text, codes, String, is_digit, same, Bool, true, false, not, ◌&&◌, ◌||◌, List,
  [], ◌∷◌, ◌++◌, Option, none, some, length, select, leb, ltb, ◌==◌, if◌then◌else◌,
}
use stashd.Domain.Units.{◌>>=◌, is_space, lstrip, digit_span, int_of}

abbrev pub is_break : ℕ → Bool
is_break c = c == 10 || c == 13

abbrev pub push_piece : ℕ → Text × List Text → Text × List Text
push_piece c (p, ps) = (c ∷ p, ps)

abbrev pub new_piece : Text × List Text → Text × List Text
new_piece (p, ps) = ([], p ∷ ps)

-- `re.split(r"[\r\n]", buffer)`: the first piece, and those after it.
unfoldable pub pieces : Text → Text × List Text
pieces [] = ([], [])
pieces (c ∷ t) = let rest = pieces t in if is_break c then new_piece rest else push_piece c rest

abbrev pub nonempty : Text → Bool
nonempty t = ltb 0 (length t)

-- The pieces before the last one, and `parts.pop()`.
unfoldable pub complete_pieces : Text → List Text → List Text
complete_pieces p [] = []
complete_pieces p (q ∷ ps) = p ∷ complete_pieces q ps

unfoldable pub last_piece : Text → List Text → Text
last_piece p [] = p
last_piece p (q ∷ ps) = last_piece q ps

-- `if buffer: yield buffer`.
abbrev pub remainder : Text → List Text
remainder [] = []
remainder (c ∷ t) = (c ∷ t) ∷ []

-- `_updates` with what the reads of the stream return, up to the first empty one.
unfoldable pub updates : Text → List Text → List Text
unfolding pieces complete_pieces last_piece
updates buffer [] = remainder buffer
updates buffer ([] ∷ chunks) = remainder buffer
updates buffer ((c ∷ chunk) ∷ chunks) =
    let (p, ps) = pieces (buffer ++ (c ∷ chunk)) in
    select nonempty (complete_pieces p ps) ++ updates (last_piece p ps) chunks

abbrev pub is_amount_char : ℕ → Bool
is_amount_char c = is_digit c || c == b','

-- The longest start of a text whose characters pass, and the rest.
unfoldable pub run_of : (ℕ → Bool) → Text → Text × Text
run_of ok [] = ([], [])
run_of ok (c ∷ t) =
    let (taken, rest) = run_of ok t in if ok c then (c ∷ taken, rest) else ([], c ∷ t)

-- `[KMGT]?`, as its value in `_SUFFIXES`.
abbrev pub take_scale : Text → ℕ × Text
take_scale [] = (1, [])
take_scale (c ∷ t) =
    if c == b'K'
    then (1000, t)
    else if c == b'M'
    then (1000 ^ 2, t)
    else if c == b'G'
    then (1000 ^ 3, t)
    else if c == b'T'
    then (1000 ^ 4, t)
    else (1, c ∷ t)

-- A run of one character at least, and what follows it.
abbrev pub some_run : Text × Text → Option (Text × Text)
some_run ([], rest) = none
some_run (c ∷ t, rest) = some (c ∷ t, rest)

unfoldable pub many : (ℕ → Bool) → Text → Option (Text × Text)
unfolding run_of
many ok t = some_run (run_of ok t)

-- One given character.
abbrev pub expect : ℕ → Text → Option Text
expect x [] = none
expect x (c ∷ t) = if c == x then some t else none

-- `\d{2}`.
abbrev pub two_digits : Text → Option Text
two_digits (a ∷ b ∷ t) = if is_digit a && is_digit b then some t else none
two_digits _ = none

-- `\s+\d+%\s+\S+\s+\d+:\d{2}:\d{2}`: whether the text goes on so.
unfoldable pub progress_tail : Text → Option Text
unfolding many run_of
progress_tail t = do
  (_, t1) ← many is_space t
  (_, t2) ← many is_digit t1
  t3 ← expect b'%' t2
  (_, t4) ← many is_space t3
  (_, t5) ← many (λ c. not (is_space c)) t4
  (_, t6) ← many is_space t5
  (_, t7) ← many is_digit t6
  t8 ← expect b':' t7
  t9 ← two_digits t8
  t10 ← expect b':' t9
  two_digits t10

-- `_PROGRESS.match`: the amount and the factor of its suffix.
unfoldable pub progress_match : Text → Option (Text × ℕ)
unfolding lstrip many run_of progress_tail
progress_match line = do
  (amount, rest) ← many (λ c. is_digit c || c == b',' || c == b'.') (lstrip line)
  let (scale, after) = take_scale rest
  _ ← progress_tail after
  some (amount, scale)

abbrev pub without_commas : Text → Text
without_commas t = select (λ c. not (c == b',')) t

-- The text after a given start.
unfoldable pub after_start : Text → Text → Option Text
after_start [] t = some t
after_start (x ∷ xs) [] = none
after_start (x ∷ xs) (c ∷ t) = let rest = after_start xs t in if c == x then rest else none

-- `\s*([\d,]+)` after a heading, at this place.
unfoldable pub headed : Text → Text → Option Text
unfolding lstrip many run_of after_start
headed heading t = do
  rest ← after_start heading t
  (amount, _) ← many is_amount_char (lstrip rest)
  some amount

abbrev pub first_found : Option Text → Option Text → Option Text
first_found none later = later
first_found (some a) later = some a

-- `pattern.search(output)`, whose `^` is the start of any line; `start` tells whether this place is.
unfoldable pub search_amount : Text → Bool → Text → Option Text
unfolding headed
search_amount heading start [] = none
search_amount heading start (c ∷ t) =
    let later = search_amount heading (c == 10) t in
    if start then first_found (headed heading (c ∷ t)) later else later
