-- ===== src/Config/Modes.antt =====
-- The check of a fileset's mode in config/cluster.py (_mode), with Python's int(text, 8).
pub mod Typed
use stashd.Prelude.{
  ℕ, ◌+◌, ◌-◌, ◌*◌, ◌≤◌, ◌≡◌, refl, Text, codes, digits_of, Bool, true, false, ◌&&◌, ◌||◌, ◌==◌,
  leb, [], ◌∷◌, Option, none, some, if◌then◌else◌, arith,
}
use stashd.Prelude.Int.{ℤ, pos, negsuc}
use stashd.Domain.Units.{strip}

-- What YAML makes of the value: an integer, a text, or anything else, a Boolean among it.
pub data Value : Type 0 where
  number : ℤ → Value
  written : Text → Value
  other : Value

abbrev pub is_octal : ℕ → Bool
is_octal c = leb b'0' c && leb c b'7'

-- Digits, with single underscores between them; `ready` is whether an underscore or the end may come.
unfoldable pub octal_digits : Bool → ℕ → Text → Option ℕ
octal_digits ready acc [] = if ready then some acc else none
octal_digits ready acc (c ∷ t) =
    let more = octal_digits true (acc * 8 + (c - b'0')) t in
    let past = octal_digits false acc t in
    if is_octal c then more else if ready && c == b'_' then past else none

-- After the prefix an underscore may come.
abbrev pub past_underscore : Text → Text
past_underscore [] = []
past_underscore (c ∷ t) = if c == b'_' then t else c ∷ t

unfoldable pub unsigned : Text → Option ℕ
unfolding octal_digits
unsigned (b ∷ c ∷ t) =
    if (c == b'o' || c == b'O') && b == b'0'
    then octal_digits false 0 (past_underscore t)
    else octal_digits false 0 (b ∷ c ∷ t)
unsigned t = octal_digits false 0 t

-- Whether there is a minus, and the number.
abbrev pub with_sign : Bool → Option ℕ → Option (Bool × ℕ)
with_sign minus none = none
with_sign minus (some n) = some (minus, n)

unfoldable pub signed : Text → Option (Bool × ℕ)
unfolding unsigned
signed [] = none
signed (c ∷ t) =
    if c == b'-'
    then with_sign true (unsigned t)
    else with_sign false (if c == b'+' then unsigned t else unsigned (c ∷ t))

-- `0 <= mode <= 0o777`; minus zero is zero.
abbrev pub in_range : Option (Bool × ℕ) → Option ℕ
in_range none = none
in_range (some (true, n)) = if n == 0 then some 0 else none
in_range (some (false, n)) = if leb n 511 then some n else none

-- `str(value)` of an integer.
unfoldable pub int_text : ℤ → Text
unfolding digits_of
int_text (pos n) = digits_of n
int_text (negsuc n) = b'-' ∷ digits_of (n + 1)

-- `_mode`; `none` where it raises.
unfoldable pub fileset_mode : Value → Option ℕ
unfolding signed strip int_text
fileset_mode (number n) = in_range (signed (strip (int_text n)))
fileset_mode (written t) = in_range (signed (strip t))
fileset_mode other = none
