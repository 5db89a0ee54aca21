-- ===== src/Domain/Units.antt =====
-- domain/units.py: the size, rate and duration literals of the config. Texts are ASCII; `none` is
-- where the source raises ValueError or, for a duration, OverflowError. Durations are microseconds.
pub mod RoundTrip
pub mod Durations
pub mod Sizes
pub mod Written
use stashd.Prelude.{
  ℕ, ◌+◌, ◌*◌, ◌/◌, ◌%◌, ◌^◌, Text, is_digit, value_from, Bool, true, false, not, ◌&&◌, ◌||◌, List,
  [], ◌∷◌, ◌++◌, Option, none, some, length, ltb, leb, ◌==◌, if◌then◌else◌,
}
use stashd.Prelude.Int.{ℤ, pos, negsuc}

-- What the YAML holds: an integer or a string.
pub data Literal : Type 0 where
  int : ℤ → Literal
  str : Text → Literal

infixl 5 ◌>>=◌
abbrev pub ◌>>=◌ {ℓ κ} : {A : Type ℓ} {B : Type κ} → Option A → (A → Option B) → Option B
none >>= f = none
some a >>= f = f a

-- Python's white space among ASCII.
abbrev pub is_space : ℕ → Bool
is_space c = (leb 9 c && leb c 13) || (leb 28 c && leb c 32)

unfoldable pub lstrip : Text → Text
lstrip [] = []
lstrip (c ∷ t) = if is_space c then lstrip t else c ∷ t

abbrev pub rstrip_cons : ℕ → Text → Text
rstrip_cons c [] = if is_space c then [] else c ∷ []
rstrip_cons c (d ∷ u) = c ∷ d ∷ u

unfoldable pub rstrip : Text → Text
rstrip [] = []
rstrip (c ∷ t) = rstrip_cons c (rstrip t)

-- `value.strip()`.
unfoldable pub strip : Text → Text
unfolding lstrip rstrip
strip t = rstrip (lstrip t)

abbrev pub in_front : ℕ → Text × Text → Text × Text
in_front c (a, b) = (c ∷ a, b)

-- The digits a text starts with, and the rest.
unfoldable pub digit_span : Text → Text × Text
digit_span [] = ([], [])
digit_span (c ∷ t) = let more = digit_span t in if is_digit c then in_front c more else ([], c ∷ t)

-- `int(digits)`: none, or more than 4300 of them, are a ValueError.
unfoldable pub int_of : Text → Option ℕ
unfolding value_from
int_of t = if ltb 0 (length t) && leb (length t) 4300 then some (value_from 0 t) else none

-- `(?P<prefix>[kKMGTP])`, as the power of the base in `_SI` and `_IEC`; 0 for any other letter.
abbrev pub exponent : ℕ → ℕ
exponent c =
    if c == b'k' || c == b'K'
    then 1
    else if c == b'M'
    then 2
    else if c == b'G'
    then 3
    else if c == b'T'
    then 4
    else if c == b'P'
    then 5
    else 0

-- `(?P<prefix>[kKMGTP])?`.
abbrev pub take_prefix : Text → ℕ × Text
take_prefix [] = (0, [])
take_prefix (c ∷ t) = if exponent c == 0 then (0, c ∷ t) else (exponent c, t)

-- `(?P<iec>i)?`, as the base of the table chosen.
abbrev pub take_iec : Text → ℕ × Text
take_iec [] = (1000, [])
take_iec (c ∷ t) = if c == b'i' then (1024, t) else (1000, c ∷ t)

-- `B?$`.
abbrev pub size_end : Text → Bool
size_end [] = true
size_end (c ∷ []) = c == b'B'
size_end (c ∷ d ∷ t) = false

-- The factor named by what follows the digits.
abbrev pub factor_iec : ℕ → ℕ × Text → Option ℕ
factor_iec e (base, t) = if size_end t then some (base ^ e) else none

abbrev pub factor_of : ℕ × Text → Option ℕ
factor_of (e, t) = factor_iec e (take_iec t)

abbrev pub size_parts : Text × Text → Option ℕ
unfolding int_of lstrip
size_parts (digits, rest) = do
  factor ← factor_of (take_prefix (lstrip rest))
  n ← int_of digits
  some (n * factor)

unfoldable pub parse_size_text : Text → Option ℕ
unfolding strip digit_span int_of lstrip
parse_size_text value = size_parts (digit_span (strip value))

unfoldable pub parse_size : Literal → Option ℕ
unfolding parse_size_text
parse_size (int (pos n)) = some n
parse_size (int (negsuc n)) = none
parse_size (str value) = parse_size_text value

-- `bit$`.
abbrev pub is_bit : Text → Bool
is_bit (b ∷ i ∷ t ∷ []) = b == b'b' && i == b'i' && t == b't'
is_bit _ = false

-- `_RATE_BIT_RE.match`: the digits and the factor; `none` where it does not match.
abbrev pub bit_factor : ℕ × Text → Option ℕ
bit_factor (e, t) = if is_bit t then some (1000 ^ e) else none

abbrev pub bit_parts : Text × Text → Option (Text × ℕ)
unfolding lstrip
bit_parts (digits, rest) =
    if ltb 0 (length digits)
    then (do factor ← bit_factor (take_prefix (lstrip rest)); some (digits, factor))
    else none

-- `text.removesuffix("/s")`.
unfoldable pub remove_per_second : Text → Text
remove_per_second [] = []
remove_per_second (c ∷ []) = c ∷ []
remove_per_second (c ∷ d ∷ []) = if c == b'/' && d == b's' then [] else c ∷ d ∷ []
remove_per_second (c ∷ d ∷ e ∷ t) = c ∷ remove_per_second (d ∷ e ∷ t)

-- A bit rate must come out in whole bytes.
abbrev pub whole_bytes : ℕ → Option ℕ
whole_bytes total = if total % 8 == 0 then some (total / 8) else none

abbrev pub rate_text : Text → Option (Text × ℕ) → Option ℕ
unfolding parse_size_text remove_per_second int_of
rate_text t none = parse_size_text (remove_per_second t)
rate_text t (some (digits, factor)) = do n ← int_of digits; whole_bytes (n * factor)

unfoldable pub parse_rate : Literal → Option ℕ
unfolding strip digit_span parse_size_text remove_per_second int_of lstrip
parse_rate (int (pos n)) = some n
parse_rate (int (negsuc n)) = none
parse_rate (str value) = let t = strip value in rate_text t (bit_parts (digit_span t))
