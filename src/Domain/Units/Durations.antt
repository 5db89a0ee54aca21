-- ===== src/Domain/Units/Durations.antt =====
-- domain/units.py: `parse_duration`, the parts of a duration and their sum.
use stashd.Prelude.{
  ℕ, ◌+◌, ◌*◌, ◌^◌, zero, suc, Text, List, [], ◌∷◌, Option, none, some, length, ltb, ◌==◌,
  if◌then◌else◌,
}
use stashd.Domain.Units.{◌>>=◌, digit_span, strip, int_of}

-- `ns|us|ms|s|m|h|d`.
pub data Span : Type 0 where
  ns us ms second minute hour day : Span

-- `_DURATION_UNITS`, in microseconds: `timedelta(microseconds=0.001)` is rounded to 0.
abbrev pub microseconds : Span → ℕ
microseconds ns = 0
microseconds us = 1
microseconds ms = 1000
microseconds second = 1000000
microseconds minute = 60000000
microseconds hour = 3600000000
microseconds day = 86400000000

-- A two-letter unit ends in `s`.
abbrev pub two_letters : Span → Text → Option (Span × Text)
two_letters u [] = none
two_letters u (c ∷ t) = if c == b's' then some (u, t) else none

-- The unit `m`, unless an `s` follows.
abbrev pub minutes : Text → Option (Span × Text)
minutes [] = some (minute, [])
minutes (c ∷ t) = if c == b's' then some (ms, t) else some (minute, c ∷ t)

abbrev pub take_unit : Text → Option (Span × Text)
take_unit [] = none
take_unit (c ∷ t) =
    if c == b'n'
    then two_letters ns t
    else if c == b'u'
    then two_letters us t
    else if c == b'm'
    then minutes t
    else if c == b's'
    then some (second, t)
    else if c == b'h'
    then some (hour, t)
    else if c == b'd'
    then some (day, t)
    else none

abbrev pub with_digits : Text → Option (Span × Text) → Option ((Text × Span) × Text)
with_digits digits none = none
with_digits digits (some (u, t)) = some ((digits, u), t)

-- One match of `_DURATION_RE` at the start, and the text after it.
abbrev pub part_of : Text × Text → Option ((Text × Span) × Text)
part_of (digits, rest) = if ltb 0 (length digits) then with_digits digits (take_unit rest) else none

-- `_DURATION_FULL_RE.match` and `_DURATION_RE.finditer`: the parts that make up the text, on fuel
-- for one part to a character.
unfoldable pub parts : ℕ → Text → Option (List (Text × Span))
unfolding digit_span
parts fuel [] = some []
parts zero (c ∷ t) = none
parts (suc fuel) (c ∷ t) = do
  (part, rest) ← part_of (digit_span (c ∷ t))
  more ← parts fuel rest
  some (part ∷ more)

-- A `timedelta` past 999999999 days is an OverflowError.
abbrev pub timedelta : ℕ → Option ℕ
timedelta amount = if ltb amount (10 ^ 9 * 86400000000) then some amount else none

-- `sum(int(value) * unit, ..., timedelta())`.
unfoldable pub total : ℕ → List (Text × Span) → Option ℕ
unfolding int_of
total sum [] = some sum
total sum ((digits, u) ∷ more) = do
  n ← int_of digits
  product ← timedelta (n * microseconds u)
  next ← timedelta (sum + product)
  total next more

-- The pattern asks for one part at least.
abbrev pub nonempty : List (Text × Span) → Option (List (Text × Span))
nonempty [] = none
nonempty (p ∷ ps) = some (p ∷ ps)

unfoldable pub parse_duration : Text → Option ℕ
unfolding strip parts total
parse_duration value = do
  let t = strip value
  found ← parts (length t) t
  found_parts ← nonempty found
  total 0 found_parts
