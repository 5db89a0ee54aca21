-- ===== src/Domain/Units/Written.antt =====
-- domain/units.py: durations that are written out part by part and read back.
use stashd.Prelude.{
  ℕ, ◌+◌, ◌*◌, ◌^◌, ◌≤◌, ◌<◌, zero, suc, Text, is_digit, digits_of, digits_of-every, Bool, true,
  not, List, [], ◌∷◌, ◌++◌, map, All, some, length, every, ltb, ◌==◌, ◌≡◌, refl, arith, codes,
  length-append,
}
use stashd.Domain.Units.{digit_span}
use stashd.Domain.Units.Durations.{
  Span, ns, us, ms, second, minute, hour, day, microseconds, take_unit, part_of, parts, total,
  parse_duration,
}
use stashd.Domain.Units.RoundTrip.{
  solid, every-append, strip-solid, digits-solid, starts_plain, digit_span-append, int_of-digits_of,
}

abbrev unit_text : Span → Text
unit_text ns = codes "ns"
unit_text us = codes "us"
unit_text ms = codes "ms"
unit_text second = codes "s"
unit_text minute = codes "m"
unit_text hour = codes "h"
unit_text day = codes "d"

-- `1h30m` as its parts, written out.
unfoldable pub duration_literal : List (ℕ × Span) → Text
duration_literal [] = []
duration_literal ((n, u) ∷ ps) = digits_of n ++ (unit_text u ++ duration_literal ps)

-- What a unit is worth in microseconds. A nanosecond is less than one, and is dropped.
abbrev pub worth : Span → ℕ
worth ns = 0
worth us = 1
worth ms = 1000
worth second = 1000 * 1000
worth minute = 60 * (1000 * 1000)
worth hour = 60 * (60 * (1000 * 1000))
worth day = 24 * (60 * (60 * (1000 * 1000)))

microseconds-worth : (u : Span) → microseconds u ≡ worth u
microseconds-worth ns = refl
microseconds-worth us = refl
microseconds-worth ms = refl
microseconds-worth second = refl
microseconds-worth minute = refl
microseconds-worth hour = refl
microseconds-worth day = refl

-- The microseconds the parts stand for.
abbrev pub amount_of : List (ℕ × Span) → ℕ
amount_of [] = 0
amount_of ((n, u) ∷ ps) = n * worth u + amount_of ps

-- Every part has at most 4300 digits.
abbrev pub Short : ℕ × Span → Type 0
Short (n, u) = length (digits_of n) ≤ 4300

abbrev no_s : Text → Bool
no_s [] = true
no_s (c ∷ t) = not (c == b's')

abbrev as_read : ℕ × Span → Text × Span
as_read (n, u) = (digits_of n, u)

unit-solid :
    (u : Span) (t : Text)
    → solid t ≡ true
    → (solid (unit_text u ++ t) ≡ true) × (starts_plain (unit_text u ++ t) ≡ true)
unit-solid u t h = ground arith

take_unit-unit_text :
    (u : Span) (t : Text) → no_s t ≡ true → take_unit (unit_text u ++ t) ≡ some (u, t)
take_unit-unit_text ns t h = refl
take_unit-unit_text us t h = refl
take_unit-unit_text ms t h = refl
take_unit-unit_text second t h = refl
take_unit-unit_text minute t h = ground arith
take_unit-unit_text hour t h = refl
take_unit-unit_text day t h = refl

no_s-digits :
    (digits t : Text)
    → every is_digit digits ≡ true
    → ltb 0 (length digits) ≡ true
    → no_s (digits ++ t) ≡ true
no_s-digits [] t e h = ground arith
no_s-digits (c ∷ digits) t e h = ground arith

literal-no_s : (ps : List (ℕ × Span)) → no_s (duration_literal ps) ≡ true
unfolding duration_literal
literal-no_s [] = refl
literal-no_s ((n, u) ∷ ps) =
    let (digits, long) = digits_of-every n in
    no_s-digits (digits_of n) (unit_text u ++ duration_literal ps) digits long

literal-solid : (ps : List (ℕ × Span)) → solid (duration_literal ps) ≡ true
unfolding duration_literal
literal-solid [] = refl
literal-solid ((n, u) ∷ ps) =
    let (digits, _) = digits_of-every n in
    let (rest, _) = unit-solid u (duration_literal ps) (literal-solid ps) in
    every-append _ (digits_of n) _ (digits-solid (digits_of n) digits) rest

literal-span :
    (n : ℕ) (u : Span) (ps : List (ℕ × Span))
    → part_of (digit_span (duration_literal ((n, u) ∷ ps)))
      ≡ some ((digits_of n, u), duration_literal ps)
unfolding duration_literal
literal-span n u ps =
    let (digits, long) = digits_of-every n in
    let (_, plain) = unit-solid u (duration_literal ps) (literal-solid ps) in
    rw (digit_span-append (digits_of n) (unit_text u ++ duration_literal ps) digits plain)
      (rw long (rw (take_unit-unit_text u (duration_literal ps) (literal-no_s ps)) refl))

-- A text that starts with a part splits as what follows it does.
parts_step :
    (fuel : ℕ) (t : Text) (part : Text × Span) (rest : Text) (more : List (Text × Span))
    → part_of (digit_span t) ≡ some (part, rest)
    → parts fuel rest ≡ some more
    → parts (suc fuel) t ≡ some (part ∷ more)
unfolding parts
parts_step fuel [] part rest more p e = absurd (ground arith)
parts_step fuel (c ∷ t) part rest more p e = rw p (rw e refl)

parts_nil : (fuel : ℕ) → parts fuel (duration_literal []) ≡ some []
unfolding parts duration_literal
parts_nil zero = refl
parts_nil (suc fuel) = refl

parts-literal :
    (fuel : ℕ) (ps : List (ℕ × Span))
    → length ps ≤ fuel
    → parts fuel (duration_literal ps) ≡ some (map as_read ps)
parts-literal fuel [] h = parts_nil fuel
parts-literal zero (p ∷ ps) h = absurd (omega arith)
parts-literal (suc fuel) ((n, u) ∷ ps) h =
    parts_step fuel _ _ _ _ (literal-span n u ps) (parts-literal fuel ps (omega arith))

length-duration_literal : (ps : List (ℕ × Span)) → length ps ≤ length (duration_literal ps)
unfolding duration_literal
length-duration_literal [] = omega arith
length-duration_literal ((n, u) ∷ ps) =
    let (_, long) = digits_of-every n in
    grind (
      arith,
      length-append (digits_of n) (unit_text u ++ duration_literal ps),
      length-append (unit_text u) (duration_literal ps),
      length-duration_literal ps,
    )

total-as_read :
    (sum : ℕ) (ps : List (ℕ × Span))
    → All Short ps
    → sum + amount_of ps < 10 ^ 9 * 86400000000
    → total sum (map as_read ps) ≡ some (sum + amount_of ps)
unfolding total
total-as_read sum [] h fits = ground arith
total-as_read sum ((n, u) ∷ ps) (short, h) fits =
    rw (int_of-digits_of n short, microseconds-worth u)
      (ground (arith, total-as_read (sum + n * worth u) ps h))

-- A duration of one part or more, each a decimal number of at most 4300 digits and a unit, that is
-- written out in any order of the units is read as the sum of the parts, where that is less than
-- 1000000000 days. A microsecond counts 1, `ms` 1000 of them, and a second, a minute, an hour and a
-- day what they are. The unit `ns` counts nothing, whatever its number: 5000000ns, which is 5ms, is
-- read as 0.
pub parse_duration-duration_literal :
    (p : ℕ × Span) (ps : List (ℕ × Span))
    → All Short (p ∷ ps)
    → amount_of (p ∷ ps) < 10 ^ 9 * 86400000000
    → parse_duration (duration_literal (p ∷ ps)) ≡ some (amount_of (p ∷ ps))
unfolding parse_duration
parse_duration-duration_literal p ps short fits =
    rw (strip-solid (duration_literal (p ∷ ps)) (literal-solid (p ∷ ps))) (
      rw
        (parts-literal (length (duration_literal (p ∷ ps))) (p ∷ ps)
          (length-duration_literal (p ∷ ps)))
        (ground (arith, total-as_read 0 (p ∷ ps) short (omega (arith, fits)))))
