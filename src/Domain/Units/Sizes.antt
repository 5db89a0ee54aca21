-- ===== src/Domain/Units/Sizes.antt =====
-- domain/units.py: sizes and rates that are written out, with every suffix, and read back.
use stashd.Prelude.{
  ℕ, ◌*◌, ◌^◌, ◌≤◌, Text, digits_of, digits_of-every, Bool, true, false, [], ◌∷◌, ◌++◌, some,
  length, ◌≡◌, refl, arith, codes, ap, ◌∙◌,
}
use stashd.Domain.Units.{
  str, lstrip, strip, digit_span, take_prefix, factor_of, bit_factor, whole_bytes, parse_size,
  parse_size_text, parse_rate,
}
use stashd.Domain.Units.RoundTrip.{
  solid, every-append, strip-solid, digits-solid, starts_plain, digit_span-append, int_of-digits_of,
}

-- The prefixes, by their power of the base.
pub data Prefix : Type 0 where
  no_prefix kilo mega giga tera peta : Prefix

abbrev pub power : Prefix → ℕ
power no_prefix = 0
power kilo = 1
power mega = 2
power giga = 3
power tera = 4
power peta = 5

abbrev letter : Prefix → Text
letter no_prefix = []
letter kilo = b'k' ∷ []
letter mega = b'M' ∷ []
letter giga = b'G' ∷ []
letter tera = b'T' ∷ []
letter peta = b'P' ∷ []

abbrev byte_mark : Bool → Text
byte_mark false = []
byte_mark true = b'B' ∷ []

abbrev iec_mark : Bool → Text
iec_mark false = []
iec_mark true = b'i' ∷ []

abbrev pub base_of : Bool → ℕ
base_of false = 1000
base_of true = 1024

unfoldable pub size_suffix : Prefix → Bool → Bool → Text
size_suffix p iec marked = letter p ++ (iec_mark iec ++ byte_mark marked)

-- `12GiB`: the number, its prefix, whether that is an IEC one, and whether a `B` follows.
unfoldable pub size_literal : ℕ → Prefix → Bool → Bool → Text
unfolding size_suffix
size_literal n p iec marked = digits_of n ++ size_suffix p iec marked

-- `2Gbit`.
unfoldable pub bit_literal : ℕ → Prefix → Text
bit_literal n p = digits_of n ++ (letter p ++ codes "bit")

size_suffix-plain :
    (p : Prefix) (iec marked : Bool)
    → (solid (size_suffix p iec marked) ≡ true) × (starts_plain (size_suffix p iec marked) ≡ true)
unfolding size_suffix
size_suffix-plain p iec marked = ground arith

size_suffix-factor :
    (p : Prefix) (iec marked : Bool)
    → factor_of (take_prefix (lstrip (size_suffix p iec marked))) ≡ some (base_of iec ^ power p)
unfolding size_suffix lstrip
size_suffix-factor p iec marked = ground arith

module _ (n : ℕ) (suffix : Text) (ok : solid suffix ≡ true) where
  strip-digits : strip (digits_of n ++ suffix) ≡ digits_of n ++ suffix
  strip-digits =
      let (digits, _) = digits_of-every n in
      strip-solid _ (every-append _ (digits_of n) suffix (digits-solid (digits_of n) digits) ok)

  digit_span-strip :
      starts_plain suffix ≡ true
      → digit_span (strip (digits_of n ++ suffix)) ≡ (digits_of n, suffix)
  digit_span-strip plain =
      let (digits, _) = digits_of-every n in
      ap digit_span strip-digits ∙ digit_span-append (digits_of n) suffix digits plain

-- A size that is written as a decimal number of at most 4300 digits with any prefix, SI or IEC,
-- with or without the `B`, is read as that number times the power of 1000 or of 1024 that the
-- prefix names.
pub parse_size-size_literal :
    (n : ℕ) (p : Prefix) (iec marked : Bool)
    → length (digits_of n) ≤ 4300
    → parse_size (str (size_literal n p iec marked)) ≡ some (n * base_of iec ^ power p)
unfolding parse_size parse_size_text size_literal
parse_size-size_literal n p iec marked fits =
    let (clean, plain) = size_suffix-plain p iec marked in
    rw (digit_span-strip n (size_suffix p iec marked) clean plain)
      (rw (size_suffix-factor p iec marked) (rw (int_of-digits_of n fits) refl))

bit-plain :
    (p : Prefix)
    → (solid (letter p ++ codes "bit") ≡ true) × (starts_plain (letter p ++ codes "bit") ≡ true)
bit-plain p = ground arith

bit-factor :
    (p : Prefix)
    → bit_factor (take_prefix (lstrip (letter p ++ codes "bit"))) ≡ some (1000 ^ power p)
unfolding lstrip
bit-factor p = ground arith

-- A bit rate that is written as a decimal number of at most 4300 digits with any SI prefix is read
-- as an eighth of it, and refused exactly where that is not a whole number of bytes.
parse_rate-bit_literal :
    (n : ℕ) (p : Prefix)
    → length (digits_of n) ≤ 4300
    → parse_rate (str (bit_literal n p)) ≡ whole_bytes (n * 1000 ^ power p)
unfolding parse_rate bit_literal
parse_rate-bit_literal n p fits =
    let (clean, plain) = bit-plain p in
    let (_, nonempty) = digits_of-every n in
    rw (digit_span-strip n (letter p ++ codes "bit") clean plain)
      (rw nonempty (rw (bit-factor p) (rw (int_of-digits_of n fits) refl)))
