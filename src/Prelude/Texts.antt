-- ===== src/Prelude/Texts.antt =====
-- A Python `str` is the list of its code points.
use Prim.Native.Char.{code}
use Prim.Native.String.{String}
use Prim.Native.Nat.{ℕ, zero, suc, ◌+◌, ◌-◌, ◌*◌, ◌/◌, ◌%◌, ◌<◌}
use mathlib.Core.Path.{◌≡◌, refl}
use mathlib.Core.Logic.{◌↔◌}
use mathlib.Core.Bool.{Bool, true, false, ◌&&◌}
use mathlib.Core.List.{List, [], ◌∷◌}
use native.Mathlib.Omega.{arith}
use stashd.Prelude.Tests.{◌==◌, ltb, leb, if◌then◌else◌}
use stashd.Prelude.Lists.{every, length}

abbrev pub Text : Type 0
Text = List ℕ

abbrev pub codes : String → Text
codes String.[] = []
codes (String.◌∷◌ c s) = code c ∷ codes s

-- `s == t` on texts.
unfoldable pub same : Text → Text → Bool
same [] [] = true
same [] (y ∷ ys) = false
same (x ∷ xs) [] = false
same (x ∷ xs) (y ∷ ys) = x == y && same xs ys

same_sound : (s t : Text) → same s t ≡ true → s ≡ t
unfolding same
same_sound [] [] h = refl
same_sound [] (y ∷ ys) h = cc
same_sound (x ∷ xs) [] h = cc
same_sound (x ∷ xs) (y ∷ ys) h = ground (arith, same_sound xs ys)

pub same_refl : (s : Text) → same s s ≡ true
unfolding same
same_refl [] = refl
same_refl (x ∷ xs) = ground (arith, same_refl xs)

same_complete : (s t : Text) → s ≡ t → same s t ≡ true
same_complete s t e = rw e (same_refl t)

pub same_iff : (s t : Text) → (same s t ≡ true) ↔ (s ≡ t)
same_iff s t = (same_sound s t, same_complete s t)

-- `str(n)` for a number: its decimal digits, with fuel for one digit more than n has.
digits_from : ℕ → ℕ → Text → Text
digits_from zero n acc = acc
digits_from (suc fuel) n acc =
    let more = digits_from fuel (n / 10) ((b'0' + n % 10) ∷ acc) in
    if ltb n 10 then (b'0' + n) ∷ acc else more

unfoldable pub digits_of : ℕ → Text
unfolding digits_from
digits_of n = digits_from (suc n) n []

abbrev pub is_digit : ℕ → Bool
is_digit c = leb b'0' c && leb c b'9'

-- `int(t)` of a text of decimal digits, after the value of the digits before it.
unfoldable pub value_from : ℕ → Text → ℕ
value_from n [] = n
value_from n (c ∷ t) = value_from (n * 10 + (c - b'0')) t

value-digits_from :
    (fuel n : ℕ) (acc : Text) → n < fuel → value_from 0 (digits_from fuel n acc) ≡ value_from n acc
unfolding digits_from value_from
value-digits_from zero n acc h = absurd (omega arith)
value-digits_from (suc fuel) n acc h =
    ground (arith, value-digits_from fuel (n / 10) ((b'0' + n % 10) ∷ acc))

-- Reading the digits of a number back gives the number.
pub value-digits_of : (n : ℕ) → value_from 0 (digits_of n) ≡ n
unfolding digits_of value_from
value-digits_of n = value-digits_from (suc n) n [] (omega arith)

digits_from-every :
    (fuel n : ℕ) (acc : Text)
    → n < fuel
    → every is_digit acc ≡ true
    → (every is_digit (digits_from fuel n acc) ≡ true)
      × (ltb 0 (length (digits_from fuel n acc)) ≡ true)
unfolding digits_from
digits_from-every zero n acc h e = absurd (omega arith)
digits_from-every (suc fuel) n acc h e =
    ground (arith, digits_from-every fuel (n / 10) ((b'0' + n % 10) ∷ acc))

-- They are digits, and there is one at least.
pub digits_of-every :
    (n : ℕ) → (every is_digit (digits_of n) ≡ true) × (ltb 0 (length (digits_of n)) ≡ true)
unfolding digits_of
digits_of-every n = digits_from-every (suc n) n [] (omega arith) refl
