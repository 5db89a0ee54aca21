-- ===== src/Domain/Units/RoundTrip.antt =====
-- domain/units.py: the literals that are written for an amount are read back as that amount.
use stashd.Prelude.{
  ℕ, ◌≤◌, Text, is_digit, digits_of, value-digits_of, digits_of-every, Bool, true, not, List, [],
  ◌∷◌, ◌++◌, some, length, every, ◌≡◌, refl, arith,
}
use stashd.Domain.Units.{is_space, lstrip, rstrip, strip, digit_span, int_of}

abbrev pub solid : Text → Bool
solid t = every (λ c. not (is_space c)) t

pub every-append {ℓ} :
    {A : Type ℓ} (p : A → Bool) (s t : List A)
    → every p s ≡ true
    → every p t ≡ true
    → every p (s ++ t) ≡ true
every-append p [] t hs ht = ht
every-append p (x ∷ s) t hs ht = ground (arith, every-append p s t)

lstrip-solid : (t : Text) → solid t ≡ true → lstrip t ≡ t
unfolding lstrip
lstrip-solid [] e = refl
lstrip-solid (c ∷ t) e = ground arith

rstrip-solid : (t : Text) → solid t ≡ true → rstrip t ≡ t
unfolding rstrip
rstrip-solid [] e = refl
rstrip-solid (c ∷ []) e = ground arith
rstrip-solid (c ∷ x ∷ t) e = ground (arith, rstrip-solid (x ∷ t))

pub strip-solid : (t : Text) → solid t ≡ true → strip t ≡ t
unfolding strip
strip-solid t e = rw (lstrip-solid t e) (rstrip-solid t e)

pub digits-solid : (t : Text) → every is_digit t ≡ true → solid t ≡ true
digits-solid [] e = refl
digits-solid (c ∷ t) e = ground (arith, digits-solid t)

-- What ends a run of digits.
abbrev pub starts_plain : Text → Bool
starts_plain [] = true
starts_plain (c ∷ t) = not (is_digit c)

pub digit_span-append :
    (digits rest : Text)
    → every is_digit digits ≡ true
    → starts_plain rest ≡ true
    → digit_span (digits ++ rest) ≡ (digits, rest)
unfolding digit_span
digit_span-append [] [] e p = refl
digit_span-append [] (c ∷ t) e p = ground arith
digit_span-append (c ∷ digits) rest e p = grind (arith, digit_span-append digits rest)

pub int_of-digits_of : (n : ℕ) → length (digits_of n) ≤ 4300 → int_of (digits_of n) ≡ some n
unfolding int_of
int_of-digits_of n h = ground (arith, value-digits_of n, digits_of-every n)
