-- ===== src/Config/Modes/Typed.antt =====
-- Modes that are written as chmod takes them (config/cluster.py, drivers/posix.py).
use stashd.Prelude.{
  ℕ, ◌+◌, ◌-◌, ◌*◌, ◌/◌, ◌%◌, ◌≤◌, ◌<◌, ◌≡◌, refl, ap, ◌∙◌, Text, Bool, true, false, ◌==◌, [], ◌∷◌,
  some, arith,
}
use stashd.Domain.Units.RoundTrip.{solid, strip-solid}
use stashd.Config.Modes.{written, is_octal, octal_digits, unsigned, signed, fileset_mode}
use stashd.Daemon.Starting.{mode_text}

octal_digits-∷ :
    (ready : Bool) (acc d : ℕ) (t : Text)
    → d < 8
    → octal_digits ready acc ((b'0' + d) ∷ t) ≡ octal_digits true (acc * 8 + d) t
unfolding octal_digits
octal_digits-∷ ready acc d t small =
    let octal : is_octal (b'0' + d) ≡ true = ground arith in
    let digit : b'0' + d - b'0' ≡ d = omega arith in rw (octal, digit) refl

module _ (a b c d : ℕ) (ha : a < 8) (hb : b < 8) (hc : c < 8) (hd : d < 8) where
  abbrev four : Text
  four = (b'0' + a) ∷ (b'0' + b) ∷ (b'0' + c) ∷ (b'0' + d) ∷ []

  abbrev value : ℕ
  value = (((0 * 8 + a) * 8 + b) * 8 + c) * 8 + d

  unsigned-four : unsigned four ≡ some value
  unfolding unsigned
  unsigned-four =
      let small : (b'0' + b == b'o') ≡ false = ground arith in
      let large : (b'0' + b == b'O') ≡ false = ground arith in
      rw (small, large)
        (octal_digits-∷ false 0 a ((b'0' + b) ∷ (b'0' + c) ∷ (b'0' + d) ∷ []) ha
          ∙ (octal_digits-∷ true (0 * 8 + a) b ((b'0' + c) ∷ (b'0' + d) ∷ []) hb
              ∙ (octal_digits-∷ true ((0 * 8 + a) * 8 + b) c ((b'0' + d) ∷ []) hc
                  ∙ octal_digits-∷ true (((0 * 8 + a) * 8 + b) * 8 + c) d [] hd)))

  signed-four : signed four ≡ some (false, value)
  unfolding signed
  signed-four =
      let minus : (b'0' + a == b'-') ≡ false = ground arith in
      let plus : (b'0' + a == b'+') ≡ false = ground arith in rw (minus, plus, unsigned-four) refl

  four-solid : solid four ≡ true
  four-solid = ground arith

  fileset_mode-four : value ≤ 511 → fileset_mode (written four) ≡ some value
  unfolding fileset_mode
  fileset_mode-four le = rw (strip-solid four four-solid, signed-four) (ground arith)

-- The text that the driver gives to chmod for a mode up to 0777 is read back as that mode.
fileset_mode-mode_text : (n : ℕ) → n ≤ 511 → fileset_mode (written (mode_text n)) ≡ some n
unfolding mode_text
fileset_mode-mode_text n le =
    let value : (((0 * 8 + n / 512 % 8) * 8 + n / 64 % 8) * 8 + n / 8 % 8) * 8 + n % 8 ≡ n =
      omega arith in
    fileset_mode-four (n / 512 % 8) (n / 64 % 8) (n / 8 % 8) (n % 8) (omega arith) (omega arith)
      (omega arith) (omega arith) (omega arith)
    ∙ ap some value
