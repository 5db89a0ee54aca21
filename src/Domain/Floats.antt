-- ===== src/Domain/Floats.antt =====
-- Python's floats. A float is its 64-bit pattern; the IEEE operations on the patterns are the
-- interpreter's and not the program's, so they are an argument of the code that calls them.
use stashd.Prelude.{ℕ, Bool}

abbrev pub Float : Type 0
Float = ℕ

pub record FloatOps : Type 0 where
  pub zero : Float
  -- a / b on ints, and n * x for an int n.
  pub true_div : ℕ → ℕ → Float
  pub scale : ℕ → Float → Float
  pub add : Float → Float → Float
  pub mul : Float → Float → Float
  pub div : Float → Float → Float
  pub neg : Float → Float
  -- 2 ** x.
  pub exp2 : Float → Float
  -- a == b and a < b.
  pub eq : Float → Float → Bool
  pub lt : Float → Float → Bool
  -- int(x) and math.ceil(x), at an x that is not negative.
  pub floor : Float → ℕ
  pub ceil : Float → ℕ
