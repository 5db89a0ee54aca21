-- ===== src/Domain/Fairshare.antt =====
-- domain/fairshare.py: decaying fair-share accounting. Times are microseconds; a zero half-life,
-- at which Python raises ZeroDivisionError, is not modelled.
pub mod Points
use stashd.Prelude.{ℕ, ◌-◌, ◌^◌, Text, Bool, leb, if◌then◌else◌}
use stashd.Domain.Floats.{Float, FloatOps}
use stashd.Domain.Transfers.{TransferKind, moves_data}

abbrev pub gib : ℕ
gib = 1024 ^ 3

pub record FairShareAccount : Type 0 where
  pub user : Text
  pub points : Float
  pub decayed_at : ℕ

-- `timedelta.total_seconds()`.
abbrev pub total_seconds : FloatOps → ℕ → Float
total_seconds f micros = f.true_div micros 1000000

unfoldable pub decayed : FloatOps → FairShareAccount → ℕ → ℕ → FairShareAccount
decayed f account now half_life =
    let elapsed = total_seconds f (now - account.decayed_at) in
    let factor = f.exp2 (f.div (f.neg elapsed) (total_seconds f half_life)) in
    if leb now account.decayed_at
    then account
    else record account { points = f.mul account.points factor; decayed_at = now }

unfoldable pub points_for_bytes : FloatOps → TransferKind → ℕ → Float → Float
points_for_bytes f kind size_bytes points_per_gib =
    if moves_data kind then f.scale (f.ceil (f.true_div size_bytes gib)) points_per_gib else f.zero

-- Decay first, then charge or refund, and never below zero.
unfoldable pub with_points : FloatOps → FairShareAccount → Float → ℕ → ℕ → FairShareAccount
with_points f account delta now half_life =
    let current = decayed f account now half_life in
    let sum = f.add current.points delta in
    record current { points = if f.lt sum f.zero then f.zero else sum }
