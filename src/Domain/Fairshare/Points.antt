-- ===== src/Domain/Fairshare/Points.antt =====
-- Decay and charging of fair-share points (domain/fairshare.py).
use stashd.Prelude.{ℕ, max, ◌≡◌, false, arith}
use stashd.Domain.Floats.{Float, FloatOps}
use stashd.Domain.Fairshare.{FairShareAccount, decayed, with_points}

-- A charge or a refund never leaves points below zero, and dates the account at the later of now
-- and its last decay; a second decay at the same time changes nothing. Zero is not below zero.
pub with_points_floor :
    (f : FloatOps) (account : FairShareAccount) (delta : Float) (now half_life : ℕ)
    → f.lt f.zero f.zero ≡ false
    → let after = with_points f account delta now half_life in
      (f.lt after.points f.zero ≡ false)
      × (after.user ≡ account.user)
      × (after.decayed_at ≡ max now account.decayed_at)
      × (decayed f after now half_life ≡ after)
unfolding with_points decayed
with_points_floor f account delta now half_life irrefl = ground arith
