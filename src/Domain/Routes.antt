-- ===== src/Domain/Routes.antt =====
-- domain/routes.py: routes, transfer channels and the best-effort ETA.
pub mod RoundTrip
use stashd.Prelude.{
  ℕ, Text, codes, same, Bool, ◌&&◌, List, [], ◌∷◌, ◌++◌, ◌==◌, Option, none, some, if◌then◌else◌,
}
use stashd.Domain.Floats.{FloatOps}

pub data Channel : Type 0 where
  local ssh : Channel

pub record Route : Type 0 where
  pub source : Text
  pub target : Text

-- `str(route)`.
unfoldable pub route_text : Route → Text
route_text r = r.source ++ (b'-' ∷ b'>' ∷ r.target)

abbrev pub heads : ℕ → Text → Bool
heads c [] = Bool.false
heads c (x ∷ t) = x == c

abbrev pub tail : Text → Text
tail [] = []
tail (x ∷ t) = t

abbrev cons_left : ℕ → Option (Text × Text) → Option (Text × Text)
cons_left c none = none
cons_left c (some (a, b)) = some (c ∷ a, b)

-- `source, target = text.split("->", 1)`; `none` where the unpacking raises.
unfoldable pub split_route : Text → Option (Text × Text)
split_route [] = none
split_route (x ∷ t) =
    let rest = split_route t in
    if x == b'-' && heads b'>' t then some ([], tail t) else cons_left x rest

unfoldable pub channel_for : Text → Text → Channel
channel_for source_daemon target_daemon = if same source_daemon target_daemon then local else ssh

abbrev pub dict_get {ℓ} : {A : Type ℓ} → Text → List (Text × A) → Option A
dict_get k [] = none
dict_get k ((j, v) ∷ m) = if same j k then some v else dict_get k m

unfoldable pub throughput_for : Route → ℕ → List (Text × ℕ) → ℕ
throughput_for route default routes = elim (dict_get (route_text route) routes) [
  | none ↦ default
  | some v ↦ v
]

-- Seconds of start delay and of duration.
unfoldable pub estimate : FloatOps → ℕ → ℕ → ℕ → ℕ × ℕ
estimate f bytes_total queued_ahead throughput =
    (f.ceil (f.true_div queued_ahead throughput), f.ceil (f.true_div bytes_total throughput))
