-- ===== src/Domain/Routes/RoundTrip.antt =====
-- A route's text, which the database keeps, gives the two storages back (domain/routes.py).
use stashd.Prelude.{Text, ◌≡◌, refl, ap, Bool, true, not, [], ◌∷◌, ◌++◌, every, ◌==◌, some, arith}
use stashd.Domain.Routes.{Route, route_text, split_route}

-- No `>` in a text: what the storage id pattern grants.
abbrev pub no_arrow : Text → Bool
no_arrow = every (λ c. not (c == b'>'))

split-append : (s t : Text) → no_arrow s ≡ true → split_route (s ++ (b'-' ∷ b'>' ∷ t)) ≡ some (s, t)
unfolding split_route
split-append [] t h = refl
split-append (x ∷ []) t h = ground arith
split-append (x ∷ y ∷ s) t h = ground (arith, split-append (y ∷ s) t)

-- Splitting a route's text at its first arrow gives the source and the target back, whenever the
-- source has no `>`.
pub split_route-route_text :
    (r : Route) → no_arrow r.source ≡ true → split_route (route_text r) ≡ some (r.source, r.target)
unfolding route_text
split_route-route_text r h = split-append r.source r.target h

-- Two routes with the same text, and sources with no `>`, are the same route.
pub route_text_injective :
    (r q : Route)
    → no_arrow r.source ≡ true
    → no_arrow q.source ≡ true
    → route_text r ≡ route_text q
    → r ≡ q
route_text_injective r q h k e =
    ground (arith, split_route-route_text r h, split_route-route_text q k, ap split_route e)
