-- ===== src/Services/Limiting/Lookup.antt =====
-- A limit that was set is the one that admission reads (services/limits.py).
use stashd.Prelude.{
  ℕ, ◌≡◌, refl, ap, Text, same_refl, Bool, true, false, List, [], ◌∷◌, ◌++◌, map, any, find_first,
  Option, none, some, Bool-cases, inl, inr, if◌then◌else◌, arith,
}
use stashd.Domain.Errors.{ok}
use stashd.Domain.Identity.{Principal}
use stashd.Config.{ClusterConfig}
use stashd.Models.{UserLimit, Db}
use stashd.Session.{after, outcome}
use stashd.Session.Leads.{Leads, Leads-any, Leads-pure, Leads-writes, Leads-commit, Leads-bind}
use stashd.Services.Accounting.{record_event}
use stashd.Services.Admitting.{limit_of, limit_matches}
use stashd.Services.Limiting.{is_limit_of, put_limit, set_limit}

matches_refl : (s : Option Text) → limit_matches s s ≡ true
matches_refl none = refl
matches_refl (some t) = same_refl t

is_limit_of_refl : (l : UserLimit) → is_limit_of l.user l.storage_id l ≡ true
unfolding is_limit_of
is_limit_of_refl l = rw (same_refl l.user) (matches_refl l.storage_id)

module _ (l : UserLimit) where
  abbrev mine : UserLimit → Bool
  mine = is_limit_of l.user l.storage_id

  find-changed :
      (rows : List UserLimit)
      → any mine rows ≡ true
      → find_first mine (map (λ r. if mine r then l else r) rows) ≡ some l
  find-changed [] h = absurd (ground arith)
  find-changed (r ∷ rows) h = elim (Bool-cases (mine r)) [
    | inl e ↦ rw e (rw (is_limit_of_refl l) refl)
    | inr e ↦ rw e (rw e (find-changed rows (rw e at h)))
  ]

  find-added :
      (rows : List UserLimit) → any mine rows ≡ false → find_first mine (rows ++ (l ∷ [])) ≡ some l
  find-added [] h = rw (is_limit_of_refl l) refl
  find-added (r ∷ rows) h = elim (Bool-cases (mine r)) [
    | inl e ↦ absurd (ground arith)
    | inr e ↦ rw e (find-added rows (rw e at h))
  ]

  find-put_limit : (rows : List UserLimit) → find_first mine (put_limit l rows) ≡ some l
  unfolding put_limit
  find-put_limit rows = elim (Bool-cases (any mine rows)) [
    | inl e ↦ rw e (find-changed rows e)
    | inr e ↦ rw e (find-added rows e)
  ]

limit_found :
    (user : Text) (storage_id : Option Text) (l : UserLimit) (db : Db)
    → find_first (is_limit_of user storage_id) db.limits ≡ some l
    → limit_of user storage_id db ≡ some l.allocation_limit_bytes
unfolding limit_of is_limit_of
limit_found user storage_id l db h =
    ap (λ (o : Option UserLimit). elim o [ none ↦ none | some m ↦ some m.allocation_limit_bytes ]) h

set_limit-Leads :
    (cluster : ClusterConfig) (now : ℕ) (actor : Principal) (limit : UserLimit)
    → Leads
        (λ s. Unit {0})
        (set_limit cluster now actor limit.user limit.storage_id limit.allocation_limit_bytes)
        (λ _ s.
          find_first (is_limit_of limit.user limit.storage_id) s.committed.limits ≡ some limit)
unfolding set_limit record_event
set_limit-Leads cluster now actor limit =
    let Found =
      λ (d : Db). find_first (is_limit_of limit.user limit.storage_id) d.limits ≡ some limit in
    Leads-bind _ _ _ (Leads-any _) λ _.
      Leads-bind _ _ (λ _ s. Found s.working)
        (Leads-writes _ (λ s. Found s.working) λ s _. find-put_limit limit s.working.limits)
        λ _.
          Leads-bind _ _ (λ _ s. Found s.working) (Leads-writes _ (λ s. Found s.working) λ s k. k)
            λ _.
              Leads-bind _ _ _ (Leads-commit Found)
                λ _. Leads-pure _ (λ _ s. Found s.committed) λ s k. k.0

-- Once a limit was set, admission reads that number for the user, on the storage or on all caches,
-- whether a limit was there before or not.
pub set_limit-limit_of :
    (cluster : ClusterConfig) (now : ℕ) (actor : Principal) (user : Text) (storage_id : Option Text)
    (bytes : ℕ) (l : UserLimit) (db : Db)
    → outcome (set_limit cluster now actor user storage_id bytes) db ≡ ok l
    → limit_of user storage_id (after (set_limit cluster now actor user storage_id bytes) db)
      ≡ some bytes
unfolding outcome after
set_limit-limit_of cluster now actor user storage_id bytes l db h =
    let limit : UserLimit = record {
      user = user;
      storage_id = storage_id;
      allocation_limit_bytes = bytes;
    } in
    limit_found user storage_id limit (after (set_limit cluster now actor user storage_id bytes) db)
      ((set_limit-Leads cluster now actor limit).at (record { committed = db; working = db }) tt l
        h)
