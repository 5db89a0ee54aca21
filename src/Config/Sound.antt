-- ===== src/Config/Sound.antt =====
-- config/cluster.py: what a config without a problem promises to the code that reads it.
use stashd.Prelude.{
  ℕ, ◌≤◌, Text, same, same_refl, Bool, true, false, not, ◌&&◌, List, [], ◌∷◌, ◌++◌, map, All,
  find_first, Option, none, some, length, length-append, ◌≡◌, refl, arith, Bool-cases, inl, inr,
}
use stashd.Config.{
  StorageRole, Storage, ClusterConfig, Daemon, has_role, storage, daemon, daemon_for,
}
use stashd.Config.Checks.{
  Problem, unknown_location, unknown_daemon, no_capacity, duplicate_storage, mem_text, duplicates,
  duplicate_ids, when, collect, is_none, storage_problems, problems,
}

length-duplicates : (seen found ids : List Text) → length found ≤ length (duplicates seen found ids)
unfolding duplicates
length-duplicates seen found [] = omega arith
length-duplicates seen found (v ∷ ids) =
    elim (Bool-cases (mem_text v seen && not (mem_text v found))) [
      | inl e ↦ rw e (
          omega (
            arith,
            length-duplicates (v ∷ seen) (found ++ (v ∷ [])) ids,
            length-append found (v ∷ []),
          ))
      | inr e ↦ rw e (length-duplicates (v ∷ seen) found ids)
    ]

-- Every id differs from those after it.
abbrev pub Distinct : List Text → Type 0
Distinct [] = Unit
Distinct (v ∷ ids) = All (λ w. same v w ≡ false) ids × Distinct ids

unseen :
    (v : Text) (seen ids : List Text)
    → All (λ w. mem_text w (v ∷ seen) ≡ false) ids
    → All (λ w. same v w ≡ false) ids × All (λ w. mem_text w seen ≡ false) ids
unfolding mem_text
unseen v seen [] h = (tt, tt)
unseen v seen (w ∷ ids) (h, hs) =
    let (a, b) = unseen v seen ids hs in ((ground arith, a), (ground arith, b))

duplicates-fresh :
    (seen ids : List Text)
    → duplicates seen [] ids ≡ []
    → All (λ v. mem_text v seen ≡ false) ids × Distinct ids
unfolding duplicates
duplicates-fresh seen [] h = (tt, tt)
duplicates-fresh seen (v ∷ ids) h = elim (Bool-cases (mem_text v seen)) [
  | inl e ↦ absurd (ground (arith, length-duplicates (v ∷ seen) (v ∷ []) ids))
  | inr e ↦
      let (new, apart) = duplicates-fresh (v ∷ seen) ids (rw e at h) in
      let (a, b) = unseen v seen ids new in ((e, b), (a, apart))
]

map-nil : (p : Text → Problem) (ids : List Text) → map p ids ≡ [] → ids ≡ []
map-nil p [] h = refl
map-nil p (v ∷ ids) h = absurd (ground arith)

duplicate_ids-Distinct :
    (p : Text → Problem) (ids : List Text) → duplicate_ids p ids ≡ [] → Distinct ids
unfolding duplicate_ids
duplicate_ids-Distinct p ids h =
    let (_, apart) = duplicates-fresh [] ids (map-nil p (duplicates [] [] ids) h) in apart

append-nil-both {ℓ} : {A : Type ℓ} (s t : List A) → s ++ t ≡ [] → (s ≡ []) × (t ≡ [])
append-nil-both [] t h = (refl, h)
append-nil-both (x ∷ s) t h = absurd (ground arith)

when-nil : (b : Bool) (p : Problem) → when b p ≡ [] → b ≡ false
when-nil false p h = refl
when-nil true p h = absurd (ground arith)

collect-nil {ℓ} :
    {A : Type ℓ} (f : A → List Problem) (xs : List A) → collect f xs ≡ [] → All (λ x. f x ≡ []) xs
collect-nil f [] h = tt
collect-nil f (x ∷ xs) h =
    let (a, b) = append-nil-both (f x) (collect f xs) h in (a, collect-nil f xs b)

not-false : (b : Bool) → not b ≡ false → b ≡ true
not-false true h = refl
not-false false h = absurd (ground arith)

All-map {ℓ κ μ} :
    {A : Type ℓ} {P : A → Type κ} {Q : A → Type μ}
    → ((a : A) → P a → Q a)
    → (xs : List A) → All P xs
    → All Q xs
All-map f [] h = tt
All-map f (x ∷ xs) (h, hs) = (f x h, All-map f xs hs)

-- Looking up by id.
abbrev at_id : List Storage → Text → Option Storage
at_id xs v = find_first (λ s. same s.id v) xs

at_id-later :
    (x : Storage) (xs ys : List Storage)
    → All (λ w. same x.id w ≡ false) (map (λ s. s.id) ys)
    → All (λ s. at_id xs s.id ≡ some s) ys
    → All (λ s. at_id (x ∷ xs) s.id ≡ some s) ys
at_id-later x xs [] h k = tt
at_id-later x xs (y ∷ ys) (h, hs) (k, ks) = (rw h k, at_id-later x xs ys hs ks)

at_id-itself :
    (xs : List Storage) → Distinct (map (λ s. s.id) xs) → All (λ s. at_id xs s.id ≡ some s) xs
at_id-itself [] h = tt
at_id-itself (x ∷ xs) (h, hs) =
    (rw (same_refl x.id) refl, at_id-later x xs xs h (at_id-itself xs hs))

known-daemon :
    (ds : List Daemon) (v : Text)
    → mem_text v (map (λ d. d.id) ds) ≡ true
    → (d : Daemon) × (find_first (λ d. same d.id v) ds ≡ some d)
unfolding mem_text
known-daemon [] v h = absurd (ground arith)
known-daemon (d ∷ ds) v h = elim (Bool-cases (same d.id v)) [
  | inl e ↦ (d, rw e refl)
  | inr e ↦ let (found, k) = known-daemon ds v (rw e at h) in (found, rw e k)
]

known-capacity : (o : Option ℕ) → is_none o ≡ false → (n : ℕ) × (o ≡ some n)
known-capacity none h = absurd (ground arith)
known-capacity (some n) h = (n, refl)

-- What the readers of a config rely on for a storage of it.
pub record Served (c : ClusterConfig) (s : Storage) : Type 0 where
  -- The id names this storage and no other.
  pub itself : storage c s.id ≡ some s
  -- The lookup of its daemon does not raise.
  pub daemon_found : (d : Daemon) × (daemon_for c s.id ≡ some d)
  pub location_known : mem_text s.location (map (λ l. l.id) c.locations) ≡ true
  pub cache_sized : has_role s StorageRole.cache ≡ true → (n : ℕ) × (s.capacity_bytes ≡ some n)

module _ (c : ClusterConfig) where
  -- The checks that a storage passes.
  record Passes (s : Storage) : Type 0 where
    daemon_known : mem_text s.daemon (map (λ d. d.id) c.daemons) ≡ true
    location_listed : mem_text s.location (map (λ l. l.id) c.locations) ≡ true
    sized : (has_role s StorageRole.cache && is_none s.capacity_bytes) ≡ false

  Passes-of :
      (s : Storage)
      → when
            (not (mem_text s.location (map (λ l. l.id) c.locations)))
            (unknown_location s.id s.location)
          ++ (when
                (not (mem_text s.daemon (map (λ d. d.id) c.daemons)))
                (unknown_daemon s.id s.daemon)
              ++ when (has_role s StorageRole.cache && is_none s.capacity_bytes) (no_capacity s.id))
        ≡ []
      → Passes s
  Passes-of s h =
      let (a, bc) = append-nil-both _ _ h in
      let (b, d) = append-nil-both _ _ bc in
      record {
        daemon_known = not-false _ (when-nil _ _ b);
        location_listed = not-false _ (when-nil _ _ a);
        sized = when-nil _ _ d;
      }

  Served-of : (s : Storage) → storage c s.id ≡ some s → Passes s → Served c s
  unfolding daemon_for daemon
  Served-of s e p =
      let (d, found) = known-daemon c.daemons s.daemon p.daemon_known in
      record {
        itself = e;
        daemon_found = (d, rw (daemon_for, e) found);
        location_known = p.location_listed;
        cache_sized = λ role. known-capacity s.capacity_bytes (rw role at p.sized);
      }

  Served-All :
      (xs : List Storage)
      → All (λ s. storage c s.id ≡ some s) xs
      → All Passes xs
      → All (Served c) xs
  Served-All [] h k = tt
  Served-All (s ∷ xs) (h, hs) (k, ks) = (Served-of s h k, Served-All xs hs ks)

  Passes-All : storage_problems c ≡ [] → All Passes c.storages
  unfolding storage_problems
  Passes-All h = All-map Passes-of c.storages (collect-nil _ c.storages h)

  -- In a config that is accepted, the id of every storage names that storage and no other, its
  -- location is listed, the lookup of its daemon finds one, and a cache has a capacity.
  pub problems-Served : problems c ≡ [] → All (Served c) c.storages
  unfolding problems storage
  problems-Served h =
      let (_, r1) = append-nil-both _ _ h in
      let (ids, r2) = append-nil-both _ _ r1 in
      let (_, r3) = append-nil-both _ _ r2 in
      let (listed, _) = append-nil-both _ _ r3 in
      Served-All c.storages
        (at_id-itself c.storages
          (duplicate_ids-Distinct duplicate_storage (map (λ s. s.id) c.storages) ids))
        (Passes-All listed)
