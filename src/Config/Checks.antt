-- ===== src/Config/Checks.antt =====
-- config/cluster.py: the checks across the sections of the cluster config. A problem is a value in
-- place of its English text.
use stashd.Prelude.{
  Text, same, Bool, true, false, not, ◌&&◌, List, [], ◌∷◌, ◌++◌, map, any, every, Option, none,
  some, ltb, if◌then◌else◌,
}
use stashd.Domain.References.{is_upper, is_storage_char, chomp}
use stashd.Domain.Routes.{split_route}
use stashd.Paths.{PosixPath, same_path, is_parent}
use stashd.Config.{StorageRole, ClusterConfig, has_role, storages_of}

pub data Problem : Type 0 where
  duplicate_location duplicate_storage duplicate_daemon : Text → Problem
  unknown_location unknown_daemon : Text → Text → Problem
  no_capacity : Text → Problem
  nested_root : Text → Text → Problem
  not_a_route : Text → Problem
  unknown_endpoint : Text → Text → Problem
  bandwidth_order : Problem

-- `value in values`.
unfoldable pub mem_text : Text → List Text → Bool
unfolding same
mem_text v values = any (λ w. same w v) values

-- The loop of `_duplicate_ids`: the ids seen and the duplicates found so far.
unfoldable pub duplicates : List Text → List Text → List Text → List Text
unfolding mem_text
duplicates seen found [] = found
duplicates seen found (v ∷ ids) =
    duplicates (v ∷ seen)
      (if mem_text v seen && not (mem_text v found) then found ++ (v ∷ []) else found) ids

unfoldable pub duplicate_ids : (Text → Problem) → List Text → List Problem
unfolding duplicates
duplicate_ids problem ids = map problem (duplicates [] [] ids)

abbrev pub when : Bool → Problem → List Problem
when true problem = problem ∷ []
when false problem = []

abbrev pub collect {ℓ} : {A : Type ℓ} → (A → List Problem) → List A → List Problem
collect f [] = []
collect f (x ∷ xs) = f x ++ collect f xs

abbrev pub is_none {ℓ} : {A : Type ℓ} → Option A → Bool
is_none none = true
is_none (some a) = false

unfoldable pub storage_problems : ClusterConfig → List Problem
unfolding mem_text has_role
storage_problems c =
    collect
      (λ s.
        when (not (mem_text s.location (map (λ l. l.id) c.locations)))
          (unknown_location s.id s.location)
        ++ (when (not (mem_text s.daemon (map (λ d. d.id) c.daemons)))
              (unknown_daemon s.id s.daemon)
            ++ when (has_role s StorageRole.cache && is_none s.capacity_bytes) (no_capacity s.id)))
      c.storages

abbrev pub is_inside : PosixPath → PosixPath → Bool
unfolding same_path is_parent
is_inside inner outer = not (same_path inner outer) && is_parent outer inner

unfoldable pub nested_root_problems : ClusterConfig → List Problem
unfolding storages_of is_inside same
nested_root_problems c =
    collect
      (λ s.
        collect
          (λ other.
            when (not (same other.id s.id) && is_inside s.root other.root)
              (nested_root s.id other.id))
          (storages_of c s.daemon))
      c.storages

-- `[A-Z][A-Z0-9_-]*`.
unfoldable pub id_like : Text → Bool
id_like [] = false
id_like (x ∷ t) = is_upper x && every is_storage_char t

-- The target of a route: `$` lets one final line feed pass.
abbrev pub target_of : Text → Option Text
unfolding id_like chomp
target_of t = if id_like t then some t else if id_like (chomp t) then some (chomp t) else none

abbrev pub endpoints : Option (Text × Text) → Option (Text × Text)
unfolding id_like target_of
endpoints none = none
endpoints (some (source, rest)) =
    if id_like source
    then elim (target_of rest) [ none ↦ none | some target ↦ some (source, target) ]
    else none

-- `ROUTE_RE.match`: no id holds a `>`, so the arrow is the first one.
unfoldable pub route_match : Text → Option (Text × Text)
unfolding endpoints split_route
route_match t = endpoints (split_route t)

abbrev pub route_problem : List Text → Text → Option (Text × Text) → List Problem
unfolding mem_text
route_problem known route none = not_a_route route ∷ []
route_problem known route (some (source, target)) =
    when (not (mem_text source known)) (unknown_endpoint route source)
    ++ when (not (mem_text target known)) (unknown_endpoint route target)

unfoldable pub route_problems : ClusterConfig → List Problem
unfolding route_problem route_match
route_problems c =
    collect (λ r. route_problem (map (λ s. s.id) c.storages) r.0 (route_match r.0))
      c.nominal_throughput.routes

-- What `_check_cross_references` raises about; it accepts the config where this is empty.
unfoldable pub problems : ClusterConfig → List Problem
unfolding duplicate_ids storage_problems nested_root_problems route_problems
problems c =
    duplicate_ids duplicate_location (map (λ l. l.id) c.locations)
    ++ (duplicate_ids duplicate_storage (map (λ s. s.id) c.storages)
        ++ (duplicate_ids duplicate_daemon (map (λ d. d.id) c.daemons)
            ++ (storage_problems c
                ++ (nested_root_problems c
                    ++ (route_problems c
                        ++ when
                            (ltb c.limits.bandwidth.max_per_transfer
                              c.limits.bandwidth.min_per_transfer)
                            bandwidth_order)))))
