-- ===== src/Daemon/Starting/Accepted.antt =====
-- A daemon that starts on a config is one that the controller's registration accepts
-- (drivers/factory.py, services/daemons.py).
use stashd.Prelude.{
  ℕ, Text, same, same_iff, ◌≡◌, ◌≢◌, refl, ap, inl, inr, true, Bool-cases, List, [], ◌∷◌, All,
  Option, none, some, arith,
}
use stashd.Domain.Errors.{ok}
use stashd.Config.{ClusterConfig, Storage, storage, daemon}
use stashd.Models.{Db}
use stashd.Session.{outcome}
use stashd.Session.Rows.{constraints_hold}
use stashd.Services.Registering.{Registration, announced, register}
use stashd.Services.Registering.Accepting.{Serves, Assigned, register-Recorded}
use stashd.Daemon.Driver.{PosixDriver}
use stashd.Daemon.Starting.{
  Roots, StartProblem, Round, problem, built, given, round, add_round, rounds, drivers,
  without_problems, build_drivers,
}

module _ (cluster : ClusterConfig) (fs : Roots) (daemon_id : Text) where
  given-Serves :
      (id : Text) (o : Option Storage) (d : PosixDriver)
      → given cluster fs daemon_id id o ≡ built d
      → Serves daemon_id o
  given-Serves id none d h = absurd (ground arith)
  given-Serves id (some s) d h = elim (Bool-cases (same s.daemon daemon_id)) [
    | inl e ↦ (same_iff s.daemon daemon_id).0 e
    | inr e ↦ absurd (ground arith)
  ]

  -- No problem was found for any of the storages.
  rounds-Assigned :
      (ids : List Text)
      → (rounds cluster fs daemon_id ids).0 ≡ []
      → All (Assigned cluster daemon_id) ids
  unfolding rounds round
  rounds-Assigned [] h = tt
  rounds-Assigned (id ∷ ids) h =
      one (given cluster fs daemon_id id (storage cluster id)) refl h (rounds-Assigned ids)
    where
      one :
          (r : Round)
          → given cluster fs daemon_id id (storage cluster id) ≡ r
          → (add_round cluster fs daemon_id id r (rounds cluster fs daemon_id ids)).0 ≡ []
          → ((rounds cluster fs daemon_id ids).0 ≡ [] → All (Assigned cluster daemon_id) ids)
          → All (Assigned cluster daemon_id) (id ∷ ids)
      one (problem p) e h k = absurd (ground arith)
      one (built d) e h k = (given-Serves id (storage cluster id) d e, k h)

  build_drivers-Assigned :
      (ids : List Text) (found : List (Text × PosixDriver))
      → build_drivers cluster fs daemon_id ids ≡ drivers found
      → All (Assigned cluster daemon_id) ids
  unfolding build_drivers
  build_drivers-Assigned ids found h =
      all (rounds cluster fs daemon_id ids) refl h (rounds-Assigned ids)
    where
      all :
          (r : List StartProblem × List (Text × PosixDriver))
          → rounds cluster fs daemon_id ids ≡ r
          → without_problems r ≡ drivers found
          → ((rounds cluster fs daemon_id ids).0 ≡ [] → All (Assigned cluster daemon_id) ids)
          → All (Assigned cluster daemon_id) ids
      all ([], ds) e h k = k (ap (λ (p : List StartProblem × List (Text × PosixDriver)). p.0) e)
      all (p ∷ ps, ds) e h k = absurd (ground arith)

-- A daemon that built its drivers on the config that the controller runs on, where it is one of the
-- daemons, is accepted when it announces the same storages: what the factory checks at the start is
-- what the registration checks.
pub build_drivers-register :
    (cluster : ClusterConfig) (fs : Roots) (a : Registration) (found : List (Text × PosixDriver))
    (now : ℕ) (db : Db)
    → build_drivers cluster fs a.daemon_id a.storages ≡ drivers found
    → daemon cluster a.daemon_id ≢ none
    → constraints_hold db ≡ true
    → outcome (register cluster now a) db ≡ ok (announced cluster now a)
build_drivers-register cluster fs a found now db started known sound =
    (register-Recorded cluster now a db a.daemon_id sound).0.1
      (known, build_drivers-Assigned cluster fs a.daemon_id a.storages found started)
