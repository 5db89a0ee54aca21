-- ===== src/Examples/Running.antt =====
-- The theorems on the config's way to a daemon, and on what a daemon tells of itself, at work.
use stashd.Prelude.{
  Text, codes, same, digits_of, value_from, value-digits_of, ◌≡◌, ◌≢◌, refl, sym, ap, ◌∙◌, true,
  false, not, ◌&&◌, ◌++◌, ◌↔◌, List, [], ◌∷◌, All, Option, none, some, if◌then◌else◌, arith,
}
use stashd.Domain.Errors.{is_err, ok}
use stashd.Config.{ClusterConfig, daemon, storage}
use stashd.Config.Distribution.{
  ConfigDocument, HeldConfig, http_error, served, refused, unavailable, fetch, obtain_config,
  parse_cluster_document,
}
use stashd.Config.Distribution.Restarting.{refresh_all, obtain_config-refresh_all}
use stashd.Session.{outcome, after}
use stashd.Session.Rows.{constraints_hold}
use stashd.Services.Registering.{Registration, announced, get_daemon, register}
use stashd.Services.Registering.Accepting.{Assigned, register-Recorded}
use stashd.Daemon.Starting.{Roots, build_drivers, drivers, driver_of, rounds, round, root_problem}
use stashd.Daemon.Starting.Accepted.{build_drivers-register}
use stashd.Api.Running.{App, RefreshPlan, announce}
use stashd.Api.Running.Following.{System, Event, Whole, edited, asked, run, Follows, run-Follows}
use stashd.Api.Running.Following.Catching.{CaughtUp, register_answer, run-CaughtUp}
use stashd.Services.Admitting.{storage_allocated}
use stashd.Api.Passes.{Parts}
use stashd.Api.Passes.Reserved.{
  Pass, reconciles, schedules, measures, prunes, run_passes, run_passes-storage_allocated,
}
use stashd.Examples.{cluster, nvme, db, dispatcher, hundredths}

abbrev later : ClusterConfig
later = record cluster { revision = 5 }

-- Two texts that validate, and all others that do not.
abbrev parse : Text → Option ClusterConfig
parse t =
    if same t (codes "four")
    then some cluster
    else if same t (codes "five")
    then some later
    else none

abbrev four : ConfigDocument
four = record { config = cluster; text = codes "four" }

abbrev five : ConfigDocument
five = record { config = later; text = codes "five" }

abbrev content_hash : ClusterConfig → Text
content_hash c = digits_of c.revision

abbrev fresh : HeldConfig
fresh = record { document = four; degraded = false }

started :
    obtain_config parse (fetch parse (served (codes "four"))) none
    ≡ (some fresh, some (codes "four"))
unfolding obtain_config fetch parse_cluster_document same
started = refl

-- It starts, then takes a later config, then is answered by a failure and by nothing.
obtain_config-refresh_all_example :
    obtain_config parse unavailable
      (refresh_all parse content_hash
        (served (codes "five") ∷ refused 500 ∷ http_error ∷ [])
        (some (codes "four"))
        fresh).1
    ≡ (
      some (record {
        document =
            (refresh_all parse content_hash
              (served (codes "five") ∷ refused 500 ∷ http_error ∷ [])
              (some (codes "four"))
              fresh).0.document;
        degraded = true;
      }),
      (refresh_all parse content_hash
          (served (codes "five") ∷ refused 500 ∷ http_error ∷ [])
          (some (codes "four"))
          fresh).1,
    )
obtain_config-refresh_all_example =
    obtain_config-refresh_all parse content_hash (served (codes "four")) none (some (codes "four"))
      fresh (served (codes "five") ∷ refused 500 ∷ http_error ∷ []) started

abbrev controller : App
controller = record {
  cluster = some cluster;
  document = some four;
  config_degraded = false;
  refresh = none;
  reload_from = some (codes "cluster.yaml");
  announcement = none;
}

abbrev plan : RefreshPlan
plan = record { cache = some (codes "four"); held = fresh }

abbrev daemon_app : App
daemon_app = record {
  cluster = some cluster;
  document = some four;
  config_degraded = false;
  refresh = some plan;
  reload_from = none;
  announcement =
      some (record { daemon_id = codes "d1"; storages = codes "NVME" ∷ []; version = codes "1.0" });
}

abbrev system : System
system = record { controller = controller; daemon = daemon_app }

system-Follows : Follows parse content_hash system
unfolding same digits_of
system-Follows = record {
  running = four;
  plan = plan;
  runs = refl;
  serves = refl;
  parses = refl;
  refreshes = refl;
  held_document = refl;
  held_cluster = refl;
  held_degraded = refl;
  level = (omega arith, λ e. refl);
}

-- An edit that fails to validate, one that takes effect, and refreshes around them.
abbrev events : List Event
events =
    edited (some (codes "six")) (codes "six")
    ∷ asked true
    ∷ edited (some (codes "five")) (codes "five")
    ∷ asked false
    ∷ []

whole : All Whole events
whole = (refl, (tt, (refl, (tt, tt))))

run-Follows_example : Follows parse content_hash (run parse content_hash system events)
run-Follows_example = run-Follows parse content_hash system events whole system-Follows

faithful : (c d : ClusterConfig) → content_hash c ≡ content_hash d → c.revision ≡ d.revision
faithful c d h =
    sym (value-digits_of c.revision) ∙ (ap (value_from 0) h ∙ value-digits_of d.revision)

run-CaughtUp_example :
    CaughtUp content_hash (run parse content_hash system (events ++ (asked true ∷ [])))
    × (announce (run parse content_hash system (events ++ (asked true ∷ []))).daemon (
          register_answer
            (run parse content_hash system (events ++ (asked true ∷ []))).controller
            30
            db)
        ≡ false)
run-CaughtUp_example =
    run-CaughtUp parse content_hash system events 30 db faithful whole system-Follows

abbrev registration : Registration
registration = record {
  daemon_id = codes "d1";
  storages = codes "NVME" ∷ [];
  config_revision = 4;
  version = codes "1.0";
}

rows_sound : constraints_hold db ≡ true
unfolding constraints_hold
rows_sound = refl

register-Recorded_example :
    ((outcome (register cluster 30 registration) db ≡ ok (announced cluster 30 registration)) ↔ (
      (daemon cluster (codes "d1") ≢ none)
      × All (Assigned cluster (codes "d1")) (codes "NVME" ∷ [])))
    × (get_daemon (codes "d1") (after (register cluster 30 registration) db).daemons ≡ (
        if not (is_err (outcome (register cluster 30 registration) db))
          && same (codes "d1") (codes "d1")
        then some (announced cluster 30 registration)
        else get_daemon (codes "d1") db.daemons))
register-Recorded_example = register-Recorded cluster 30 registration db (codes "d1") rows_sound

abbrev roots : Roots
roots = record { exists = λ p. true; is_dir = λ p. true }

built :
    build_drivers cluster roots (codes "d1") (codes "NVME" ∷ [])
    ≡ drivers ((codes "NVME", driver_of nvme) ∷ [])
unfolding build_drivers rounds round storage same root_problem
built = refl

is_known : daemon cluster (codes "d1") ≢ none
unfolding daemon same
is_known h = ground arith

build_drivers-register_example :
    outcome (register cluster 30 registration) db ≡ ok (announced cluster 30 registration)
build_drivers-register_example =
    build_drivers-register cluster roots registration ((codes "NVME", driver_of nvme) ∷ []) 30 db
      built is_known rows_sound

abbrev parts : Parts
parts = record {
  sessions = true;
  cluster = some cluster;
  dispatcher = some dispatcher;
  usage = some (λ storage_id rows. ok ((1, record { used_bytes = 500; file_count = 3 }) ∷ []));
}

-- The daemon is not reached, and later the transfer is given up; more is measured than is allocated.
abbrev passes : List Pass
passes =
    reconciles parts 7
    ∷ measures parts 8 (codes "NVME")
    ∷ schedules parts 9 true
    ∷ reconciles parts 90
    ∷ prunes parts 1000
    ∷ []

run_passes-storage_allocated_example :
    storage_allocated (codes "NVME") (run_passes hundredths passes db)
    ≡ storage_allocated (codes "NVME") db
run_passes-storage_allocated_example =
    run_passes-storage_allocated hundredths passes (codes "NVME") db (tt, tt)
