-- ===== src/Api/Running.antt =====
-- api/app.py, api/internal/config.py and clients/registration.py: the config of a running process.
-- Of `app.state` this is the part that the config passes through; the loops that call these
-- functions again and again, and their waits, are left out.
pub mod Following
use stashd.Prelude.{ℕ, Text, same, Bool, true, false, List, Option, none, some, [], if◌then◌else◌}
use stashd.Domain.Errors.{ErrorCode, Result, ok, err, raise}
use stashd.Config.{ClusterConfig}
use stashd.Config.Distribution.{
  ConfigDocument, HeldConfig, Response, Fetched, Reloaded, changed, unchanged, rejected,
  load_cluster_document, fetch, refresh_config, reload_document,
}
use stashd.Services.Registering.{Registration, Registered}

-- The plan's cache is the text of the file; its source is the argument of a refresh.
pub record RefreshPlan : Type 0 where
  pub cache : Option Text
  pub held : HeldConfig

pub record Announcement : Type 0 where
  pub daemon_id : Text
  pub storages : List Text
  pub version : Text

pub record App : Type 0 where
  pub cluster : Option ClusterConfig
  pub document : Option ConfigDocument
  pub config_degraded : Bool
  pub refresh : Option RefreshPlan
  pub reload_from : Option Text
  pub announcement : Option Announcement

unfoldable pub apply_document : App → ConfigDocument → Bool → App
apply_document app document degraded = record app {
  document = some document;
  cluster = some document.config;
  config_degraded = degraded;
}

abbrev pub adopt : App → Reloaded → App × Bool
adopt app (changed d) = (apply_document app d false, true)
adopt app unchanged = (app, false)
adopt app rejected = (app, false)

-- What the controller answers to a registration: nothing, a refusal, or whether it wants a refresh.
abbrev pub RegisterAnswer : Type 0
RegisterAnswer = Option (Result Registered)

-- `HttpRegistrar.announce`.
unfoldable pub refresh_wanted : RegisterAnswer → Bool
refresh_wanted none = false
refresh_wanted (some (err e)) = false
refresh_wanted (some (ok r)) = r.refresh_needed

-- The registration that `announce` sends, if any; a process without a registrar has no announcement.
unfoldable pub registration_of : App → Option Registration
registration_of app = elim app.announcement [
  | none ↦ none
  | some a ↦ elim app.document [
    | none ↦ none
    | some d ↦ some (record {
      daemon_id = a.daemon_id;
      storages = a.storages;
      config_revision = d.config.revision;
      version = a.version;
    })
  ]
]

unfoldable pub announce : App → (Registration → RegisterAnswer) → Bool
unfolding registration_of refresh_wanted
announce app controller = elim (registration_of app) [
  | none ↦ false
  | some r ↦ refresh_wanted (controller r)
]

-- The route `cluster_config`: the text of the document, which is what a daemon reads of it.
unfoldable pub cluster_config : App → Result Text
cluster_config app = elim app.document [ none ↦ raise ErrorCode.not_found [] | some d ↦ ok d.text ]

module _ (parse : Text → Option ClusterConfig) (content_hash : ClusterConfig → Text) where
  -- `reload_cluster_config`; `contents` is the file at both reads, `none` where it is missing.
  unfoldable pub reload_cluster_config : App → Option Text → Text → App × Bool
  unfolding reload_document load_cluster_document apply_document
  reload_cluster_config app contents again = elim app.reload_from [
    | none ↦ (app, false)
    | some path ↦ elim app.document [
      | none ↦ (app, false)
      | some running ↦
          adopt app
            (reload_document content_hash (load_cluster_document parse contents again) running)
    ]
  ]

  -- `refresh_cluster_config`, with the controller's answer to the fetch; the announcement that
  -- follows is what `registration_of` gives of the state that is left.
  unfoldable pub refresh_cluster_config : App → Response → App × Bool
  unfolding fetch refresh_config apply_document
  refresh_cluster_config app answer = elim app.refresh [
    | none ↦ (app, false)
    | some plan ↦
        (let (held, cache, updated) =
            refresh_config content_hash (fetch parse answer) plan.cache plan.held in
          let kept : App = record app { refresh = some (record { cache = cache; held = held }) } in
          (apply_document kept held.document held.degraded, updated))
  ]
