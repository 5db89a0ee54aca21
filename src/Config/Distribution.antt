-- ===== src/Config/Distribution.antt =====
-- config/distribution.py, config/reload.py and clients/config.py: how the controller's config
-- changes, and how a daemon gets it and keeps it. What YAML and pydantic make of a text, and the hash
-- of a config, are arguments. Reading and writing the cache succeed.
pub mod Restarting
use stashd.Prelude.{
  ℕ, Text, same, Bool, true, false, not, ◌&&◌, ltb, ◌==◌, Option, none, some, if◌then◌else◌,
}
use stashd.Config.{ClusterConfig}

-- A validated config together with the text it came from.
pub record ConfigDocument : Type 0 where
  pub config : ClusterConfig
  pub text : Text

-- What the controller answered: nothing, a status that is no success, or a text.
pub data Response : Type 0 where
  http_error : Response
  refused : ℕ → Response
  served : Text → Response

-- A returned document, or the exception of a fetch: ConfigUnavailable or ConfigError.
pub data Fetched : Type 0 where
  document : ConfigDocument → Fetched
  unavailable : Fetched
  invalid : Fetched

-- The daemon's config, and whether it reached the controller for it.
pub record HeldConfig : Type 0 where
  pub document : ConfigDocument
  pub degraded : Bool

-- What a reload answers: the new document, none where the file says the same, or ConfigError.
pub data Reloaded : Type 0 where
  changed : ConfigDocument → Reloaded
  unchanged : Reloaded
  rejected : Reloaded

module _ (parse : Text → Option ClusterConfig) where
  -- `parse_cluster_document`; `none` is ConfigError.
  unfoldable pub parse_cluster_document : Text → Option ConfigDocument
  parse_cluster_document text = elim (parse text) [
    | none ↦ none
    | some config ↦ some (record { config = config; text = text })
  ]

  -- `load_cluster_document`, which reads the file twice; `none` is a file that is missing.
  unfoldable pub load_cluster_document : Option Text → Text → Option ConfigDocument
  load_cluster_document none again = none
  load_cluster_document (some contents) again = elim (parse contents) [
    | none ↦ none
    | some config ↦ some (record { config = config; text = again })
  ]

  abbrev parsed : Option ConfigDocument → Fetched
  parsed none = invalid
  parsed (some d) = document d

  -- `HttpConfigSource.fetch`.
  unfoldable pub fetch : Response → Fetched
  unfolding parse_cluster_document
  fetch http_error = unavailable
  fetch (refused status) = unavailable
  fetch (served text) = parsed (parse_cluster_document text)

  abbrev from_cache : Option ConfigDocument → Option HeldConfig
  from_cache none = none
  from_cache (some d) = some (record { document = d; degraded = true })

  -- `ConfigCache.read`, and what obtain_config makes of it: without a cache, and with one that does
  -- not validate, the daemon refuses to start.
  unfoldable pub read_cache : Option Text → Option HeldConfig
  unfolding parse_cluster_document
  read_cache none = none
  read_cache (some text) = from_cache (parse_cluster_document text)

  -- `obtain_config`, with the cache's text before and after; `none` is ConfigError.
  unfoldable pub obtain_config : Fetched → Option Text → Option HeldConfig × Option Text
  unfolding read_cache
  obtain_config unavailable cache = (read_cache cache, cache)
  obtain_config invalid cache = (none, cache)
  obtain_config (document d) cache = (some (record { document = d; degraded = false }), some d.text)

module _ (content_hash : ClusterConfig → Text) where
  abbrev pub same_hash : ConfigDocument → ConfigDocument → Bool
  same_hash d e = same (content_hash d.config) (content_hash e.config)

  -- What is held afterwards, the cache's text, and whether the config was changed.
  unfoldable pub refresh_config :
      Fetched → Option Text → HeldConfig → HeldConfig × Option Text × Bool
  unfolding same
  refresh_config unavailable cache held = (record held { degraded = true }, cache, false)
  refresh_config invalid cache held = (record held { degraded = true }, cache, false)
  refresh_config (document d) cache held =
      if same_hash d held.document
      then (record held { degraded = false }, cache, false)
      else (record { document = d; degraded = false }, some d.text, true)

  abbrev reloaded : ConfigDocument → ConfigDocument → Reloaded
  reloaded candidate running =
      if same_hash candidate running
      then unchanged
      else if candidate.config.revision == running.config.revision
      then rejected
      else if ltb candidate.config.revision running.config.revision
      then rejected
      else changed candidate

  -- `reload_document`, of the file that was read.
  unfoldable pub reload_document : Option ConfigDocument → ConfigDocument → Reloaded
  unfolding same
  reload_document none running = rejected
  reload_document (some candidate) running = reloaded candidate running
