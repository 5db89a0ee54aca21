-- ===== src/Config/Distribution/Restarting.antt =====
-- A daemon that restarts while the controller is away (config/distribution.py).
use stashd.Prelude.{Text, ◌≡◌, refl, true, List, [], ◌∷◌, Option, some, arith}
use stashd.Config.{ClusterConfig}
use stashd.Config.Distribution.{
  Response, http_error, refused, served, HeldConfig, unavailable, parse_cluster_document, fetch,
  read_cache, obtain_config, refresh_config,
}

module _ (parse : Text → Option ClusterConfig) (content_hash : ClusterConfig → Text) where
  -- The refreshes of a daemon, one after another, whatever the controller answers to each.
  unfoldable pub refresh_all : List Response → Option Text → HeldConfig → HeldConfig × Option Text
  unfolding fetch refresh_config
  refresh_all [] cache held = (held, cache)
  refresh_all (r ∷ rs) cache held =
      let (held', cache', updated) = refresh_config content_hash (fetch parse r) cache held in
      refresh_all rs cache' held'

  -- The cache holds what the daemon runs on.
  abbrev Cached : Option Text → HeldConfig → Type 0
  Cached cache held =
      read_cache parse cache ≡ some (record { document = held.document; degraded = true })

  obtain_config-Cached :
      (r : Response) (before after : Option Text) (held : HeldConfig)
      → obtain_config parse (fetch parse r) before ≡ (some held, after)
      → Cached after held
  unfolding obtain_config fetch read_cache parse_cluster_document
  obtain_config-Cached http_error before after held h = ground arith
  obtain_config-Cached (refused status) before after held h = ground arith
  obtain_config-Cached (served text) before after held h = ground arith

  refresh_config-Cached :
      (r : Response) (cache : Option Text) (held : HeldConfig)
      → Cached cache held
      → let next = refresh_config content_hash (fetch parse r) cache held in Cached next.1 next.0
  unfolding refresh_config fetch read_cache parse_cluster_document
  refresh_config-Cached http_error cache held h = h
  refresh_config-Cached (refused status) cache held h = h
  refresh_config-Cached (served text) cache held h = ground arith

  refresh_all-Cached :
      (rs : List Response) (cache : Option Text) (held : HeldConfig)
      → Cached cache held
      → Cached (refresh_all rs cache held).1 (refresh_all rs cache held).0
  unfolding refresh_all
  refresh_all-Cached [] cache held h = h
  refresh_all-Cached (r ∷ rs) cache held h =
      refresh_all-Cached rs _ _ (refresh_config-Cached r cache held h)

  -- A daemon that started, from the controller or from its cache, and was refreshed any number of
  -- times, whatever the controller answered, can start again without the controller: on the
  -- document that it held last, marked as degraded, and with its cache left as it is.
  pub obtain_config-refresh_all :
      (first : Response) (before after : Option Text) (held : HeldConfig) (rs : List Response)
      → obtain_config parse (fetch parse first) before ≡ (some held, after)
      → let last = refresh_all rs after held in
        obtain_config parse unavailable last.1
        ≡ (some (record { document = last.0.document; degraded = true }), last.1)
  unfolding obtain_config
  obtain_config-refresh_all first before after held rs started =
      rw (refresh_all-Cached rs after held (obtain_config-Cached first before after held started))
        refl
