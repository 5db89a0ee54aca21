-- ===== src/Api/Running/Following.antt =====
-- A controller whose config is edited and a daemon that asks for it (api/app.py).
pub mod Catching
use stashd.Prelude.{
  ℕ, ◌≤◌, ◌<◌, Text, same, same_iff, same_refl, ◌≡◌, refl, sym, ap, ◌∙◌, subst, ◌⊎◌, inl, inr, Bool,
  true, false, Bool-cases, Option-cases, List, [], ◌∷◌, All, ◌++◌, Option, none, some, ltb, ◌==◌,
  if◌then◌else◌, arith,
}
use stashd.Domain.Errors.{Result, ok, err}
use stashd.Config.{ClusterConfig}
use stashd.Config.Distribution.{
  ConfigDocument, HeldConfig, Response, Fetched, http_error, refused, served, same_hash, fetch,
  document, unavailable, invalid, parse_cluster_document, load_cluster_document, refresh_config,
  reload_document, Reloaded, changed, unchanged, rejected,
}
use stashd.Api.Failures.{status_of}
use stashd.Api.Running.{
  App, RefreshPlan, adopt, apply_document, cluster_config, reload_cluster_config,
  refresh_cluster_config,
}

pub record System : Type 0 where
  pub controller : App
  pub daemon : App

-- A reload of the controller's file, whose two reads (one for the config, one for its text) find a
-- file or none and then a text; or the daemon's refresh comes round and does or does not reach the
-- controller.
pub data Event : Type 0 where
  edited : Option Text → Text → Event
  asked : Bool → Event

abbrev pub contents_of : Option Text → Text
contents_of none = []
contents_of (some text) = text

-- Both reads of a reload find the same.
abbrev pub Whole : Event → Type 0
Whole (edited contents again) = again ≡ contents_of contents
Whole (asked reached) = Unit

abbrev respond : Result Text → Response
respond (ok text) = served text
respond (err e) = refused (status_of e.code)

unfoldable pub answer_of : App → Bool → Response
unfolding cluster_config
answer_of controller true = respond (cluster_config controller)
answer_of controller false = http_error

module _ (parse : Text → Option ClusterConfig) (content_hash : ClusterConfig → Text) where
  unfoldable pub step : System → Event → System
  unfolding reload_cluster_config refresh_cluster_config answer_of
  step s (edited contents again) = record s {
    controller = (reload_cluster_config parse content_hash s.controller contents again).0;
  }
  step s (asked reached) = record s {
    daemon =
        (refresh_cluster_config parse content_hash s.daemon (answer_of s.controller reached)).0;
  }

  unfoldable pub run : System → List Event → System
  unfolding step
  run s [] = s
  run s (e ∷ es) = run (step s e) es

  -- `d` is not ahead of what runs, and is the same config where it has the same revision.
  abbrev pub Level : ConfigDocument → ConfigDocument → Type 0
  Level running d =
      (d.config.revision ≤ running.config.revision)
      × (d.config.revision ≡ running.config.revision → same_hash content_hash running d ≡ true)

  -- The controller runs on what it serves; what the daemon runs on is what it holds, is never ahead
  -- of the controller, and is the controller's config where the revisions are the same.
  pub record Follows (s : System) : Type 0 where
    pub running : ConfigDocument
    pub plan : RefreshPlan
    pub runs : s.controller.document ≡ some running
    pub serves : s.controller.cluster ≡ some running.config
    pub parses : parse running.text ≡ some running.config
    pub refreshes : s.daemon.refresh ≡ some plan
    pub held_document : s.daemon.document ≡ some plan.held.document
    pub held_cluster : s.daemon.cluster ≡ some plan.held.document.config
    pub held_degraded : s.daemon.config_degraded ≡ plan.held.degraded
    pub level : Level running plan.held.document

  -- What a reload leaves: the app as it was, or a later config that the file validated to.
  abbrev Later : App → ConfigDocument → App → Type 0
  Later app running left =
      (left ≡ app)
      ⊎ ((d : ConfigDocument) × (left ≡ apply_document app d false)
          × (running.config.revision < d.config.revision)
          × (parse d.text ≡ some d.config))

  -- A reload that changes the config takes the file's, and its revision is greater.
  abbrev Ahead : Option ConfigDocument → ConfigDocument → Reloaded → Type 0
  Ahead candidate running (changed d) =
      (candidate ≡ some d) × (running.config.revision < d.config.revision)
  Ahead candidate running unchanged = Unit
  Ahead candidate running rejected = Unit

  reload_document-Ahead :
      (candidate : Option ConfigDocument) (running : ConfigDocument)
      → Ahead candidate running (reload_document content_hash candidate running)
  unfolding reload_document
  reload_document-Ahead none running = tt
  reload_document-Ahead (some d) running = elim (Bool-cases (same_hash content_hash d running)) [
    | inl e ↦ rw e tt
    | inr e ↦ rw e (elim (Bool-cases (d.config.revision == running.config.revision)) [
      | inl k ↦ rw k tt
      | inr k ↦ rw k (elim (Bool-cases (ltb d.config.revision running.config.revision)) [
        | inl l ↦ rw l tt
        | inr l ↦ rw l (refl, ground arith)
      ])
    ])
  ]

  load_cluster_document-parse :
      (contents : Option Text) (d : ConfigDocument)
      → load_cluster_document parse contents (contents_of contents) ≡ some d
      → parse d.text ≡ some d.config
  unfolding load_cluster_document
  load_cluster_document-parse none d h = cc
  load_cluster_document-parse (some text) d h = ground arith

  adopted-Later :
      (app : App) (running : ConfigDocument) (contents : Option Text) (r : Reloaded)
      → Ahead (load_cluster_document parse contents (contents_of contents)) running r
      → Later app running (adopt app r).0
  adopted-Later app running contents (changed d) h =
      inr (d, refl, h.1, load_cluster_document-parse contents d h.0)
  adopted-Later app running contents unchanged h = inl refl
  adopted-Later app running contents rejected h = inl refl

  reload-Later :
      (app : App) (running : ConfigDocument) (contents : Option Text)
      → app.document ≡ some running
      → Later app running
          (reload_cluster_config parse content_hash app contents (contents_of contents)).0
  unfolding reload_cluster_config
  reload-Later app running contents e = elim (Option-cases app.reload_from) [
    | inl f ↦ inl (rw f refl)
    | inr (path, f) ↦ subst (Later app running) (sym (rw (f, e) refl)) (
        adopted-Later app running contents _ (
          reload_document-Ahead (load_cluster_document parse contents (contents_of contents))
            running))
  ]

  Level-Later :
      (running d held : ConfigDocument)
      → Level running held
      → running.config.revision < d.config.revision
      → Level d held
  Level-Later running d held (le, agrees) lt = (omega arith, λ e. absurd (omega arith))

  refresh_config-Level :
      (running : ConfigDocument) (cache : Option Text) (held : HeldConfig) (f : Fetched)
      → (f ≡ unavailable) ⊎ (f ≡ document running)
      → Level running held.document
      → Level running (refresh_config content_hash f cache held).0.document
  unfolding refresh_config
  refresh_config-Level running cache held f (inl e) l = rw e l
  refresh_config-Level running cache held f (inr e) l =
      rw e (elim (Bool-cases (same_hash content_hash running held.document)) [
        | inl k ↦ rw k l
        | inr k ↦ rw k (omega arith, λ e. same_refl (content_hash running.config))
      ])

  cluster_config_lem :
      (app : App) (running : ConfigDocument)
      → app.document ≡ some running
      → cluster_config app ≡ ok running.text
  unfolding cluster_config
  cluster_config_lem app running e = rw e refl

  fetch_lem :
      (d : ConfigDocument) → parse d.text ≡ some d.config → fetch parse (served d.text) ≡ document d
  unfolding fetch parse_cluster_document
  fetch_lem d k = ground arith

  pub fetch-answer_of :
      (controller : App) (running : ConfigDocument) (reached : Bool)
      → controller.document ≡ some running
      → parse running.text ≡ some running.config
      → fetch parse (answer_of controller reached)
        ≡ (if reached then document running else unavailable)
  unfolding answer_of
  fetch-answer_of controller running true e k =
      ap (λ r. fetch parse (respond r)) (cluster_config_lem controller running e)
      ∙ fetch_lem running k
  fetch-answer_of controller running false e k = no_answer
    where
      no_answer : fetch parse http_error ≡ unavailable
      no_answer = unfold fetch in refl

  -- The plan after a refresh, and what the refresh leaves of the app.
  abbrev pub next_plan : RefreshPlan → Fetched → RefreshPlan
  next_plan plan f =
      let next = refresh_config content_hash f plan.cache plan.held in
      record { cache = next.1; held = next.0 }

  pub refresh_cluster_config_lem :
      (app : App) (plan : RefreshPlan) (r : Response)
      → app.refresh ≡ some plan
      → (refresh_cluster_config parse content_hash app r).0 ≡ (
          let next = next_plan plan (fetch parse r) in
          apply_document (record app { refresh = some next }) next.held.document next.held.degraded)
  unfolding refresh_cluster_config
  refresh_cluster_config_lem app plan r e = rw e refl

  pub step-Follows : (s : System) (e : Event) → Whole e → Follows s → Follows (step s e)
  unfolding step apply_document
  step-Follows s (edited contents again) whole w =
      let left =
        subst
          (λ t.
            Later s.controller w.running
              (reload_cluster_config parse content_hash s.controller contents t).0)
          (sym whole) (reload-Later s.controller w.running contents w.runs) in
      elim left [
        | inl same_app ↦ record {
          running = w.running;
          plan = w.plan;
          runs = ap (λ (a : App). a.document) same_app ∙ w.runs;
          serves = ap (λ (a : App). a.cluster) same_app ∙ w.serves;
          parses = w.parses;
          refreshes = w.refreshes;
          held_document = w.held_document;
          held_cluster = w.held_cluster;
          held_degraded = w.held_degraded;
          level = w.level;
        }
        | inr (d, applied, lt, parses) ↦ record {
          running = d;
          plan = w.plan;
          runs = ap (λ (a : App). a.document) applied;
          serves = ap (λ (a : App). a.cluster) applied;
          parses = parses;
          refreshes = w.refreshes;
          held_document = w.held_document;
          held_cluster = w.held_cluster;
          held_degraded = w.held_degraded;
          level = Level-Later w.running d w.plan.held.document w.level lt;
        }
      ]
  step-Follows s (asked reached) whole w =
      let f = fetch parse (answer_of s.controller reached) in
      let left =
        refresh_cluster_config_lem s.daemon w.plan (answer_of s.controller reached) w.refreshes in
      record {
        running = w.running;
        plan = next_plan w.plan f;
        runs = w.runs;
        serves = w.serves;
        parses = w.parses;
        refreshes = ap (λ (a : App). a.refresh) left;
        held_document = ap (λ (a : App). a.document) left;
        held_cluster = ap (λ (a : App). a.cluster) left;
        held_degraded = ap (λ (a : App). a.config_degraded) left;
        level =
            refresh_config-Level w.running w.plan.cache w.plan.held f
              (answered reached (fetch-answer_of s.controller w.running reached w.runs w.parses))
              w.level;
      }
    where
      answered :
          (b : Bool) {f d : Fetched}
          → f ≡ (if b then d else unavailable)
          → (f ≡ unavailable) ⊎ (f ≡ d)
      answered true e = inr e
      answered false e = inl e

  -- Start from a controller that runs on what it serves and a daemon whose `app.state` is the config
  -- it holds, not ahead of the controller's and the same where the revisions are the same. Then this
  -- stays so through any sequence of reloads of the controller's file and of the daemon's refreshes,
  -- those that do not reach the controller included, where the two reads of each reload find the
  -- same contents: the daemon's config is never of a later revision than the controller's, and has
  -- the controller's content wherever it has its revision; and the text that the controller serves
  -- validates to what it runs on.
  pub run-Follows : (s : System) (es : List Event) → All Whole es → Follows s → Follows (run s es)
  unfolding run
  run-Follows s [] whole w = w
  run-Follows s (e ∷ es) (h, whole) w = run-Follows (step s e) es whole (step-Follows s e h w)
