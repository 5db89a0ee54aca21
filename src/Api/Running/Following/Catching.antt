-- ===== src/Api/Running/Following/Catching.antt =====
-- A refresh that reaches the controller (api/app.py, services/daemons.py).
use stashd.Prelude.{
  ℕ, Text, same_iff, same_refl, ◌≡◌, refl, sym, ap, ◌∙◌, inl, inr, true, false, Bool-cases,
  Option-cases, List, [], ◌∷◌, All, ◌++◌, Option, none, some, ltb, arith,
}
use stashd.Domain.Errors.{Result, ok, err}
use stashd.Config.{ClusterConfig}
use stashd.Config.Distribution.{
  ConfigDocument, HeldConfig, same_hash, document, fetch, refresh_config,
}
use stashd.Models.{Db}
use stashd.Session.{outcome}
use stashd.Session.Leads.{Leads, Leads-bind, Leads-pure}
use stashd.Services.Registering.{Registration, Registered, register_daemon}
use stashd.Services.Registering.Accepting.{register-announced}
use stashd.Api.Running.{
  App, RegisterAnswer, apply_document, registration_of, refresh_wanted, announce,
}
use stashd.Api.Running.Following.{
  System, Event, Whole, asked, answer_of, step, run, Follows, run-Follows, step-Follows, next_plan,
  fetch-answer_of, refresh_cluster_config_lem,
}

register_daemon-Leads :
    (cluster : ClusterConfig) (now : ℕ) (r : Registration)
    → Leads
        (λ _. Unit {0})
        (register_daemon cluster now r)
        (λ g _. g.refresh_needed ≡ ltb r.config_revision cluster.revision)
unfolding register_daemon
register_daemon-Leads cluster now r =
    Leads-bind _ _ _ (register-announced cluster now r)
      λ row. Leads-pure _ _ λ s e. ap (λ n. ltb n cluster.revision) (ap (λ d. d.config_revision) e)

wanted :
    (o : Result Registered)
    → ((g : Registered) → o ≡ ok g → g.refresh_needed ≡ false)
    → refresh_wanted (some o) ≡ false
unfolding refresh_wanted
wanted (ok g) k = k g refl
wanted (err e) k = refl

-- A daemon on the controller's revision is not asked to refresh, whether or not it is accepted.
current :
    (cluster : ClusterConfig) (now : ℕ) (db : Db) (r : Registration)
    → r.config_revision ≡ cluster.revision
    → refresh_wanted (some (outcome (register_daemon cluster now r) db)) ≡ false
unfolding outcome
current cluster now db r e = wanted _ λ g q.
    (register_daemon-Leads cluster now r).at (record { committed = db; working = db }) tt g q
    ∙ ground arith

-- What the controller answers to a registration; without a config its dependency raises.
unfoldable pub register_answer : App → ℕ → Db → Registration → RegisterAnswer
unfolding register_daemon
register_answer app now db r = elim app.cluster [
  | none ↦ none
  | some cluster ↦ some (outcome (register_daemon cluster now r) db)
]

-- The daemon's config has the content of the controller's, and it is not degraded.
pub record CaughtUp (content_hash : ClusterConfig → Text) (s : System) : Type 0 where
  pub running : ConfigDocument
  pub held : ConfigDocument
  pub runs : s.controller.document ≡ some running
  pub holds : s.daemon.document ≡ some held
  pub same_content : same_hash content_hash running held ≡ true
  pub reached : s.daemon.config_degraded ≡ false

module _ (parse : Text → Option ClusterConfig) (content_hash : ClusterConfig → Text) where
  taken :
      (running : ConfigDocument) (cache : Option Text) (held : HeldConfig)
      → let next = (refresh_config content_hash (document running) cache held).0 in
        (same_hash content_hash running next.document ≡ true) × (next.degraded ≡ false)
  unfolding refresh_config
  taken running cache held = elim (Bool-cases (same_hash content_hash running held.document)) [
    | inl e ↦ rw e (e, refl)
    | inr e ↦ rw e (same_refl (content_hash running.config), refl)
  ]

  asked-CaughtUp :
      (s : System)
      → Follows parse content_hash s
      → CaughtUp content_hash (step parse content_hash s (asked true))
  unfolding step apply_document
  asked-CaughtUp s w =
      let answer = answer_of s.controller true in
      let left = refresh_cluster_config_lem parse content_hash s.daemon w.plan answer w.refreshes in
      let found = taken w.running w.plan.cache w.plan.held in
      let got = fetch-answer_of parse content_hash s.controller w.running true w.runs w.parses in
      let settled : (same_hash content_hash w.running
              (next_plan parse content_hash w.plan (fetch parse answer)).held.document
            ≡ true)
          × ((next_plan parse content_hash w.plan (fetch parse answer)).held.degraded ≡ false) =
        rw got found in
      record {
        running = w.running;
        held = (next_plan parse content_hash w.plan (fetch parse answer)).held.document;
        runs = w.runs;
        holds = ap (λ (a : App). a.document) left;
        same_content = settled.0;
        reached = ap (λ (a : App). a.config_degraded) left ∙ settled.1;
      }

  run-append :
      (s : System) (es : List Event) (e : Event)
      → run parse content_hash s (es ++ (e ∷ []))
        ≡ step parse content_hash (run parse content_hash s es) e
  unfolding run
  run-append s [] e = refl
  run-append s (x ∷ es) e = run-append (step parse content_hash s x) es e

  -- What the controller answers to the announcement of a daemon that has caught up.
  announced-current :
      (s : System) (now : ℕ) (db : Db)
      → ((c d : ClusterConfig) → content_hash c ≡ content_hash d → c.revision ≡ d.revision)
      → Follows parse content_hash s
      → CaughtUp content_hash s
      → announce s.daemon (register_answer s.controller now db) ≡ false
  unfolding announce registration_of register_answer
  announced-current s now db faithful w c =
      let one_running : c.running ≡ w.running = cc (sym c.runs ∙ w.runs) in
      let level : c.held.config.revision ≡ w.running.config.revision =
        sym (faithful c.running.config c.held.config ((same_iff _ _).0 c.same_content))
        ∙ ap (λ (d : ConfigDocument). d.config.revision) one_running in
      elim (Option-cases s.daemon.announcement) [
        | inl e ↦ rw e refl
        | inr (a, e) ↦ rw (e, c.holds, w.serves) (current w.running.config now db _ level)
      ]

  -- Start from a controller that runs on what it serves and a daemon whose `app.state` is the config
  -- it holds, not ahead of the controller's and the same where the revisions are the same. Let the
  -- controller have reloaded its file any number of times, where the two reads of each reload find
  -- the same contents, and let the daemon have asked any number of times. One more refresh that
  -- reaches the controller is enough: the daemon's `app.state` then has the content that the
  -- controller's has, is no longer degraded, and the announcement it sends is not answered by a wish
  -- for another refresh. This is where configs with one hash have one revision.
  pub run-CaughtUp :
      (s : System) (es : List Event) (now : ℕ) (db : Db)
      → ((c d : ClusterConfig) → content_hash c ≡ content_hash d → c.revision ≡ d.revision)
      → All Whole es
      → Follows parse content_hash s
      → let last = run parse content_hash s (es ++ (asked true ∷ [])) in
        CaughtUp content_hash last
        × (announce last.daemon (register_answer last.controller now db) ≡ false)
  run-CaughtUp s es now db faithful whole w =
      let before = run parse content_hash s es in
      let still = run-Follows parse content_hash s es whole w in
      let c = asked-CaughtUp before still in
      rw (run-append s es (asked true)) (
        c,
        announced-current (step parse content_hash before (asked true)) now db faithful
            (step-Follows parse content_hash before (asked true) tt still) c,
      )
