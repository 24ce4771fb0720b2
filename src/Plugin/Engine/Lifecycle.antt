-- ===== src/Plugin/Engine/Lifecycle.antt =====
-- The phases of `build`: what ran, in which order, when it succeeds and when it fails.
use mathlib.Core.List.{append-nil, append_assoc}
use mathlib.Core.Path.{subst}
use rusty_gasket.Common.{
  List, [], ◌∷◌, ◌++◌, map, reverse, Option, none, some, ◌≡◌, refl, ◌⊎◌, inl, inr, ap, sym, ◌∙◌,
  Option-cases, arith, same_of_some, same_of_inl, result_cases,
}
use rusty_gasket.Plugin.Engine.{
  Plugin, Event, inited, configured, prepared, shut_down, prepare_failed, GasketApp, BuildResult,
  built, failed, aborted, init_all, configure_all, prepare_all, after_prepare, after_configure,
  run_phases,
}

module _ {Config Extensions Actions Error : Type 0} where
  -- A state that each plugin changes in turn.
  abbrev pub in_turn :
      {S : Type 0}
      → (Plugin Config Extensions Actions Error → S → S)
      → List (Plugin Config Extensions Actions Error)
      → S
      → S
  in_turn f [] s = s
  in_turn f (p ∷ ps) s = in_turn f ps (f p s)

  -- The calls of a phase: the hook of each plugin once, in order.
  abbrev pub inits : List (Plugin Config Extensions Actions Error) → List Event
  inits ps = map (λ p. inited p.name) ps

  abbrev pub configures : List (Plugin Config Extensions Actions Error) → List Event
  configures ps = map (λ p. configured p.name) ps

  abbrev pub prepares : List (Plugin Config Extensions Actions Error) → List Event
  prepares ps = map (λ p. prepared p.name) ps

  -- The hook `prepare` of every plugin succeeds, and together they make `y` of the extensions `x`.
  abbrev pub Prepares :
      Config → List (Plugin Config Extensions Actions Error) → Extensions → Extensions → Type 0
  Prepares config [] x y = x ≡ y
  Prepares config (p ∷ ps) x y =
      ((p.prepare config x).1 ≡ none) × Prepares config ps (p.prepare config x).0 y

  init_all-ran :
      (ps : List (Plugin Config Extensions Actions Error)) (actions : Actions)
      → init_all ps actions ≡ (inits ps, in_turn (λ p a. p.init a) ps actions)
  unfolding init_all
  init_all-ran [] actions = refl
  init_all-ran (p ∷ ps) actions =
      ap (λ r. (inited p.name ∷ r.0, r.1)) (init_all-ran ps (p.init actions))

  configure_all-ran :
      (ps : List (Plugin Config Extensions Actions Error)) (config : Config)
      → configure_all ps config ≡ (configures ps, in_turn (λ p c. p.configure c) ps config)
  unfolding configure_all
  configure_all-ran [] config = refl
  configure_all-ran (p ∷ ps) config =
      ap (λ r. (configured p.name ∷ r.0, r.1)) (configure_all-ran ps (p.configure config))

  prepare_all-Prepares :
      (before ps : List (Plugin Config Extensions Actions Error)) (config : Config)
      (x y : Extensions)
      → (prepare_all before ps config x).1 ≡ inl y
      → Prepares config ps x y × ((prepare_all before ps config x).0 ≡ prepares ps)
  unfolding prepare_all
  prepare_all-Prepares before [] config x y h = (same_of_inl h, refl)
  prepare_all-Prepares before (p ∷ ps) config x y h = elim (Option-cases (p.prepare config x).1) [
    | inr (e, fails) ↦ let out = rw (fails, prepare_all) at h in absurd (ground arith)
    | inl works ↦
        let (later, events) =
          prepare_all-Prepares (before ++ p ∷ []) ps config (p.prepare config x).0 y
            (rw (works, prepare_all) at h) in
        ((works, later), rw (works, prepare_all) (ap (◌∷◌ (prepared p.name)) events))
  ]

  prepare_all-failed :
      (before front rest : List (Plugin Config Extensions Actions Error))
      (failing : Plugin Config Extensions Actions Error) (config : Config) (x y : Extensions)
      (e : Error)
      → Prepares config front x y
      → (failing.prepare config y).1 ≡ some e
      → prepare_all before (front ++ failing ∷ rest) config x ≡ (
        prepares front
            ++ prepared failing.name ∷ map (λ p. shut_down p.name) (reverse (before ++ front)),
        inr e,
      )
  unfolding prepare_all
  prepare_all-failed before [] rest failing config x y e same fails =
      let here : (failing.prepare config x).1 ≡ some e = rw (← same) at fails in
      rw (here, prepare_all, append-nil before) refl
  prepare_all-failed before (p ∷ front) rest failing config x y e (works, later) fails =
      let below =
        prepare_all-failed (before ++ p ∷ []) front rest failing config (p.prepare config x).0 y e
          later fails in
      rw (works, prepare_all)
        (ap (λ r. (prepared p.name ∷ r.0, r.1)) below
          ∙ ap
              (λ l. (
                prepared p.name
                    ∷ (prepares front
                        ++ prepared failing.name ∷ map (λ q. shut_down q.name) (reverse l)),
                inr e,
              ))
              (append_assoc before (p ∷ []) front))

  abbrev pub events_of : BuildResult Config Extensions Actions Error → List Event
  events_of (built app events) = events
  events_of (failed e events) = events
  events_of aborted = []

  abbrev pub app_of :
      BuildResult Config Extensions Actions Error
      → Option (GasketApp Config Extensions Actions Error)
  app_of (built app events) = some app
  app_of (failed e events) = none
  app_of aborted = none

  run_phases-started :
      (ps : List (Plugin Config Extensions Actions Error)) (actions : Actions) (config : Config)
      (x : Extensions)
      → let c = in_turn (λ p d. p.configure d) ps config in
        run_phases ps actions (inl config) x
        ≡ after_prepare ps
            (in_turn (λ p a. p.init a) ps actions)
            c
            (inits ps ++ configures ps)
            (prepare_all [] ps c x)
  unfolding run_phases
  run_phases-started ps actions config x =
      ap (λ r. after_configure ps r (configure_all ps config) x) (init_all-ran ps actions)
      ∙ ap (λ r. after_configure ps (inits ps, in_turn (λ p a. p.init a) ps actions) r x)
          (configure_all-ran ps config)

  -- What the phases did, when they succeed: the configuration resolved; every plugin's `init` made the
  -- actions in turn, then every `configure` the configuration, then every `prepare` the extensions
  -- without an error; and nothing else was called.
  pub record RanAll (ps : List (Plugin Config Extensions Actions Error)) (actions : Actions)
      (resolved : Config ⊎ Error) (x : Extensions) (app : GasketApp Config Extensions Actions Error)
      (events : List Event) : Type 0 where
    pub config : Config
    pub was_resolved : resolved ≡ inl config
    pub plugins : app.plugins ≡ ps
    pub actions_made : app.actions ≡ in_turn (λ p a. p.init a) ps actions
    pub config_made : app.config ≡ in_turn (λ p c. p.configure c) ps config
    pub prepared_all : Prepares app.config ps x app.extensions
    pub called : events ≡ (inits ps ++ configures ps) ++ prepares ps

  pub run_phases-built :
      (ps : List (Plugin Config Extensions Actions Error)) (actions : Actions)
      (resolved : Config ⊎ Error) (x : Extensions) (app : GasketApp Config Extensions Actions Error)
      (events : List Event)
      → run_phases ps actions resolved x ≡ built app events
      → RanAll ps actions resolved x app events
  unfolding run_phases
  run_phases-built ps actions (inr e) x app events h = absurd (ground arith)
  run_phases-built ps actions (inl config) x app events h =
      let c = in_turn (λ p d. p.configure d) ps config in
      let actions' = in_turn (λ p a. p.init a) ps actions in
      let started = inits ps ++ configures ps in
      let ran = sym (run_phases-started ps actions config x) ∙ h in
      elim (result_cases (prepare_all [] ps c x).1) [
        | inr (e, fails) ↦ let out = rw (fails, after_prepare) at ran in absurd (ground arith)
        | inl (y, done) ↦
            let (later, called) = prepare_all-Prepares [] ps c x y done in
            let out = rw (done, after_prepare) at ran in
            let made = same_of_some (ap app_of out) in
            record {
              config = config;
              was_resolved = refl;
              plugins = sym (ap (λ a. a.plugins) made);
              actions_made = sym (ap (λ a. a.actions) made);
              config_made = sym (ap (λ a. a.config) made);
              prepared_all = subst (λ a. Prepares a.config ps x a.extensions) made later;
              called = sym (ap events_of out) ∙ ap (◌++◌ (inits ps ++ configures ps)) called;
            }
      ]

  -- When the configuration resolves and the `prepare` of a plugin fails, after those of the plugins
  -- before it have succeeded, the build fails with its error: every plugin was initialised and configured,
  -- the failing plugin was the last to be prepared, and then exactly the plugins prepared before it were
  -- shut down, each once and in the reverse order.
  pub run_phases-failed :
      (front rest : List (Plugin Config Extensions Actions Error))
      (failing : Plugin Config Extensions Actions Error) (actions : Actions) (config : Config)
      (x y : Extensions) (e : Error)
      → let ps = front ++ failing ∷ rest in
        let c = in_turn (λ p d. p.configure d) ps config in
        Prepares c front x y
        → (failing.prepare c y).1 ≡ some e
        → run_phases ps actions (inl config) x
          ≡ failed (prepare_failed e) (
              (inits ps ++ configures ps)
              ++ (prepares front
                  ++ prepared failing.name ∷ map (λ p. shut_down p.name) (reverse front)))
  unfolding run_phases
  run_phases-failed front rest failing actions config x y e works fails =
      let ps = front ++ failing ∷ rest in
      let c = in_turn (λ p d. p.configure d) ps config in
      run_phases-started ps actions config x
      ∙ ap (after_prepare ps (in_turn (λ p a. p.init a) ps actions) c (inits ps ++ configures ps))
          (prepare_all-failed [] front rest failing c x y e works fails)
