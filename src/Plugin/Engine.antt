-- ===== src/Plugin/Engine.antt =====
-- rusty-gasket/src/plugin/engine.rs: `GasketAppBuilder::build`, and the ready and shutdown phases of
-- `GasketApp`. The phases' calls of the plugins are recorded as events, in order. A plugin is its
-- hooks; the configuration, the extensions, the actions and the errors are any types.
pub mod Lifecycle
pub mod Sorting
use Prim.Native.String.{String}
use text.Mathlib.Text.{◌==◌ as str_eq}
use rusty_gasket.Common.{
  ℕ, zero, suc, Bool, true, false, not, ◌&&◌, ◌||◌, List, [], ◌∷◌, ◌++◌, map, reverse, Option, none,
  some, if◌then◌else◌, any, get_elem?, set, ◌⊎◌, inl, inr,
}
use mathlib.Core.Option
use rusty_gasket.Plugin.Ordering.{
  PluginOrdering, Declared, SortError, SortResult, ok, err, panicked, topological_sort,
}

-- `prepare` returns the extensions that it leaves, and its error.
pub record Plugin (Config Extensions Actions Error : Type 0) : Type 0 where
  pub name : String
  pub dependencies : List String
  pub ordering : PluginOrdering
  pub init : Actions → Actions
  pub configure : Config → Config
  pub prepare : Config → Extensions → Extensions × Option Error
  pub ready : Config → Extensions → Option Error
  pub shutdown : Extensions → Option Error

-- A call of a hook of the plugin with that name.
pub data Event : Type 0 where
  inited configured prepared readied shut_down : String → Event

pub data BuildError (Error : Type 0) : Type 0 where
  duplicate_plugin : String → BuildError Error
  missing_dependency : String → String → BuildError Error
  unsortable : SortError → BuildError Error
  unresolved prepare_failed : Error → BuildError Error

pub record GasketApp (Config Extensions Actions Error : Type 0) : Type 0 where
  pub plugins : List (Plugin Config Extensions Actions Error)
  pub actions : Actions
  pub config : Config
  pub extensions : Extensions

pub data BuildResult (Config Extensions Actions Error : Type 0) : Type 0 where
  built :
      GasketApp Config Extensions Actions Error
      → List Event
      → BuildResult Config Extensions Actions Error
  failed : BuildError Error → List Event → BuildResult Config Extensions Actions Error
  aborted : BuildResult Config Extensions Actions Error

-- `contains` and `HashSet::insert` on names.
abbrev pub has_name : List String → String → Bool
has_name names n = any (str_eq n) names

-- The first name that was seen before.
unfoldable pub duplicate_in : List String → List String → Option String
duplicate_in seen [] = none
duplicate_in seen (n ∷ names) =
    let later = duplicate_in (n ∷ seen) names in if has_name seen n then some n else later

unfoldable pub missing_in : List String → List String → Option String
missing_in names [] = none
missing_in names (dep ∷ deps) =
    let later = missing_in names deps in if has_name names dep then later else some dep

module _ {Config Extensions Actions Error : Type 0} where
  abbrev pub names_of : List (Plugin Config Extensions Actions Error) → List String
  names_of [] = []
  names_of (p ∷ ps) = p.name ∷ names_of ps

  -- The first plugin with a dependency that is missing, and the dependency.
  unfoldable pub missing_dependency_in :
      List String → List (Plugin Config Extensions Actions Error) → Option (String × String)
  unfolding missing_in
  missing_dependency_in names [] = none
  missing_dependency_in names (p ∷ ps) = elim (missing_in names p.dependencies) [
    | some dep ↦ some (p.name, dep)
    | none ↦ missing_dependency_in names ps
  ]

  abbrev pub declared : List (Plugin Config Extensions Actions Error) → List Declared
  declared [] = []
  declared (p ∷ ps) = record { name = p.name; ordering = p.ordering } ∷ declared ps

  abbrev pub all_some :
      List (Plugin Config Extensions Actions Error)
      → List (Option (Plugin Config Extensions Actions Error))
  all_some [] = []
  all_some (p ∷ ps) = some p ∷ all_some ps

  -- `old_plugins[idx].take()` for each index; `none` is an index out of bounds, a panic.
  unfoldable pub take_sorted :
      List (Option (Plugin Config Extensions Actions Error))
      → List ℕ
      → Option (List (Plugin Config Extensions Actions Error))
  take_sorted old [] = some []
  take_sorted old (idx ∷ order) = elim (get_elem? old idx) [
    | none ↦ none
    | some none ↦ take_sorted old order
    | some (some p) ↦ Option.map (◌∷◌ p) (take_sorted (set old idx none) order)
  ]

  -- Phases 1 and 2: each call of a hook, and what the hooks leave.
  unfoldable pub init_all :
      List (Plugin Config Extensions Actions Error) → Actions → List Event × Actions
  init_all [] actions = ([], actions)
  init_all (p ∷ ps) actions =
      let (events, after) = init_all ps (p.init actions) in (inited p.name ∷ events, after)

  unfoldable pub configure_all :
      List (Plugin Config Extensions Actions Error) → Config → List Event × Config
  configure_all [] config = ([], config)
  configure_all (p ∷ ps) config =
      let (events, after) = configure_all ps (p.configure config) in
      (configured p.name ∷ events, after)

  -- The rollback; a failed shutdown is only logged.
  abbrev pub shutdown_all : List (Plugin Config Extensions Actions Error) → List Event
  shutdown_all ps = map (λ p. shut_down p.name) (reverse ps)

  -- Phase 3: the events, and the extensions or the error. `before` are the prepared plugins.
  unfoldable pub prepare_all :
      List (Plugin Config Extensions Actions Error)
      → List (Plugin Config Extensions Actions Error)
      → Config
      → Extensions
      → List Event × (Extensions ⊎ Error)
  prepare_all before [] config extensions = ([], inl extensions)
  prepare_all before (p ∷ ps) config extensions =
      let (extensions', failure) = p.prepare config extensions in
      elim failure [
        | some e ↦ (prepared p.name ∷ shutdown_all before, inr e)
        | none ↦
            let (events, outcome) = prepare_all (before ++ p ∷ []) ps config extensions' in
            (prepared p.name ∷ events, outcome)
      ]

  -- What the calls before phase 3 and phase 3 itself come to.
  abbrev pub after_prepare :
      List (Plugin Config Extensions Actions Error)
      → Actions
      → Config
      → List Event
      → List Event × (Extensions ⊎ Error)
      → BuildResult Config Extensions Actions Error
  after_prepare plugins actions config started (events, inr e) =
      failed (prepare_failed e) (started ++ events)
  after_prepare plugins actions config started (events, inl extensions) =
      built
        (record { plugins = plugins; actions = actions; config = config; extensions = extensions })
        (started ++ events)

  abbrev pub after_configure :
      List (Plugin Config Extensions Actions Error)
      → List Event × Actions
      → List Event × Config
      → Extensions
      → BuildResult Config Extensions Actions Error
  after_configure plugins (inits, actions) (configures, config) no_extensions =
      after_prepare plugins actions config (inits ++ configures)
        (prepare_all [] plugins config no_extensions)

  -- Phases 1 to 3 on the sorted plugins. The configuration is resolved after phase 1.
  unfoldable pub run_phases :
      List (Plugin Config Extensions Actions Error)
      → Actions
      → (Config ⊎ Error)
      → Extensions
      → BuildResult Config Extensions Actions Error
  unfolding init_all configure_all prepare_all
  run_phases plugins no_actions (inr e) no_extensions =
      failed (unresolved e) (init_all plugins no_actions).0
  run_phases plugins no_actions (inl config) no_extensions =
      after_configure plugins (init_all plugins no_actions) (configure_all plugins config)
        no_extensions

  -- Phase 0.5 and the phases after it.
  unfoldable pub run_sorted :
      List (Plugin Config Extensions Actions Error)
      → Actions
      → (Config ⊎ Error)
      → Extensions
      → SortResult (List ℕ)
      → BuildResult Config Extensions Actions Error
  unfolding take_sorted run_phases
  run_sorted plugins no_actions resolved no_extensions (err e) = failed (unsortable e) []
  run_sorted plugins no_actions resolved no_extensions panicked = aborted
  run_sorted plugins no_actions resolved no_extensions (ok order) =
      elim (take_sorted (all_some plugins) order) [
        | none ↦ aborted
        | some sorted ↦ run_phases sorted no_actions resolved no_extensions
      ]

  -- `resolved` is what `AppConfigDefinition::resolve` returns.
  unfoldable pub build :
      List (Plugin Config Extensions Actions Error)
      → Actions
      → (Config ⊎ Error)
      → Extensions
      → BuildResult Config Extensions Actions Error
  unfolding duplicate_in missing_dependency_in run_sorted
  build plugins no_actions resolved no_extensions = elim (duplicate_in [] (names_of plugins)) [
    | some n ↦ failed (duplicate_plugin n) []
    | none ↦ elim (missing_dependency_in (names_of plugins) plugins) [
      | some (n, dep) ↦ failed (missing_dependency n dep) []
      | none ↦
          run_sorted plugins no_actions resolved no_extensions (topological_sort (declared plugins))
    ]
  ]

  -- `GasketApp::ready`: stops at the first error.
  unfoldable pub ready_all :
      List (Plugin Config Extensions Actions Error)
      → Config
      → Extensions
      → List Event × Option Error
  ready_all [] config extensions = ([], none)
  ready_all (p ∷ ps) config extensions = elim (p.ready config extensions) [
    | some e ↦ (readied p.name ∷ [], some e)
    | none ↦
        let (events, failure) = ready_all ps config extensions in (readied p.name ∷ events, failure)
  ]

  -- `GasketApp::shutdown`: every plugin, last to first.
  abbrev pub shutdown : GasketApp Config Extensions Actions Error → List Event
  shutdown app = shutdown_all app.plugins
