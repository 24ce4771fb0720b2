-- ===== src/Examples/Lifecycle.antt =====
-- Concrete plugins for rusty-gasket/src/plugin/engine.rs: a database, and a service after it whose
-- `prepare` fails when the configuration is 0.
use rusty_gasket.Common.{ℕ, ◌≡◌, refl, inl, false, List, [], ◌∷◌, none, some, ◌==◌, if◌then◌else◌}
use rusty_gasket.Plugin.Ordering.{ok, topological_sort}
use rusty_gasket.Plugin.Engine.{
  Plugin, Event, inited, configured, prepared, shut_down, prepare_failed, GasketApp, built, failed,
  declared, build, run_phases,
}
use rusty_gasket.Plugin.Engine.Lifecycle.{RanAll, run_phases-failed}
use rusty_gasket.Plugin.Engine.Sorting.{Picked, build-built}

abbrev database : Plugin ℕ ℕ ℕ ℕ
database = record {
  name = "database";
  dependencies = [];
  ordering = record { before = []; after = []; first = false; last = false };
  init = λ a. a;
  configure = λ c. c;
  prepare = λ c x. (x, none);
  ready = λ c x. none;
  shutdown = λ x. none;
}

abbrev service : Plugin ℕ ℕ ℕ ℕ
service = record {
  name = "service";
  dependencies = "database" ∷ [];
  ordering = record { before = []; after = "database" ∷ []; first = false; last = false };
  init = λ a. a;
  configure = λ c. c;
  prepare = λ c x. (x, if c == 0 then some 1 else none);
  ready = λ c x. none;
  shutdown = λ x. none;
}

abbrev application : GasketApp ℕ ℕ ℕ ℕ
application = record { plugins = database ∷ service ∷ []; actions = 0; config = 5; extensions = 0 }

abbrev started : List Event
started =
    inited "database"
    ∷ inited "service"
    ∷ configured "database"
    ∷ configured "service"
    ∷ prepared "database"
    ∷ prepared "service"
    ∷ []

application_built : build (service ∷ database ∷ []) 0 (inl 5) 0 ≡ built application started
unfolding build topological_sort
application_built = refl

build-built_example :
    (order : List ℕ) × (topological_sort (declared (service ∷ database ∷ [])) ≡ ok order)
    × Picked (service ∷ database ∷ []) order (database ∷ service ∷ [])
    × RanAll application.plugins 0 (inl 5) 0 application started
build-built_example =
    build-built (service ∷ database ∷ []) 0 (inl 5) 0 application started application_built

abbrev rolled_back : List Event
rolled_back =
    inited "database"
    ∷ inited "service"
    ∷ configured "database"
    ∷ configured "service"
    ∷ prepared "database"
    ∷ prepared "service"
    ∷ shut_down "database"
    ∷ []

service_failed : run_phases application.plugins 0 (inl 0) 0 ≡ failed (prepare_failed 1) rolled_back
unfolding run_phases
service_failed = refl

run_phases-failed_example :
    run_phases application.plugins 0 (inl 0) 0 ≡ failed (prepare_failed 1) rolled_back
run_phases-failed_example = run_phases-failed (database ∷ []) [] service 0 0 0 0 1 (refl, refl) refl
