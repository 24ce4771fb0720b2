-- ===== src/Config/Resolve.antt =====
-- rusty-gasket/src/config.rs: `AppConfigDefinition::resolve` against the deep merge.
use rusty_gasket.Common.{List, [], ◌∷◌, ◌≡◌, Option, none, some}
use rusty_gasket.Common.Text.{Text, codes}
use rusty_gasket.Json.{Json, Fields, get}
use rusty_gasket.Config.{Environment, local, dev_private, development, test, staging, production}

-- The name of the environment: that of `GASKET_ENV` before the definition's own before `local`.
pub data Chosen : Option Text → Option Text → Text → Type 0 where
  by_variable : (v : Text) (own : Option Text) → Chosen (some v) own v
  by_definition : (v : Text) → Chosen none (some v) v
  by_default : Chosen none none (codes "local")

-- The names of an environment, the canonical one first.
abbrev pub names : Environment → List Text
names local = codes "local" ∷ []
names dev_private = codes "dev-private" ∷ codes "devprivate" ∷ []
names development = codes "development" ∷ codes "dev" ∷ []
names test = codes "test" ∷ []
names staging = codes "staging" ∷ []
names production = codes "production" ∷ codes "prod" ∷ []

-- The overrides: those under the name as it was written, or, where there are none, those under the
-- canonical name.
pub data OverridesOf (environments : Fields) (name : Text) (env : Environment)
    : Option Json → Type 0 where
  of_name : (v : Json) → get name environments ≡ some v → OverridesOf environments name env (some v)
  of_canonical :
      (canonical : Text) (aliases : List Text)
      → get name environments ≡ none
      → names env ≡ canonical ∷ aliases
      → OverridesOf environments name env (get canonical environments)
