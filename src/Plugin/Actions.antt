-- ===== src/Plugin/Actions.antt =====
-- rusty-gasket/src/plugin.rs: `InitContext`; rusty-gasket/src/plugin/engine.rs: the init phase and
-- `GasketApp::invoke`. What a plugin does in `init` is a program that registers actions and sees the
-- answers.
use rusty_gasket.Common.{
  ◌⊎◌, inl, inr, Bool, true, false, List, [], ◌∷◌, Option, none, some, if◌then◌else◌,
}
use rusty_gasket.Common.Text.{Text, text_eq}

-- `HashMap::get`; a name is inserted only where it is missing.
abbrev pub find_action : {Action : Type 0} → Text → List (Text × Action) → Option Action
find_action name [] = none
find_action name ((n, a) ∷ actions) =
    let rest = find_action name actions in if text_eq name n then some a else rest

abbrev pub is_some : {Action : Type 0} → Option Action → Bool
is_some none = false
is_some (some a) = true

pub data Init (Action : Type 0) : Type 0 where
  finished : Init Action
  registering : Text → Action → (Bool → Init Action) → Init Action

-- What a caller of an action gets.
pub data InvokeError (E : Type 0) : Type 0 where
  not_found : Text → InvokeError E
  action_failed : E → InvokeError E
  different_type : Text → InvokeError E

module _ {Action : Type 0} where
  -- The actions afterwards, and whether the name was free.
  unfoldable pub register_action :
      Text → Action → List (Text × Action) → List (Text × Action) × Bool
  register_action name action actions =
      if is_some (find_action name actions)
      then (actions, false)
      else ((name, action) ∷ actions, true)

  unfoldable pub run_init : Init Action → List (Text × Action) → List (Text × Action)
  unfolding register_action
  run_init finished actions = actions
  run_init (registering name action k) actions =
      let (kept, registered) = register_action name action actions in run_init (k registered) kept

  unfoldable pub init_plugins : List (Init Action) → List (Text × Action) → List (Text × Action)
  unfolding run_init
  init_plugins [] actions = actions
  init_plugins (p ∷ ps) actions = init_plugins ps (run_init p actions)

module _ {Any E T : Type 0} (downcast : Any → Option T) where
  abbrev pub downcast_result : Text → Any ⊎ E → T ⊎ InvokeError E
  downcast_result name (inr e) = inr (action_failed e)
  downcast_result name (inl result) = elim (downcast result) [
    | none ↦ inr (different_type name)
    | some value ↦ inl value
  ]

module _ {Args Any E T : Type 0} (downcast : Any → Option T) where
  unfoldable pub invoke_action :
      List (Text × (Args → Any ⊎ E)) → Text → Args → (Any ⊎ E) ⊎ InvokeError E
  invoke_action actions name args = elim (find_action name actions) [
    | none ↦ inr (not_found name)
    | some action ↦ inl (action args)
  ]

  unfoldable pub invoke : List (Text × (Args → Any ⊎ E)) → Text → Args → T ⊎ InvokeError E
  unfolding invoke_action
  invoke actions name args = elim (invoke_action actions name args) [
    | inr e ↦ inr e
    | inl result ↦ downcast_result downcast name result
  ]
