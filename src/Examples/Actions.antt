-- ===== src/Examples/Actions.antt =====
-- Plugins that register actions, for rusty-gasket/src/plugin.rs and plugin/engine.rs.
use rusty_gasket.Common.{ℕ, suc, ◌≡◌, refl, ◌⊎◌, inl, inr, true, false, [], ◌∷◌, Option, none, some}
use rusty_gasket.Common.Text.{Text, codes}
use rusty_gasket.Plugin.Actions.{
  Init, finished, registering, init_plugins, invoke, not_found, different_type,
}

-- A result is a number or a text.
abbrev as_number : ℕ ⊎ Text → Option ℕ
as_number (inl n) = some n
as_number (inr s) = none

abbrev Action : Type 0
Action = ℕ → (ℕ ⊎ Text) ⊎ Text

abbrev counts : Init Action
counts = registering (codes "next") (λ n. inl (inl (suc n))) (λ registered. finished)

-- It registers a name of its own when the one it wants is taken.
abbrev greets : Init Action
greets =
    registering (codes "next") (λ n. inl (inr (codes "hi")))
      (λ registered. elim registered [
        | true ↦ finished
        | false ↦ registering (codes "greet") (λ n. inl (inr (codes "hi"))) (λ again. finished)
      ])

greeting_is_no_number :
    invoke as_number (init_plugins (counts ∷ greets ∷ []) []) (codes "greet") 4
    ≡ inr (different_type (codes "greet"))
unfolding invoke init_plugins
greeting_is_no_number = refl

unknown_action :
    invoke as_number (init_plugins (counts ∷ []) []) (codes "greet") 4
    ≡ inr (not_found (codes "greet"))
unfolding invoke init_plugins
unknown_action = refl
