-- ===== src/Examples/Routing.antt =====
-- A concrete application for `build_router` of rusty-gasket/src/plugin/engine.rs. A router is the list
-- of its wrapped routes, a route a number, a layer and the state of a chain too.
use rusty_gasket.Common.{ℕ, ◌≡◌, refl, List, [], ◌∷◌, ◌++◌, map, none, some, In, ◌↔◌}
use rusty_gasket.Plugin.Router.{
  transport_security, authentication, custom, bare, protected_with, Wrap, plugin_layer, logging,
  body_limit, named_auth, TaggedLayer, TaggedRoute, Wrapped, wrapped_in, Routers, collect_layers,
  apply_layers, build_router,
}
use rusty_gasket.Plugin.Router.Completeness.{group_stack, build_router-serves}

abbrev RouteList : Type 0
RouteList = List (Wrapped ℕ ℕ ℕ)

abbrev lists : Routers RouteList ℕ ℕ ℕ
lists = record {
  new = [];
  merge = λ a b. a ++ b;
  layer = λ w a. map (wrapped_in (w ∷ [])) a;
  routes = λ a. a;
  routes_new = refl;
  routes_merge = λ a b. refl;
  routes_layer = λ w a. refl;
}

-- Two plugins: the second adds transport security and the first a custom layer and authentication.
abbrev layers : List (List (TaggedLayer ℕ))
layers =
    (record { slot = custom; layer = 50 } ∷ record { slot = authentication; layer = 20 } ∷ [])
    ∷ (record { slot = transport_security; layer = 1 } ∷ [])
    ∷ []

abbrev tagged : List (TaggedRoute RouteList)
tagged =
    record { group = bare; router = (7, []) ∷ [] }
    ∷ record { group = protected_with "admin"; router = (8, []) ∷ [] }
    ∷ []

abbrev admin_stack : List (Wrap ℕ ℕ)
admin_stack = plugin_layer 1 ∷ body_limit 100 ∷ logging ∷ named_auth 99 ∷ plugin_layer 50 ∷ []

router_built :
    build_router lists 100 layers (("admin", 99) ∷ []) tagged
    ≡ some ((7, []) ∷ (8, admin_stack) ∷ [])
unfolding build_router collect_layers apply_layers
router_built = refl

unregistered_chain : build_router lists 100 layers [] tagged ≡ none
unfolding build_router
unregistered_chain = refl

build_router-serves_example :
    In {A = Wrapped ℕ ℕ ℕ} (8, admin_stack) ((7, []) ∷ (8, admin_stack) ∷ []) ↔ (
      (t : TaggedRoute RouteList) × (ws : List (Wrap ℕ ℕ)) × In t tagged
      × (group_stack lists 100 layers (("admin", 99) ∷ []) t.group ≡ some ws)
      × ((i : Wrapped ℕ ℕ ℕ) × In i t.router
          × ◌≡◌ {A = Wrapped ℕ ℕ ℕ} (8, admin_stack) (wrapped_in ws i)))
build_router-serves_example =
    build_router-serves lists 100 layers (("admin", 99) ∷ []) tagged
      ((7, []) ∷ (8, admin_stack) ∷ []) (8, admin_stack) router_built
