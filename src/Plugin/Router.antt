-- ===== src/Plugin/Router.antt =====
-- rusty-gasket/src/plugin/engine.rs: `GasketApp::build_router` with `collect_layers` and the named
-- authentication chains; rusty-gasket/src/pipeline.rs: the slots. The routers of axum are the record
-- `Routers`; a layer of a plugin is what its closure wraps around a router.
pub mod Stacks
pub mod Grouping
pub mod Laws
pub mod Coverage
pub mod Filling
pub mod Slots
pub mod Completeness
use Prim.Native.String.{String}
use text.Mathlib.Text.{◌==◌ as str_eq}
use rusty_gasket.Common.{
  ℕ, ◌≡◌, Bool, true, false, not, List, [], ◌∷◌, ◌++◌, map, Option, none, some, leb, ◌==◌,
  if◌then◌else◌, keep, concat,
}

pub data MiddlewareSlot : Type 0 where
  transport_security logging_slot authentication rate_limit transaction custom : MiddlewareSlot

-- The discriminants.
abbrev pub slot_rank : MiddlewareSlot → ℕ
slot_rank transport_security = 0
slot_rank logging_slot = 10
slot_rank authentication = 20
slot_rank rate_limit = 30
slot_rank transaction = 40
slot_rank custom = 50

pub data RouteGroup : Type 0 where
  bare public protected : RouteGroup
  protected_with : String → RouteGroup

-- What is wrapped around routes: a plugin's layer, the logging middleware, the limit of the body, and
-- the authentication middleware with the state of a named chain.
pub data Wrap (Layer Chain : Type 0) : Type 0 where
  plugin_layer : Layer → Wrap Layer Chain
  logging : Wrap Layer Chain
  body_limit : ℕ → Wrap Layer Chain
  named_auth : Chain → Wrap Layer Chain

pub record TaggedLayer (Layer : Type 0) : Type 0 where
  pub slot : MiddlewareSlot
  pub layer : Layer

pub record TaggedRoute (Router : Type 0) : Type 0 where
  pub group : RouteGroup
  pub router : Router

-- A route with the wraps around it, the outermost first.
abbrev pub Wrapped : Type 0 → Type 0 → Type 0 → Type 0
Wrapped Route Layer Chain = Route × List (Wrap Layer Chain)

abbrev pub wrapped_in :
    {Route Layer Chain : Type 0}
    → List (Wrap Layer Chain)
    → Wrapped Route Layer Chain
    → Wrapped Route Layer Chain
wrapped_in ws (route, inner) = (route, ws ++ inner)

-- `axum::Router`: a merged router has the routes of both, and a layer goes around every route that is
-- there. Overlapping routes, at which `merge` panics, are left out.
pub record Routers (Router Route Layer Chain : Type 0) : Type 0 where
  pub new : Router
  pub merge : Router → Router → Router
  pub layer : Wrap Layer Chain → Router → Router
  pub routes : Router → List (Wrapped Route Layer Chain)
  pub routes_new : routes new ≡ []
  pub routes_merge : (a b : Router) → routes (merge a b) ≡ routes a ++ routes b
  pub routes_layer :
      (w : Wrap Layer Chain) (a : Router)
      → routes (layer w a) ≡ map (wrapped_in (w ∷ [])) (routes a)

module _ {Layer : Type 0} where
  -- `sort_by_key` is stable.
  unfoldable pub insert_layer :
      TaggedLayer Layer → List (TaggedLayer Layer) → List (TaggedLayer Layer)
  insert_layer l [] = l ∷ []
  insert_layer l (m ∷ ms) =
      if leb (slot_rank l.slot) (slot_rank m.slot) then l ∷ m ∷ ms else m ∷ insert_layer l ms

  unfoldable pub sort_layers : List (TaggedLayer Layer) → List (TaggedLayer Layer)
  unfolding insert_layer
  sort_layers [] = []
  sort_layers (l ∷ ls) = insert_layer l (sort_layers ls)

  -- The layers of each plugin, in plugin order.
  unfoldable pub collect_layers : List (List (TaggedLayer Layer)) → List (TaggedLayer Layer)
  unfolding sort_layers
  collect_layers plugins = sort_layers (concat plugins)

  abbrev pub is_transport : TaggedLayer Layer → Bool
  is_transport l = slot_rank l.slot == 0

  abbrev pub is_authentication : TaggedLayer Layer → Bool
  is_authentication l = slot_rank l.slot == 20

  abbrev pub transport_layers : List (List (TaggedLayer Layer)) → List (TaggedLayer Layer)
  transport_layers plugins = keep is_transport (collect_layers plugins)

  abbrev pub protected_layers : List (List (TaggedLayer Layer)) → List (TaggedLayer Layer)
  protected_layers plugins = keep (λ l. not (is_transport l)) (collect_layers plugins)

module _ {Router Route Layer Chain : Type 0} (axum : Routers Router Route Layer Chain) where
  -- The four kinds of routers of the first loop.
  pub record Buckets : Type 0 where
    pub bare_router : Router
    pub public_router : Router
    pub protected_router : Router
    pub named_routers : List (String × Router)

  abbrev pub no_routes : Buckets
  no_routes = record {
    bare_router = axum.new;
    public_router = axum.new;
    protected_router = axum.new;
    named_routers = [];
  }

  -- `named_routers.entry(name).or_default()`, merged in place.
  unfoldable pub merge_named : String → Router → List (String × Router) → List (String × Router)
  merge_named name r [] = (name, axum.merge axum.new r) ∷ []
  merge_named name r ((n, q) ∷ named) =
      if str_eq n name then (n, axum.merge q r) ∷ named else (n, q) ∷ merge_named name r named

  unfoldable pub add_route : RouteGroup → Router → Buckets → Buckets
  unfolding merge_named
  add_route bare r b = record b { bare_router = axum.merge b.bare_router r }
  add_route public r b = record b { public_router = axum.merge b.public_router r }
  add_route protected r b = record b { protected_router = axum.merge b.protected_router r }
  add_route (protected_with name) r b = record b {
    named_routers = merge_named name r b.named_routers;
  }

  unfoldable pub bucket_routes : List (TaggedRoute Router) → Buckets → Buckets
  unfolding add_route
  bucket_routes [] b = b
  bucket_routes (t ∷ ts) b = bucket_routes ts (add_route t.group t.router b)

  -- The layers in reverse order, so that the first is the outermost.
  unfoldable pub apply_layers : List (TaggedLayer Layer) → Router → Router
  apply_layers [] r = r
  apply_layers (l ∷ ls) r = axum.layer (plugin_layer l.layer) (apply_layers ls r)

  abbrev pub log_and_limit : ℕ → Router → Router
  log_and_limit limit r = axum.layer (body_limit limit) (axum.layer logging r)

  abbrev pub named_chain : String → List (String × Chain) → Option Chain
  named_chain name [] = none
  named_chain name ((n, c) ∷ chains) = if str_eq n name then some c else named_chain name chains

  -- The stack of one named router.
  unfoldable pub protect_named : ℕ → List (List (TaggedLayer Layer)) → Chain → Router → Router
  unfolding apply_layers
  protect_named limit plugins chain r = log_and_limit limit (
      axum.layer (named_auth chain)
        (apply_layers (keep (λ l. not (is_authentication l)) (protected_layers plugins)) r))

  -- `none` is the panic at a chain that is not registered.
  unfoldable pub apply_named_protected_routers :
      ℕ
      → List (List (TaggedLayer Layer))
      → List (String × Chain)
      → List (String × Router)
      → Router
      → Option Router
  unfolding protect_named
  apply_named_protected_routers limit plugins chains [] router = some router
  apply_named_protected_routers limit plugins chains ((name, r) ∷ named) router =
      elim (named_chain name chains) [
        | none ↦ none
        | some chain ↦
            apply_named_protected_routers limit plugins chains named
              (axum.merge router (protect_named limit plugins chain r))
      ]

  abbrev pub instrumented : ℕ → List (List (TaggedLayer Layer)) → Buckets → Router
  instrumented limit plugins b =
      axum.merge (axum.merge axum.new (log_and_limit limit b.public_router))
        (log_and_limit limit (apply_layers (protected_layers plugins) b.protected_router))

  abbrev pub with_bare : List (List (TaggedLayer Layer)) → Router → Option Router → Option Router
  with_bare plugins bare_router none = none
  with_bare plugins bare_router (some r) =
      some
        (axum.merge (axum.merge axum.new bare_router) (apply_layers (transport_layers plugins) r))

  unfoldable pub build_router :
      ℕ
      → List (List (TaggedLayer Layer))
      → List (String × Chain)
      → List (TaggedRoute Router)
      → Option Router
  unfolding bucket_routes apply_named_protected_routers
  build_router limit plugins chains tagged =
      let b = bucket_routes tagged no_routes in
      with_bare plugins b.bare_router (
        apply_named_protected_routers limit plugins chains b.named_routers
          (instrumented limit plugins b))
