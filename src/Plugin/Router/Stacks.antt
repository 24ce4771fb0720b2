-- ===== src/Plugin/Router/Stacks.antt =====
-- rusty-gasket/src/plugin/engine.rs: the routes of a router that the parts of `build_router` make, each
-- traced back to the router that it comes from.
use Prim.Native.String.{String}
use mathlib.Core.List.{append_assoc}
use rusty_gasket.Common.{
  ℕ, ◌≡◌, refl, ap, sym, ◌∙◌, ◌⊎◌, inl, inr, not, List, [], ◌∷◌, ◌++◌, map, keep, In,
  In-append_cases,
}
use rusty_gasket.Plugin.Router.{
  RouteGroup, bare, public, protected, protected_with, Wrap, plugin_layer, logging, body_limit,
  named_auth, TaggedLayer, TaggedRoute, Wrapped, wrapped_in, Routers, Buckets, apply_layers,
  log_and_limit, protected_layers, is_authentication, protect_named,
}

In-map_cases :
    {A B : Type 0} (f : A → B) (y : B) (xs : List A)
    → In y (map f xs)
    → (x : A) × In x xs × (y ≡ f x)
In-map_cases f y [] m = absurd m
In-map_cases f y (x ∷ xs) (inl e) = (x, inl refl, e)
In-map_cases f y (x ∷ xs) (inr m) = let (z, there, e) = In-map_cases f y xs m in (z, inr there, e)

pub wrapped_in-append :
    {Route Layer Chain : Type 0} (vs ws : List (Wrap Layer Chain)) (e : Wrapped Route Layer Chain)
    → wrapped_in vs (wrapped_in ws e) ≡ wrapped_in (vs ++ ws) e
wrapped_in-append vs ws (route, inner) =
    let regroup : vs ++ (ws ++ inner) ≡ (vs ++ ws) ++ inner = sym (append_assoc vs ws inner) in
    λ k. (route, regroup k)

module _ {Router Route Layer Chain : Type 0} (axum : Routers Router Route Layer Chain) where
  -- The route is one of the router's, in these wraps.
  abbrev pub Around : List (Wrap Layer Chain) → Router → Wrapped Route Layer Chain → Type 0
  Around ws r e =
      (inner : Wrapped Route Layer Chain) × In inner (axum.routes r) × (e ≡ wrapped_in ws inner)

  abbrev pub Serves : Router → Wrapped Route Layer Chain → Type 0
  Serves r e = In e (axum.routes r)

  pub Serves-merge :
      (a b : Router) (e : Wrapped Route Layer Chain)
      → Serves (axum.merge a b) e
      → Serves a e ⊎ Serves b e
  Serves-merge a b e m =
      In-append_cases e (axum.routes a) (axum.routes b) (rw (axum.routes_merge a b) at m)

  pub Serves-new : (e : Wrapped Route Layer Chain) → ¬ Serves axum.new e
  Serves-new e m = rw axum.routes_new at m

  Serves-layer :
      (w : Wrap Layer Chain) (ws : List (Wrap Layer Chain)) (a r : Router)
      → ((e : Wrapped Route Layer Chain) → Serves a e → Around ws r e)
      → (e : Wrapped Route Layer Chain) → Serves (axum.layer w a) e
      → Around (w ∷ ws) r e
  Serves-layer w ws a r below e m =
      let (i, there, outer) =
        In-map_cases (wrapped_in (w ∷ [])) e (axum.routes a) (rw (axum.routes_layer w a) at m) in
      let (j, source, inner) = below i there in (j, source, outer ∙ ap (wrapped_in (w ∷ [])) inner)

  abbrev pub wraps_of : List (TaggedLayer Layer) → List (Wrap Layer Chain)
  wraps_of [] = []
  wraps_of (l ∷ ls) = plugin_layer l.layer ∷ wraps_of ls

  pub Serves-apply_layers :
      (ls : List (TaggedLayer Layer)) (r : Router) (e : Wrapped Route Layer Chain)
      → Serves (apply_layers axum ls r) e
      → Around (wraps_of ls) r e
  unfolding apply_layers
  Serves-apply_layers [] r e m = (e, m, refl)
  Serves-apply_layers (l ∷ ls) r e m =
      Serves-layer (plugin_layer l.layer) (wraps_of ls) (apply_layers axum ls r) r
        (λ i there. Serves-apply_layers ls r i there) e m

  pub Serves-log_and_limit :
      (limit : ℕ) (ws : List (Wrap Layer Chain)) (a r : Router)
      → ((e : Wrapped Route Layer Chain) → Serves a e → Around ws r e)
      → (e : Wrapped Route Layer Chain) → Serves (log_and_limit axum limit a) e
      → Around (body_limit limit ∷ logging ∷ ws) r e
  Serves-log_and_limit limit ws a r below e m =
      Serves-layer (body_limit limit) (logging ∷ ws) (axum.layer logging a) r
        (Serves-layer logging ws a r below) e m

  pub Serves-protect_named :
      (limit : ℕ) (plugins : List (List (TaggedLayer Layer))) (chain : Chain) (r : Router)
      (e : Wrapped Route Layer Chain)
      → Serves (protect_named axum limit plugins chain r) e
      → Around
          (body_limit limit
            ∷ logging
            ∷ named_auth chain
            ∷ wraps_of (keep (λ l. not (is_authentication l)) (protected_layers plugins)))
          r
          e
  unfolding protect_named
  Serves-protect_named limit plugins chain r =
      let ls = keep (λ l. not (is_authentication l)) (protected_layers plugins) in
      Serves-log_and_limit limit (named_auth chain ∷ wraps_of ls)
        (axum.layer (named_auth chain) (apply_layers axum ls r)) r
        (Serves-layer (named_auth chain) (wraps_of ls) (apply_layers axum ls r) r
          (Serves-apply_layers ls r))

  -- The route is one of a tagged router of that group.
  abbrev pub From : List (TaggedRoute Router) → RouteGroup → Wrapped Route Layer Chain → Type 0
  From tagged g e = (t : TaggedRoute Router) × In t tagged × (t.group ≡ g) × Serves t.router e

  pub record AreSorted (tagged : List (TaggedRoute Router)) (b : Buckets axum) : Type 0 where
    pub of_bare : (e : Wrapped Route Layer Chain) → Serves b.bare_router e → From tagged bare e
    pub of_public :
        (e : Wrapped Route Layer Chain) → Serves b.public_router e → From tagged public e
    pub of_protected :
        (e : Wrapped Route Layer Chain) → Serves b.protected_router e → From tagged protected e
    pub of_named :
        (name : String) (r : Router) (e : Wrapped Route Layer Chain)
        → In (name, r) b.named_routers
        → Serves r e
        → From tagged (protected_with name) e
