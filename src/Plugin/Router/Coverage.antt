-- ===== src/Plugin/Router/Coverage.antt =====
-- rusty-gasket/src/plugin/engine.rs: the layers and merges of `build_router` lose no route.
use rusty_gasket.Common.{
  ℕ, ap, inl, inr, not, List, [], ◌∷◌, map, keep, In, In-append_left, In-append_right,
}
use rusty_gasket.Plugin.Router.{
  Wrap, plugin_layer, logging, body_limit, named_auth, TaggedLayer, Wrapped, wrapped_in, Routers,
  apply_layers, log_and_limit, protected_layers, is_authentication, protect_named,
}
use rusty_gasket.Plugin.Router.Stacks.{wrapped_in-append, Serves, wraps_of}

In-map : {A B : Type 0} (f : A → B) (x : A) (xs : List A) → In x xs → In (f x) (map f xs)
In-map f x [] m = absurd m
In-map f x (y ∷ xs) (inl here) = inl (ap f here)
In-map f x (y ∷ xs) (inr m) = inr (In-map f x xs m)

module _ {Router Route Layer Chain : Type 0} (axum : Routers Router Route Layer Chain) where
  pub merge_left :
      (a b : Router) (e : Wrapped Route Layer Chain)
      → Serves axum a e
      → Serves axum (axum.merge a b) e
  merge_left a b e m =
      rw (axum.routes_merge a b) (In-append_left e (axum.routes a) (axum.routes b) m)

  pub merge_right :
      (a b : Router) (e : Wrapped Route Layer Chain)
      → Serves axum b e
      → Serves axum (axum.merge a b) e
  merge_right a b e m =
      rw (axum.routes_merge a b) (In-append_right e (axum.routes a) (axum.routes b) m)

  -- `a` has every route of `r`, in these wraps.
  abbrev pub Covers : List (Wrap Layer Chain) → Router → Router → Type 0
  Covers ws r a =
      (e : Wrapped Route Layer Chain) → Serves axum r e → Serves axum a (wrapped_in ws e)

  Covers-layer :
      (w : Wrap Layer Chain) (ws : List (Wrap Layer Chain)) (r a : Router)
      → Covers ws r a
      → Covers (w ∷ ws) r (axum.layer w a)
  Covers-layer w ws r a h e m =
      rw (axum.routes_layer w a, ← wrapped_in-append (w ∷ []) ws e)
        (In-map (wrapped_in (w ∷ [])) (wrapped_in ws e) (axum.routes a) (h e m))

  pub Covers-apply_layers :
      (ls : List (TaggedLayer Layer)) (r : Router)
      → Covers (wraps_of axum ls) r (apply_layers axum ls r)
  unfolding apply_layers
  Covers-apply_layers [] r e m = m
  Covers-apply_layers (l ∷ ls) r e m =
      Covers-layer (plugin_layer l.layer) (wraps_of axum ls) r (apply_layers axum ls r)
        (λ i there. Covers-apply_layers ls r i there) e m

  pub Covers-log_and_limit :
      (limit : ℕ) (ws : List (Wrap Layer Chain)) (r a : Router)
      → Covers ws r a
      → Covers (body_limit limit ∷ logging ∷ ws) r (log_and_limit axum limit a)
  Covers-log_and_limit limit ws r a h =
      Covers-layer (body_limit limit) (logging ∷ ws) r (axum.layer logging a)
        (Covers-layer logging ws r a h)

  pub Covers-protect_named :
      (limit : ℕ) (plugins : List (List (TaggedLayer Layer))) (chain : Chain) (r : Router)
      → Covers
          (body_limit limit
            ∷ logging
            ∷ named_auth chain
            ∷ wraps_of axum (keep (λ l. not (is_authentication l)) (protected_layers plugins)))
          r
          (protect_named axum limit plugins chain r)
  unfolding protect_named
  Covers-protect_named limit plugins chain r =
      let ls = keep (λ l. not (is_authentication l)) (protected_layers plugins) in
      Covers-log_and_limit limit (named_auth chain ∷ wraps_of axum ls) r
        (axum.layer (named_auth chain) (apply_layers axum ls r))
        (Covers-layer (named_auth chain) (wraps_of axum ls) r (apply_layers axum ls r)
          (Covers-apply_layers ls r))
