-- ===== src/Plugin/Router/Filling.antt =====
-- rusty-gasket/src/plugin/engine.rs: the first loop of `build_router` puts every route of a plugin into
-- the bucket of its group.
use Prim.Native.String.{String}
use text.Mathlib.Text.{◌==◌ as str_eq}
use text.Mathlib.TextEquality.{eq_iff}
use rusty_gasket.Common.{refl, ap, sym, inl, inr, List, [], ◌∷◌, In, Bool-cases}
use rusty_gasket.Plugin.Router.{
  RouteGroup, bare, public, protected, protected_with, TaggedRoute, Wrapped, Routers, Buckets,
  merge_named, add_route, bucket_routes,
}
use rusty_gasket.Plugin.Router.Coverage.{merge_left, merge_right}
use rusty_gasket.Plugin.Router.Stacks.{Serves}

module _ {Router Route Layer Chain : Type 0} (axum : Routers Router Route Layer Chain) where
  -- A router of that name has the route.
  abbrev pub Offered : String → Wrapped Route Layer Chain → List (String × Router) → Type 0
  Offered name e named = (q : Router) × In (name, q) named × Serves axum q e

  -- The bucket of a group has the route.
  abbrev pub Holds : Buckets axum → RouteGroup → Wrapped Route Layer Chain → Type 0
  Holds b bare e = Serves axum b.bare_router e
  Holds b public e = Serves axum b.public_router e
  Holds b protected e = Serves axum b.protected_router e
  Holds b (protected_with name) e = Offered name e b.named_routers

  merge_named-kept :
      (name n : String) (r : Router) (e : Wrapped Route Layer Chain)
      (named : List (String × Router))
      → Offered n e named
      → Offered n e (merge_named axum name r named)
  unfolding merge_named
  merge_named-kept name n r e [] (q, m, s) = absurd m
  merge_named-kept name n r e ((k, old) ∷ named) (q, m, s) = elim (Bool-cases (str_eq k name)) [
    | inl same ↦
        rw (same, merge_named)
          (elim m [
            | inl here ↦
                let served : Serves axum old e = rw (ap (λ p. p.1) here) at s in
                (
                  axum.merge old r,
                  inl (ap (λ p. (p.0, axum.merge old r)) here),
                  merge_left axum old r e served,
                )
            | inr later ↦ (q, inr later, s)
          ])
    | inr other ↦
        rw (other, merge_named)
          (elim m [
            | inl here ↦ (q, inl here, s)
            | inr later ↦
                let (p, there, served) = merge_named-kept name n r e named (q, later, s) in
                (p, inr there, served)
          ])
  ]

  merge_named-added :
      (name : String) (r : Router) (e : Wrapped Route Layer Chain) (named : List (String × Router))
      → Serves axum r e
      → Offered name e (merge_named axum name r named)
  unfolding merge_named
  merge_named-added name r e [] s =
      (axum.merge axum.new r, inl refl, merge_right axum axum.new r e s)
  merge_named-added name r e ((k, old) ∷ named) s = elim (Bool-cases (str_eq k name)) [
    | inl same ↦
        rw (same, merge_named)
          (
            axum.merge old r,
            inl (ap (λ n. (n, axum.merge old r)) (sym ((eq_iff k name).0 same))),
            merge_right axum old r e s,
          )
    | inr other ↦
        let (p, there, served) = merge_named-added name r e named s in
        rw (other, merge_named) (p, inr there, served)
  ]

  -- Every bucket has the routes that it had.
  record Keeps (b c : Buckets axum) : Type 0 where
    of_bare : (e : Wrapped Route Layer Chain) → Holds b bare e → Holds c bare e
    of_public : (e : Wrapped Route Layer Chain) → Holds b public e → Holds c public e
    of_protected : (e : Wrapped Route Layer Chain) → Holds b protected e → Holds c protected e
    of_named :
        (name : String) (e : Wrapped Route Layer Chain)
        → Holds b (protected_with name) e
        → Holds c (protected_with name) e

  Keeps-Holds :
      (b c : Buckets axum) (g : RouteGroup) (e : Wrapped Route Layer Chain)
      → Keeps b c
      → Holds b g e
      → Holds c g e
  Keeps-Holds b c bare e h m = h.of_bare e m
  Keeps-Holds b c public e h m = h.of_public e m
  Keeps-Holds b c protected e h m = h.of_protected e m
  Keeps-Holds b c (protected_with name) e h m = h.of_named name e m

  add_route-Keeps :
      (g : RouteGroup) (r : Router) (b : Buckets axum) → Keeps b (add_route axum g r b)
  unfolding add_route
  add_route-Keeps bare r b = record {
    of_bare = λ e m. merge_left axum b.bare_router r e m;
    of_public = λ e m. m;
    of_protected = λ e m. m;
    of_named = λ n e m. m;
  }
  add_route-Keeps public r b = record {
    of_bare = λ e m. m;
    of_public = λ e m. merge_left axum b.public_router r e m;
    of_protected = λ e m. m;
    of_named = λ n e m. m;
  }
  add_route-Keeps protected r b = record {
    of_bare = λ e m. m;
    of_public = λ e m. m;
    of_protected = λ e m. merge_left axum b.protected_router r e m;
    of_named = λ n e m. m;
  }
  add_route-Keeps (protected_with name) r b = record {
    of_bare = λ e m. m;
    of_public = λ e m. m;
    of_protected = λ e m. m;
    of_named = λ n e m. merge_named-kept name n r e b.named_routers m;
  }

  add_route-Holds :
      (g : RouteGroup) (r : Router) (b : Buckets axum) (e : Wrapped Route Layer Chain)
      → Serves axum r e
      → Holds (add_route axum g r b) g e
  unfolding add_route
  add_route-Holds bare r b e m = merge_right axum b.bare_router r e m
  add_route-Holds public r b e m = merge_right axum b.public_router r e m
  add_route-Holds protected r b e m = merge_right axum b.protected_router r e m
  add_route-Holds (protected_with name) r b e m = merge_named-added name r e b.named_routers m

  bucket_routes-kept :
      (ts : List (TaggedRoute Router)) (b : Buckets axum) (g : RouteGroup)
      (e : Wrapped Route Layer Chain)
      → Holds b g e
      → Holds (bucket_routes axum ts b) g e
  unfolding bucket_routes
  bucket_routes-kept [] b g e h = h
  bucket_routes-kept (t ∷ ts) b g e h =
      let c = add_route axum t.group t.router b in
      bucket_routes-kept ts c g e (Keeps-Holds b c g e (add_route-Keeps t.group t.router b) h)

  pub bucket_routes-Holds :
      (ts : List (TaggedRoute Router)) (b : Buckets axum) (t : TaggedRoute Router)
      (e : Wrapped Route Layer Chain)
      → In t ts
      → Serves axum t.router e
      → Holds (bucket_routes axum ts b) t.group e
  unfolding bucket_routes
  bucket_routes-Holds [] b t e there s = absurd there
  bucket_routes-Holds (u ∷ ts) b t e (inr later) s =
      bucket_routes-Holds ts (add_route axum u.group u.router b) t e later s
  bucket_routes-Holds (u ∷ ts) b t e (inl here) s = rw here (
      bucket_routes-kept ts (add_route axum u.group u.router b) u.group e
        (add_route-Holds u.group u.router b e (rw here at s)))
