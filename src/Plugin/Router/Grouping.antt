-- ===== src/Plugin/Router/Grouping.antt =====
-- rusty-gasket/src/plugin/engine.rs: the first loop of `build_router` keeps every route in the bucket of its
-- group.
use Prim.Native.String.{String}
use text.Mathlib.Text.{◌==◌ as str_eq}
use text.Mathlib.TextEquality.{eq_iff}
use rusty_gasket.Common.{◌≡◌, refl, ap, sym, ◌∙◌, ◌⊎◌, inl, inr, List, [], ◌∷◌, In, Bool-cases}
use rusty_gasket.Plugin.Router.{
  RouteGroup, bare, public, protected, protected_with, TaggedRoute, Wrapped, Routers, Buckets,
  no_routes, merge_named, add_route, bucket_routes,
}
use rusty_gasket.Plugin.Router.Stacks.{Serves, Serves-merge, Serves-new, AreSorted}

module _ {Router Route Layer Chain : Type 0} (axum : Routers Router Route Layer Chain) where
  merge_named-cases :
      (name n : String) (q r : Router) (named : List (String × Router))
      → In (n, r) (merge_named axum name q named)
      → In (n, r) named
        ⊎ ((n ≡ name)
            × ((e : Wrapped Route Layer Chain)
                → Serves axum r e
                → Serves axum q e ⊎ ((old : Router) × In (n, old) named × Serves axum old e)))
  unfolding merge_named
  merge_named-cases name n q r [] (inl same) = inr (
    ap (λ p. p.0) same,
    λ e m. elim (Serves-merge axum axum.new q e (rw (ap (λ p. p.1) same) at m)) [
      | inl there ↦ absurd (Serves-new axum e there)
      | inr there ↦ inl there
    ],
  )
  merge_named-cases name n q r [] (inr m) = absurd m
  merge_named-cases name n q r ((k, old) ∷ named) m = elim (Bool-cases (str_eq k name)) [
    | inl same ↦ elim (rw same at m) [
      | inr later ↦ inl (inr later)
      | inl here ↦
          let key : n ≡ k = ap (λ p. p.0) here in
          inr (
            key ∙ (eq_iff k name).0 same,
            λ e s. elim (Serves-merge axum old q e (rw (ap (λ p. p.1) here) at s)) [
              | inl before ↦ inr (old, inl (ap (λ x. (x, old)) key), before)
              | inr added ↦ inl added
            ],
          )
    ]
    | inr other ↦ elim (rw other at m) [
      | inl here ↦ inl (inl here)
      | inr later ↦ elim (merge_named-cases name n q r named later) [
        | inl before ↦ inl (inr before)
        | inr (key, sources) ↦ inr (
          key,
          λ e s. elim (sources e s) [
            | inl added ↦ inl added
            | inr (o, there, served) ↦ inr (o, inr there, served)
          ],
        )
      ]
    ]
  ]

  add_route-AreSorted :
      (tagged : List (TaggedRoute Router)) (t : TaggedRoute Router) (g : RouteGroup)
      (b : Buckets axum)
      → In t tagged
      → t.group ≡ g
      → AreSorted axum tagged b
      → AreSorted axum tagged (add_route axum g t.router b)
  unfolding add_route
  add_route-AreSorted tagged t bare b there e h = record {
    of_public = h.of_public;
    of_protected = h.of_protected;
    of_named = h.of_named;
    of_bare = λ w m. elim (Serves-merge axum b.bare_router t.router w m) [
      | inl before ↦ h.of_bare w before
      | inr added ↦ (t, there, e, added)
    ];
  }
  add_route-AreSorted tagged t public b there e h = record {
    of_bare = h.of_bare;
    of_protected = h.of_protected;
    of_named = h.of_named;
    of_public = λ w m. elim (Serves-merge axum b.public_router t.router w m) [
      | inl before ↦ h.of_public w before
      | inr added ↦ (t, there, e, added)
    ];
  }
  add_route-AreSorted tagged t protected b there e h = record {
    of_bare = h.of_bare;
    of_public = h.of_public;
    of_named = h.of_named;
    of_protected = λ w m. elim (Serves-merge axum b.protected_router t.router w m) [
      | inl before ↦ h.of_protected w before
      | inr added ↦ (t, there, e, added)
    ];
  }
  add_route-AreSorted tagged t (protected_with name) b there e h = record {
    of_bare = h.of_bare;
    of_public = h.of_public;
    of_protected = h.of_protected;
    of_named = λ n r w m s. elim (merge_named-cases name n t.router r b.named_routers m) [
      | inl before ↦ h.of_named n r w before s
      | inr (key, sources) ↦ elim (sources w s) [
        | inl added ↦ (t, there, e ∙ ap protected_with (sym key), added)
        | inr (old, before, served) ↦ h.of_named n old w before served
      ]
    ];
  }

  pub bucket_routes-AreSorted :
      (tagged ts : List (TaggedRoute Router)) (b : Buckets axum)
      → ((t : TaggedRoute Router) → In t ts → In t tagged)
      → AreSorted axum tagged b
      → AreSorted axum tagged (bucket_routes axum ts b)
  unfolding bucket_routes
  bucket_routes-AreSorted tagged [] b all_there h = h
  bucket_routes-AreSorted tagged (t ∷ ts) b all_there h =
      bucket_routes-AreSorted tagged ts (add_route axum t.group t.router b)
        (λ u m. all_there u (inr m))
        (add_route-AreSorted tagged t t.group b (all_there t (inl refl)) refl h)

  pub no_routes-AreSorted :
      (tagged : List (TaggedRoute Router)) → AreSorted axum tagged (no_routes axum)
  no_routes-AreSorted tagged = record {
    of_bare = λ e m. absurd (Serves-new axum e m);
    of_public = λ e m. absurd (Serves-new axum e m);
    of_protected = λ e m. absurd (Serves-new axum e m);
    of_named = λ n r e m s. absurd m;
  }
