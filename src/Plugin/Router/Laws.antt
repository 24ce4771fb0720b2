-- ===== src/Plugin/Router/Laws.antt =====
-- rusty-gasket/src/plugin/engine.rs: every route of the built router has the stack of its group.
use Prim.Native.String.{String}
use rusty_gasket.Common.{
  ℕ, ◌≡◌, refl, ap, sym, ◌∙◌, inl, inr, not, List, [], ◌∷◌, ◌++◌, Option, none, some, arith, keep,
  In, Option-cases, same_of_some,
}
use rusty_gasket.Plugin.Router.{
  RouteGroup, bare, public, protected, protected_with, Wrap, logging, body_limit, named_auth,
  TaggedLayer, TaggedRoute, Wrapped, wrapped_in, Routers, Buckets, no_routes, bucket_routes,
  apply_layers, log_and_limit, transport_layers, protected_layers, is_authentication, named_chain,
  protect_named, apply_named_protected_routers, instrumented, with_bare, build_router,
}
use rusty_gasket.Plugin.Router.Stacks.{
  wrapped_in-append, Serves, Serves-merge, Serves-new, wraps_of, Serves-apply_layers,
  Serves-log_and_limit, Serves-protect_named, From, AreSorted,
}
use rusty_gasket.Plugin.Router.Grouping.{bucket_routes-AreSorted, no_routes-AreSorted}

module _ {Router Route Layer Chain : Type 0} (axum : Routers Router Route Layer Chain) (limit : ℕ)
    (plugins : List (List (TaggedLayer Layer))) (chains : List (String × Chain)) where
  abbrev pub named_stack : Option Chain → Option (List (Wrap Layer Chain))
  named_stack none = none
  named_stack (some chain) = some (
      body_limit limit
      ∷ logging
      ∷ named_auth chain
      ∷ wraps_of axum (keep (λ l. not (is_authentication l)) (protected_layers plugins)))

  -- The part of the stack below the transport layers.
  abbrev pub inner_stack : RouteGroup → Option (List (Wrap Layer Chain))
  inner_stack bare = none
  inner_stack public = some (body_limit limit ∷ logging ∷ [])
  inner_stack protected =
      some (body_limit limit ∷ logging ∷ wraps_of axum (protected_layers plugins))
  inner_stack (protected_with name) = named_stack (named_chain axum name chains)

  abbrev below_transport : Option (List (Wrap Layer Chain)) → Option (List (Wrap Layer Chain))
  below_transport none = none
  below_transport (some ws) = some (wraps_of axum (transport_layers plugins) ++ ws)

  -- The stack of a group, the outermost wrap first; none where the chain is not registered.
  abbrev pub stack : RouteGroup → Option (List (Wrap Layer Chain))
  stack bare = some []
  stack g = below_transport (inner_stack g)

  -- A route of the group, in these wraps.
  abbrev InStack :
      List (TaggedRoute Router)
      → (RouteGroup → Option (List (Wrap Layer Chain)))
      → Wrapped Route Layer Chain
      → Type 0
  InStack tagged stack_of e =
      (g : RouteGroup) × (ws : List (Wrap Layer Chain)) × (stack_of g ≡ some ws)
      × ((i : Wrapped Route Layer Chain) × From axum tagged g i × (e ≡ wrapped_in ws i))

  instrumented-InStack :
      (tagged : List (TaggedRoute Router)) (b : Buckets axum) (e : Wrapped Route Layer Chain)
      → AreSorted axum tagged b
      → Serves axum (instrumented axum limit plugins b) e
      → InStack tagged inner_stack e
  instrumented-InStack tagged b e h m =
      elim (Serves-merge axum (axum.merge axum.new (log_and_limit axum limit b.public_router))
        (log_and_limit axum limit (apply_layers axum (protected_layers plugins) b.protected_router))
        e m) [
          | inl open_to_all ↦
              elim (Serves-merge axum axum.new (log_and_limit axum limit b.public_router) e
                open_to_all) [
                  | inl absent ↦ absurd (Serves-new axum e absent)
                  | inr there ↦
                      let (i, source, around) =
                        Serves-log_and_limit axum limit [] b.public_router b.public_router
                          (λ w s. (w, s, refl)) e there in
                      (
                        public,
                        body_limit limit ∷ logging ∷ [],
                        refl,
                        (i, h.of_public i source, around),
                      )
                ]
          | inr guarded ↦
              let ws = wraps_of axum (protected_layers plugins) in
              let (i, source, around) =
                Serves-log_and_limit axum limit ws
                  (apply_layers axum (protected_layers plugins) b.protected_router)
                  b.protected_router
                  (Serves-apply_layers axum (protected_layers plugins) b.protected_router) e
                  guarded in
              (
                protected,
                body_limit limit ∷ logging ∷ ws,
                refl,
                (i, h.of_protected i source, around),
              )
        ]

  named-InStack :
      (tagged : List (TaggedRoute Router)) (named : List (String × Router)) (router r : Router)
      → ((name : String) (q : Router) (e : Wrapped Route Layer Chain)
          → In (name, q) named
          → Serves axum q e
          → From axum tagged (protected_with name) e)
      → ((e : Wrapped Route Layer Chain) → Serves axum router e → InStack tagged inner_stack e)
      → apply_named_protected_routers axum limit plugins chains named router ≡ some r
      → (e : Wrapped Route Layer Chain) → Serves axum r e
      → InStack tagged inner_stack e
  unfolding apply_named_protected_routers
  named-InStack tagged [] router r hn h built e m = h e (rw (sym (same_of_some built)) at m)
  named-InStack tagged ((name, q) ∷ named) router r hn h built e m =
      elim (Option-cases (named_chain axum name chains)) [
        | inl missing ↦
            let clash = rw (missing, apply_named_protected_routers) at built in
            absurd (ground arith)
        | inr (chain, found) ↦
            let guarded = protect_named axum limit plugins chain q in
            named-InStack tagged named (axum.merge router guarded) r
              (λ n p w there s. hn n p w (inr there) s)
              (λ w s. elim (Serves-merge axum router guarded w s) [
                | inl before ↦ h w before
                | inr added ↦
                    let (i, source, around) =
                      Serves-protect_named axum limit plugins chain q w added in
                    (
                      protected_with name,
                      body_limit limit
                          ∷ logging
                          ∷ named_auth chain
                          ∷ wraps_of axum
                              (keep (λ l. not (is_authentication l)) (protected_layers plugins)),
                      ap named_stack found,
                      (i, hn name q i (inl refl) source, around),
                    )
              ])
              (rw (found, apply_named_protected_routers) at built) e m
      ]

  pub stack_of_inner :
      (g : RouteGroup) (ws : List (Wrap Layer Chain))
      → inner_stack g ≡ some ws
      → stack g ≡ some (wraps_of axum (transport_layers plugins) ++ ws)
  stack_of_inner bare ws h = absurd (ground arith)
  stack_of_inner public ws h = ap below_transport h
  stack_of_inner protected ws h = ap below_transport h
  stack_of_inner (protected_with name) ws h = ap below_transport h

  pub with_bare-some :
      (bare_router r : Router) (o : Option Router)
      → with_bare axum plugins bare_router o ≡ some r
      → (q : Router) × (o ≡ some q)
        × (axum.merge
              (axum.merge axum.new bare_router)
              (apply_layers axum (transport_layers plugins) q)
            ≡ r)
  with_bare-some bare_router r none h = absurd (ground arith)
  with_bare-some bare_router r (some q) h = (q, refl, same_of_some h)

  -- Every route of a router that is built comes from a router of the plugins, and carries the stack of
  -- its group.
  pub build_router-stack :
      (tagged : List (TaggedRoute Router)) (r : Router) (e : Wrapped Route Layer Chain)
      → build_router axum limit plugins chains tagged ≡ some r
      → In e (axum.routes r)
      → (t : TaggedRoute Router) × (ws : List (Wrap Layer Chain)) × In t tagged
        × (stack t.group ≡ some ws)
        × ((i : Wrapped Route Layer Chain) × In i (axum.routes t.router) × (e ≡ wrapped_in ws i))
  unfolding build_router
  build_router-stack tagged r e built m =
      let b = bucket_routes axum tagged (no_routes axum) in
      let sorted =
        bucket_routes-AreSorted axum tagged tagged (no_routes axum) (λ t there. there)
          (no_routes-AreSorted axum tagged) in
      let (q, made, whole) =
        with_bare-some b.bare_router r
          (apply_named_protected_routers axum limit plugins chains b.named_routers
            (instrumented axum limit plugins b))
          built in
      elim (Serves-merge axum (axum.merge axum.new b.bare_router)
        (apply_layers axum (transport_layers plugins) q) e (rw (sym whole) at m)) [
          | inl outside ↦ elim (Serves-merge axum axum.new b.bare_router e outside) [
            | inl absent ↦ absurd (Serves-new axum e absent)
            | inr there ↦
                let (t, tag, group, source) = sorted.of_bare e there in
                (t, [], tag, ap stack group, (e, source, refl))
          ]
          | inr inside ↦
              let outside_of = wraps_of axum (transport_layers plugins) in
              let (j, below, outer) =
                Serves-apply_layers axum (transport_layers plugins) q e inside in
              let (g, ws, inner, (i, (t, tag, group, source), around)) =
                named-InStack tagged b.named_routers (instrumented axum limit plugins b) q
                  sorted.of_named (λ w s. instrumented-InStack tagged b w sorted s) made j below in
              (
                t,
                wraps_of axum (transport_layers plugins) ++ ws,
                tag,
                ap stack group ∙ stack_of_inner g ws inner,
                (
                  i,
                  source,
                  outer ∙ ap (wrapped_in outside_of) around ∙ wrapped_in-append outside_of ws i,
                ),
              )
        ]
