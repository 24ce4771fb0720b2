-- ===== src/Plugin/Router/Completeness.antt =====
-- rusty-gasket/src/plugin/engine.rs: what the router of `build_router` serves.
use Prim.Native.String.{String}
use rusty_gasket.Plugin.Router.{transport_security, logging_slot, authentication}
use rusty_gasket.Plugin.Router.Slots.{
  in_slot, unauthenticated, transport_layers-slots, protected_layers-slots, named_layers-slots,
}
use rusty_gasket.Common.{
  Option, none, Option-cases, concat, ℕ, ◌≡◌, refl, ap, sym, ◌∙◌, inl, inr, not, List, [], ◌∷◌,
  ◌++◌, some, keep, In, ◌↔◌, arith, same_of_some,
}
use rusty_gasket.Plugin.Router.{
  RouteGroup, bare, public, protected, protected_with, Wrap, logging, body_limit, named_auth,
  TaggedLayer, TaggedRoute, Wrapped, wrapped_in, Routers, Buckets, no_routes, bucket_routes,
  apply_layers, log_and_limit, transport_layers, protected_layers, is_authentication, named_chain,
  protect_named, apply_named_protected_routers, instrumented, build_router,
}
use rusty_gasket.Plugin.Router.Coverage.{
  merge_left, merge_right, Covers-apply_layers, Covers-log_and_limit, Covers-protect_named,
}
use rusty_gasket.Plugin.Router.Filling.{Offered, Holds, bucket_routes-Holds}
use rusty_gasket.Plugin.Router.Stacks.{wrapped_in-append, Serves, wraps_of}
use rusty_gasket.Plugin.Router.Laws.{
  inner_stack, stack, stack_of_inner, with_bare-some, build_router-stack, named_stack,
}

module _ {Router Route Layer Chain : Type 0} (axum : Routers Router Route Layer Chain) (limit : ℕ)
    (plugins : List (List (TaggedLayer Layer))) (chains : List (String × Chain)) where
  apply_named-kept :
      (named : List (String × Router)) (router q : Router) (e : Wrapped Route Layer Chain)
      → apply_named_protected_routers axum limit plugins chains named router ≡ some q
      → Serves axum router e
      → Serves axum q e
  unfolding apply_named_protected_routers
  apply_named-kept [] router q e made s = rw (same_of_some made) at s
  apply_named-kept ((name, r) ∷ named) router q e made s =
      elim (Option-cases (named_chain axum name chains)) [
        | inl missing ↦
            let clash = rw (missing, apply_named_protected_routers) at made in absurd (ground arith)
        | inr (chain, found) ↦
            let guarded = protect_named axum limit plugins chain r in
            apply_named-kept named (axum.merge router guarded) q e
              (rw (found, apply_named_protected_routers) at made)
              (merge_left axum router guarded e s)
      ]

  -- The router has the route in the part of its stack that is below the transport layers.
  abbrev Inside : RouteGroup → Router → Wrapped Route Layer Chain → Type 0
  Inside g q e =
      (ws : List (Wrap Layer Chain)) × (inner_stack axum limit plugins chains g ≡ some ws)
      × Serves axum q (wrapped_in ws e)

  apply_named-Inside :
      (named : List (String × Router)) (router q : Router) (name : String)
      (e : Wrapped Route Layer Chain)
      → apply_named_protected_routers axum limit plugins chains named router ≡ some q
      → Offered axum name e named
      → Inside (protected_with name) q e
  unfolding apply_named_protected_routers
  apply_named-Inside [] router q name e made (r, there, s) = absurd there
  apply_named-Inside ((n, p) ∷ named) router q name e made (r, there, s) =
      elim (Option-cases (named_chain axum n chains)) [
        | inl missing ↦
            let clash = rw (missing, apply_named_protected_routers) at made in absurd (ground arith)
        | inr (chain, found) ↦
            let guarded = protect_named axum limit plugins chain p in
            let rest = rw (found, apply_named_protected_routers) at made in
            elim there [
              | inr later ↦
                  apply_named-Inside named (axum.merge router guarded) q name e rest (r, later, s)
              | inl here ↦
                  let key : name ≡ n = ap (λ x. x.0) here in
                  let own : Serves axum p e = rw (ap (λ x. x.1) here) at s in
                  let ws =
                    body_limit limit
                    ∷ logging
                    ∷ named_auth chain
                    ∷ wraps_of axum
                        (keep (λ l. not (is_authentication l)) (protected_layers plugins)) in
                  let inside = Covers-protect_named axum limit plugins chain p e own in
                  (
                    ws,
                    ap (λ x. named_stack axum limit plugins chains (named_chain axum x chains)) key
                        ∙ ap (named_stack axum limit plugins chains) found,
                    apply_named-kept named (axum.merge router guarded) q (wrapped_in ws e) rest
                        (merge_right axum router guarded (wrapped_in ws e) inside),
                  )
            ]
      ]

  instrumented-public :
      (b : Buckets axum) (e : Wrapped Route Layer Chain)
      → Serves axum b.public_router e
      → Serves axum
          (instrumented axum limit plugins b)
          (wrapped_in (body_limit limit ∷ logging ∷ []) e)
  instrumented-public b e s =
      let open_to_all = log_and_limit axum limit b.public_router in
      let outer = wrapped_in (body_limit limit ∷ logging ∷ []) e in
      merge_left axum (axum.merge axum.new open_to_all)
        (log_and_limit axum limit (apply_layers axum (protected_layers plugins) b.protected_router))
        outer
        (merge_right axum axum.new open_to_all outer
          (Covers-log_and_limit axum limit [] b.public_router b.public_router (λ i m. m) e s))

  instrumented-protected :
      (b : Buckets axum) (e : Wrapped Route Layer Chain)
      → Serves axum b.protected_router e
      → Serves axum
          (instrumented axum limit plugins b)
          (wrapped_in (body_limit limit ∷ logging ∷ wraps_of axum (protected_layers plugins)) e)
  instrumented-protected b e s =
      let ls = protected_layers plugins in
      let guarded = apply_layers axum ls b.protected_router in
      merge_right axum (axum.merge axum.new (log_and_limit axum limit b.public_router))
        (log_and_limit axum limit guarded)
        (wrapped_in (body_limit limit ∷ logging ∷ wraps_of axum ls) e)
        (Covers-log_and_limit axum limit (wraps_of axum ls) b.protected_router guarded
          (Covers-apply_layers axum ls b.protected_router) e s)

  -- The built router has the route in the stack of the group.
  abbrev Built : RouteGroup → Router → Wrapped Route Layer Chain → Type 0
  Built g r e =
      (ws : List (Wrap Layer Chain)) × (stack axum limit plugins chains g ≡ some ws)
      × Serves axum r (wrapped_in ws e)

  Inside-Built :
      (g : RouteGroup) (bare_router q : Router) (e : Wrapped Route Layer Chain)
      → Inside g q e
      → Built g
          (axum.merge
            (axum.merge axum.new bare_router)
            (apply_layers axum (transport_layers plugins) q))
          e
  Inside-Built g bare_router q e (ws, inner, s) =
      let ls = transport_layers plugins in
      let outer = Covers-apply_layers axum ls q (wrapped_in ws e) s in
      (
        wraps_of axum ls ++ ws,
        stack_of_inner axum limit plugins chains g ws inner,
        merge_right axum (axum.merge axum.new bare_router) (apply_layers axum ls q)
            (wrapped_in (wraps_of axum ls ++ ws) e)
            (rw (wrapped_in-append (wraps_of axum ls) ws e) at outer),
      )

  Holds-Built :
      (b : Buckets axum) (q : Router) (g : RouteGroup) (e : Wrapped Route Layer Chain)
      → apply_named_protected_routers axum limit plugins chains b.named_routers
          (instrumented axum limit plugins b)
        ≡ some q
      → Holds axum b g e
      → Built g
          (axum.merge
            (axum.merge axum.new b.bare_router)
            (apply_layers axum (transport_layers plugins) q))
          e
  Holds-Built b q bare e made h = (
    [],
    refl,
    merge_left axum (axum.merge axum.new b.bare_router)
        (apply_layers axum (transport_layers plugins) q) e
        (merge_right axum axum.new b.bare_router e h),
  )
  Holds-Built b q public e made h =
      let ws = body_limit limit ∷ logging ∷ [] in
      Inside-Built public b.bare_router q e (
        ws,
        refl,
        apply_named-kept b.named_routers (instrumented axum limit plugins b) q (wrapped_in ws e)
            made (instrumented-public b e h),
      )
  Holds-Built b q protected e made h =
      let ws = body_limit limit ∷ logging ∷ wraps_of axum (protected_layers plugins) in
      Inside-Built protected b.bare_router q e (
        ws,
        refl,
        apply_named-kept b.named_routers (instrumented axum limit plugins b) q (wrapped_in ws e)
            made (instrumented-protected b e h),
      )
  Holds-Built b q (protected_with name) e made h =
      Inside-Built (protected_with name) b.bare_router q e
        (apply_named-Inside b.named_routers (instrumented axum limit plugins b) q name e made h)

  build_router-Built :
      (tagged : List (TaggedRoute Router)) (r : Router) (t : TaggedRoute Router)
      (e : Wrapped Route Layer Chain)
      → build_router axum limit plugins chains tagged ≡ some r
      → In t tagged
      → Serves axum t.router e
      → Built t.group r e
  unfolding build_router
  build_router-Built tagged r t e built there s =
      let b = bucket_routes axum tagged (no_routes axum) in
      let (q, made, whole) =
        with_bare-some axum limit plugins chains b.bare_router r
          (apply_named_protected_routers axum limit plugins chains b.named_routers
            (instrumented axum limit plugins b))
          built in
      let (ws, known, served) =
        Holds-Built b q t.group e made
          (bucket_routes-Holds axum tagged (no_routes axum) t e there s) in
      (ws, known, rw whole at served)

  abbrev of_slots : List (TaggedLayer Layer) → List (Wrap Layer Chain)
  of_slots ls = wraps_of axum ls

  -- The wraps around the routes of a group, the outermost first, from the layers of the slots in the
  -- order of the plugins; none where a chain is not registered.
  abbrev pub group_stack : RouteGroup → Option (List (Wrap Layer Chain))
  group_stack bare = some []
  group_stack public =
      some
        (of_slots (in_slot transport_security (concat plugins)) ++ body_limit limit ∷ logging ∷ [])
  group_stack protected = some (
      of_slots (in_slot transport_security (concat plugins))
      ++ body_limit limit
        ∷ logging
        ∷ of_slots (
            in_slot logging_slot (concat plugins)
            ++ (in_slot authentication (concat plugins) ++ unauthenticated (concat plugins))))
  group_stack (protected_with name) = elim (named_chain axum name chains) [
    | none ↦ none
    | some chain ↦ some (
        of_slots (in_slot transport_security (concat plugins))
        ++ body_limit limit
          ∷ logging
          ∷ named_auth chain
          ∷ of_slots (in_slot logging_slot (concat plugins) ++ unauthenticated (concat plugins)))
  ]

  stack-group_stack : (g : RouteGroup) → stack axum limit plugins chains g ≡ group_stack g
  stack-group_stack bare = refl
  stack-group_stack public =
      ap (λ ls. some (of_slots ls ++ body_limit limit ∷ logging ∷ []))
        (transport_layers-slots plugins)
  stack-group_stack protected =
      ap
        (λ ls.
          some (of_slots ls ++ body_limit limit ∷ logging ∷ of_slots (protected_layers plugins)))
        (transport_layers-slots plugins)
      ∙ ap
          (λ ls. some (
            of_slots (in_slot transport_security (concat plugins))
            ++ body_limit limit ∷ logging ∷ of_slots ls))
          (protected_layers-slots plugins)
  stack-group_stack (protected_with name) = elim (Option-cases (named_chain axum name chains)) [
    | inl missing ↦ rw (missing, group_stack) refl
    | inr (chain, found) ↦
        rw (found, group_stack)
          (ap
              (λ ls. some (
                of_slots ls
                ++ body_limit limit
                  ∷ logging
                  ∷ named_auth chain
                  ∷ of_slots (keep (λ l. not (is_authentication l)) (protected_layers plugins))))
              (transport_layers-slots plugins)
            ∙ ap
                (λ ls. some (
                  of_slots (in_slot transport_security (concat plugins))
                  ++ body_limit limit ∷ logging ∷ named_auth chain ∷ of_slots ls))
                (named_layers-slots plugins))
  ]

  -- A router that is built serves exactly the routes of the plugins' routers, each in the stack of its
  -- group, the outermost first. A bare route has nothing. A public one has the layers of the transport
  -- slot, the limit of the body and logging. A protected one has inside these the layers of the slots
  -- logging, authentication, rate limit, transaction and custom, in this order and each in the order of the
  -- plugins. One with a chain of its own has inside logging that chain, and inside the chain the layers of
  -- the same slots without those of authentication.
  pub build_router-serves :
      (tagged : List (TaggedRoute Router)) (r : Router) (e : Wrapped Route Layer Chain)
      → build_router axum limit plugins chains tagged ≡ some r
      → In e (axum.routes r) ↔ (
          (t : TaggedRoute Router) × (ws : List (Wrap Layer Chain)) × In t tagged
          × (group_stack t.group ≡ some ws)
          × ((i : Wrapped Route Layer Chain) × In i (axum.routes t.router) × (e ≡ wrapped_in ws i)))
  build_router-serves tagged r e built = (
    λ m.
        let (t, ws, there, known, source) =
          build_router-stack axum limit plugins chains tagged r e built m in
        (t, ws, there, sym (stack-group_stack t.group) ∙ known, source),
    λ h.
        let (t, ws, there, known, (i, s, around)) = h in
        let (vs, same, served) = build_router-Built tagged r t i built there s in
        let equal : ws ≡ vs = same_of_some (sym known ∙ sym (stack-group_stack t.group) ∙ same) in
        rw (around, equal) served,
  )
