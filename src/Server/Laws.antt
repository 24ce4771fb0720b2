-- ===== src/Server/Laws.antt =====
-- What rusty-gasket/src/server.rs does with the plugins of an application.
use rusty_gasket.Common.{
  ◌≡◌, refl, ap, ◌⊎◌, inl, inr, List, [], ◌∷◌, ◌++◌, ◌∙◌, map, reverse, Option, none, some, ◌≢◌,
  All, All-append, arith, Option-cases, result_cases,
}
use rusty_gasket.Config.{AppConfig}
use rusty_gasket.Plugin.Engine.{Plugin, readied, shut_down, GasketApp, ready_all, shutdown}
use rusty_gasket.Server.{
  Net, ServerEvent, bound, served, hook, finished, Run, serve_on, prefixed, serve_ready,
  serve_bound, run,
}

map-map :
    {A B C : Type 0} (f : B → C) (g : A → B) (xs : List A)
    → map f (map g xs) ≡ map (λ x. f (g x)) xs
map-map f g [] = refl
map-map f g (x ∷ xs) = ap (◌∷◌ (f (g x))) (map-map f g xs)

-- No plugin is shut down.
abbrev pub NotShutDown : ServerEvent → Type 0
NotShutDown (hook (shut_down n)) = ⊥
NotShutDown _ = Unit

-- The hooks that `ready` called: all of them when none failed, and in any case no shutdown.
ready_all-cases :
    {Extensions Actions Error : Type 0} (ps : List (Plugin AppConfig Extensions Actions Error))
    (c : AppConfig) (x : Extensions)
    → (((ready_all ps c x).1 ≡ none)
          × (map hook (ready_all ps c x).0 ≡ map (λ p. hook (readied p.name)) ps)
        ⊎ ((e : Error) × ((ready_all ps c x).1 ≡ some e)))
      × All NotShutDown (map hook (ready_all ps c x).0)
unfolding ready_all
ready_all-cases [] c x = (inl (refl, refl), tt)
ready_all-cases (p ∷ ps) c x = elim (Option-cases (p.ready c x)) [
  | inr (e, fails) ↦ (inr (e, rw (fails, ready_all) refl), rw (fails, ready_all) (tt, tt))
  | inl fine ↦
      let (rest, clean) = ready_all-cases ps c x in
      (
        elim rest [
          | inl (none_failed, events) ↦ inl (
            rw (fine, ready_all) none_failed,
            rw (fine, ready_all) (ap (◌∷◌ (hook (readied p.name))) events),
          )
          | inr (e, failure) ↦ inr (e, rw (fine, ready_all) failure)
        ],
        rw (fine, ready_all) (tt, clean),
      )
]

-- What a run comes to.
abbrev pub Ends :
    {Extensions Actions Error : Type 0}
    → GasketApp AppConfig Extensions Actions Error
    → Run Error
    → Type 0
Ends app r =
    ((r.result ≡ finished)
      × (r.events
          ≡ (bound ∷ map (λ p. hook (readied p.name)) app.plugins)
            ++ served ∷ map (λ p. hook (shut_down p.name)) (reverse app.plugins)))
    ⊎ ((r.result ≢ finished) × All NotShutDown r.events)

module _ {Ip Listener Router Tls Extensions Actions Error : Type 0}
    (net : Net Ip Listener Router Tls Error) where
  serve_ready-Ends :
      (app : GasketApp AppConfig Extensions Actions Error) (router : Router) (tls : Option Tls)
      (listener : Listener)
      → Ends app (
          prefixed (bound ∷ map hook (ready_all app.plugins app.config app.extensions).0) (
            serve_ready net app router tls listener
              (ready_all app.plugins app.config app.extensions).1))
  serve_ready-Ends app router tls listener =
      let before = bound ∷ map hook (ready_all app.plugins app.config app.extensions).0 in
      let (outcome, clean) = ready_all-cases app.plugins app.config app.extensions in
      elim outcome [
        | inr (e, failure) ↦
            rw failure (inr (λ h. ground arith, All-append NotShutDown before [] (tt, clean) tt))
        | inl (none_failed, events) ↦ elim (Option-cases (serve_on net listener router tls)) [
          | inr (e, broken) ↦
              rw (none_failed, broken)
                (inr (
                  λ h. ground arith,
                  All-append NotShutDown before (served ∷ []) (tt, clean) (tt, tt),
                ))
          | inl ended ↦
              rw (none_failed, ended)
                (inl (
                  refl,
                  ap (λ l. (bound ∷ l) ++ served ∷ map hook (shutdown app)) events
                      ∙ ap
                          (λ l.
                            (bound ∷ map (λ p. hook (readied p.name)) app.plugins) ++ served ∷ l)
                          (map-map hook (λ p. shut_down p.name) (reverse app.plugins)),
                ))
        ]
      ]

  -- A run that ends in an orderly way has called `ready` of every plugin in order, then served, then
  -- called `shutdown` of every plugin in the reverse order, each once. A run that ends with an error or a
  -- panic, wherever it comes from, has shut down no plugin.
  pub run-Ends :
      (app : GasketApp AppConfig Extensions Actions Error) (router : Option Router)
      (tls : Option Tls)
      → Ends app (run net app router tls)
  unfolding run serve_bound
  run-Ends app router tls = elim (result_cases (net.parse app.config.server.host)) [
    | inr (e, bad) ↦ rw (bad, run) (inr (λ h. ground arith, tt))
    | inl (ip, parsed) ↦ elim (Option-cases router) [
      | inl panics ↦ rw (parsed, run, panics) (inr (λ h. ground arith, tt))
      | inr (r, made) ↦ elim (result_cases (net.bind ip app.config.server.port)) [
        | inr (e, busy) ↦ rw (parsed, run, made, busy) (inr (λ h. ground arith, tt))
        | inl (listener, free) ↦ elim (Option-cases (net.local_addr listener)) [
          | inr (e, lost) ↦
              rw (parsed, run, made, free, serve_bound, lost) (inr (λ h. ground arith, (tt, tt)))
          | inl known ↦
              rw (parsed, run, made, free, serve_bound, known) (serve_ready-Ends app r tls listener)
        ]
      ]
    ]
  ]
