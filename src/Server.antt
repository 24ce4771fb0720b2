-- ===== src/Server.antt =====
-- rusty-gasket/src/server.rs: `run` and the signal that ends it. What the system and the crates axum and
-- axum_server do is the record `Net`; the calls of the plugins' hooks are those of Plugin/Engine.
pub mod Laws
use rusty_gasket.Common.{
  ℕ, min, Bool, true, false, List, [], ◌∷◌, ◌++◌, map, Option, none, some, ◌⊎◌, inl, inr,
}
use rusty_gasket.Common.Text.{Text}
use rusty_gasket.Config.{AppConfig}
use rusty_gasket.Plugin.Engine.{Plugin, Event, GasketApp, ready_all, shutdown}

pub record Net (Ip Listener Router Tls Error : Type 0) : Type 0 where
  pub parse : Text → Ip ⊎ Error
  pub bind : Ip → ℕ → Listener ⊎ Error
  pub local_addr : Listener → Option Error
  pub serve : Listener → Router → Option Error
  pub serve_tls : Listener → Router → Tls → Option Error

pub data ServerEvent : Type 0 where
  bound served : ServerEvent
  hook : Event → ServerEvent

-- `panicked` is the panic of `build_router`.
pub data RunResult (Error : Type 0) : Type 0 where
  finished panicked : RunResult Error
  failed : Error → RunResult Error

pub record Run (Error : Type 0) : Type 0 where
  pub events : List ServerEvent
  pub result : RunResult Error

abbrev pub prefixed : {Error : Type 0} → List ServerEvent → Run Error → Run Error
prefixed events r = record { events = events ++ r.events; result = r.result }

abbrev pub App : Type 0 → Type 0 → Type 0 → Type 0
App Extensions Actions Error = GasketApp AppConfig Extensions Actions Error

-- With or without TLS, by the configuration.
abbrev pub serve_on :
    {Ip Listener Router Tls Error : Type 0}
    → Net Ip Listener Router Tls Error
    → Listener
    → Router
    → Option Tls
    → Option Error
serve_on net listener router none = net.serve listener router
serve_on net listener router (some tls) = net.serve_tls listener router tls

-- After the server ended; without an error the plugins are shut down.
abbrev pub after_serving :
    {Extensions Actions Error : Type 0} → App Extensions Actions Error → Option Error → Run Error
after_serving app (some e) = record { events = served ∷ []; result = failed e }
after_serving app none = record { events = served ∷ map hook (shutdown app); result = finished }

module _ {Ip Listener Router Tls Extensions Actions Error : Type 0}
    (net : Net Ip Listener Router Tls Error) (app : App Extensions Actions Error) where
  abbrev pub serve_ready : Router → Option Tls → Listener → Option Error → Run Error
  serve_ready router tls listener (some e) = record { events = []; result = failed e }
  serve_ready router tls listener none = after_serving app (serve_on net listener router tls)

  unfoldable pub serve_bound : Router → Option Tls → Listener → Run Error
  unfolding ready_all
  serve_bound router tls listener = elim (net.local_addr listener) [
    | some e ↦ record { events = bound ∷ []; result = failed e }
    | none ↦
        let (readied, failure) = ready_all app.plugins app.config app.extensions in
        prefixed (bound ∷ map hook readied) (serve_ready router tls listener failure)
  ]

  -- `router` is what `build_router` gives, `none` where it panics.
  unfoldable pub run : Option Router → Option Tls → Run Error
  unfolding serve_bound
  run router tls = elim (net.parse app.config.server.host) [
    | inr e ↦ record { events = []; result = failed e }
    | inl ip ↦ elim router [
      | none ↦ record { events = []; result = panicked }
      | some r ↦ elim (net.bind ip app.config.server.port) [
        | inr e ↦ record { events = []; result = failed e }
        | inl listener ↦ serve_bound r tls listener
      ]
    ]
  ]

-- What becomes of one source of a signal: its handler cannot be installed, or the signal arrives
-- later, or never.
pub data SignalSource : Type 0 where
  no_handler never : SignalSource
  arrives_at : ℕ → SignalSource

-- When the future of the source is ready; without a handler it is pending for ever.
abbrev pub ready_at : SignalSource → Option ℕ
ready_at no_handler = none
ready_at never = none
ready_at (arrives_at t) = some t

abbrev pub earliest : Option ℕ → Option ℕ → Option ℕ
earliest none t = t
earliest (some s) none = some s
earliest (some s) (some t) = some (min s t)

-- `shutdown_signal`: the first of Ctrl+C and SIGTERM.
abbrev pub shutdown_signal : SignalSource → SignalSource → Option ℕ
shutdown_signal ctrl_c terminate = earliest (ready_at ctrl_c) (ready_at terminate)
