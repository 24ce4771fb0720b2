-- ===== src/Examples/Serving.antt =====
-- A server that starts and one that cannot, for rusty-gasket/src/server.rs, and jobs for jobs.rs.
use Prim.Native.String.{String}
use rusty_gasket.Common.{
  ℕ, ◌≡◌, ◌+◌, refl, inl, false, [], ◌∷◌, none, some, length, ◌==◌, if◌then◌else◌,
}
use rusty_gasket.Common.Text.{codes}
use rusty_gasket.Json.{end}
use rusty_gasket.Config.{AppConfig, production}
use rusty_gasket.Plugin.Engine.{Plugin, readied, shut_down}
use rusty_gasket.Server.{
  Net, bound, served, hook, App, finished, failed, run, arrives_at, no_handler, shutdown_signal,
}
use rusty_gasket.Server.Laws.{Ends, run-Ends}
use rusty_gasket.Scheduler.{
  JobLoop, task_running, tick, task_ok, task_error, start_job, run_job_loop,
}
use rusty_gasket.Scheduler.Loop.{until_run, ended, errors, in_progress, run_job_loop-runs_again}
use rusty_gasket.Scheduler.Tasks.{registers, prepares, shuts_down, call, calls, calls-shutdown}

-- `ready` fails for the plugin with the extensions 0.
abbrev plugin : String → Plugin AppConfig ℕ ℕ ℕ
plugin name = record {
  name = name;
  dependencies = [];
  ordering = record { before = []; after = []; first = false; last = false };
  init = λ a. a;
  configure = λ c. c;
  prepare = λ c x. (x, none);
  ready = λ c x. if x == 0 then some 7 else none;
  shutdown = λ x. none;
}

abbrev app : ℕ → App ℕ ℕ ℕ
app extensions = record {
  plugins = plugin "database" ∷ plugin "cache" ∷ [];
  actions = 0;
  config = record {
    name = codes "shop";
    env = production;
    server = record { host = codes "0.0.0.0"; port = 8443 };
    sections = end;
  };
  extensions = extensions;
}

abbrev net : Net ℕ ℕ ℕ ℕ ℕ
net = record {
  parse = λ host. inl 0;
  bind = λ ip port. inl port;
  local_addr = λ listener. none;
  serve = λ listener router. none;
  serve_tls = λ listener router tls. none;
}

run-Ends_example : Ends (app 1) (run net (app 1) (some 3) none)
run-Ends_example = run-Ends net (app 1) (some 3) none

orderly_run : run net (app 1) (some 3) none ≡ record {
  events =
      bound
      ∷ hook (readied "database")
      ∷ hook (readied "cache")
      ∷ served
      ∷ hook (shut_down "cache")
      ∷ hook (shut_down "database")
      ∷ [];
  result = finished;
}
unfolding run
orderly_run = refl

-- The plugins that were prepared before are not shut down.
unready_run :
    run net (app 0) (some 3) none
    ≡ record { events = bound ∷ hook (readied "database") ∷ []; result = failed 7 }
unfolding run
unready_run = refl

no_ctrl_c : shutdown_signal no_handler (arrives_at 5) ≡ some 5
no_ctrl_c = refl

abbrev failing_once : JobLoop
failing_once = record { phase = task_running; runs = 2; warnings = 1 }

ran_twice : run_job_loop (tick ∷ tick ∷ task_error ∷ tick ∷ []) start_job ≡ some failing_once
unfolding run_job_loop
ran_twice = refl

run_job_loop-runs_again_example :
    ((later : JobLoop) × (run_job_loop (until_run task_ok task_running) failing_once ≡ some later)
      × (later.runs ≡ 3))
    × (2 ≡ ended (tick ∷ tick ∷ task_error ∷ tick ∷ []) + in_progress task_running)
    × (1 ≡ errors (tick ∷ tick ∷ task_error ∷ tick ∷ []))
run_job_loop-runs_again_example =
    run_job_loop-runs_again (tick ∷ tick ∷ task_error ∷ tick ∷ []) failing_once task_ok ran_twice
      (inl refl)

calls-shutdown_example :
    let s = calls (prepares ∷ registers (codes "sweep") 60 ∷ []) in
    (length (call prepares s).running ≡ length s.running + length s.jobs)
    × ((call shuts_down s).running ≡ [])
    × ((call shuts_down s).handles ≡ [])
calls-shutdown_example = calls-shutdown (prepares ∷ registers (codes "sweep") 60 ∷ [])
