-- ===== src/Scheduler/Loop.antt =====
-- The loop of a job of rusty-gasket/src/jobs.rs: it never ends by itself and never stays out of step.
use rusty_gasket.Common.{
  ℕ, suc, ◌+◌, ◌≡◌, refl, List, [], ◌∷◌, some, arith, ◌⊎◌, inl, inr, same_of_some,
}
use rusty_gasket.Scheduler.{
  JobPhase, first_tick, next_tick, task_running, JobLoop, JobEvent, tick, task_ok, task_error,
  start_job, job_step, run_job_loop,
}

-- How many runs have ended, and how many of them with an error.
abbrev pub ended : List JobEvent → ℕ
ended [] = 0
ended (tick ∷ es) = ended es
ended (task_ok ∷ es) = suc (ended es)
ended (task_error ∷ es) = suc (ended es)

abbrev pub errors : List JobEvent → ℕ
errors [] = 0
errors (task_error ∷ es) = suc (errors es)
errors (_ ∷ es) = errors es

abbrev pub in_progress : JobPhase → ℕ
in_progress task_running = 1
in_progress _ = 0

run-counts :
    (es : List JobEvent) (p : JobPhase) (r w : ℕ) (k : JobLoop)
    → run_job_loop es (record { phase = p; runs = r; warnings = w }) ≡ some k
    → (k.runs + in_progress p ≡ r + ended es + in_progress k.phase) × (k.warnings ≡ w + errors es)
unfolding run_job_loop job_step
run-counts [] p r w k h =
    let same : record { phase = p; runs = r; warnings = w } ≡ k = same_of_some h in
    rw⁻¹ same (omega arith, omega arith)
run-counts (tick ∷ es) first_tick r w k h = ground (arith, run-counts es next_tick r w k h)
run-counts (tick ∷ es) next_tick r w k h = ground (arith, run-counts es task_running (suc r) w k h)
run-counts (tick ∷ es) task_running r w k h = absurd (ground arith)
run-counts (task_ok ∷ es) task_running r w k h = ground (arith, run-counts es next_tick r w k h)
run-counts (task_ok ∷ es) first_tick r w k h = absurd (ground arith)
run-counts (task_ok ∷ es) next_tick r w k h = absurd (ground arith)
run-counts (task_error ∷ es) task_running r w k h =
    ground (arith, run-counts es next_tick r (suc w) k h)
run-counts (task_error ∷ es) first_tick r w k h = absurd (ground arith)
run-counts (task_error ∷ es) next_tick r w k h = absurd (ground arith)

-- What brings the next run about: ticks, and first the end of a run in progress, with its outcome.
abbrev pub until_run : JobEvent → JobPhase → List JobEvent
until_run outcome first_tick = tick ∷ tick ∷ []
until_run outcome next_tick = tick ∷ []
until_run outcome task_running = outcome ∷ tick ∷ []

until_run-runs :
    (outcome : JobEvent) (p : JobPhase) (r w : ℕ)
    → (outcome ≡ task_ok) ⊎ (outcome ≡ task_error)
    → (later : JobLoop) × (run_job_loop
          (until_run outcome p)
          (record { phase = p; runs = r; warnings = w })
        ≡ some later)
      × (later.runs ≡ suc r)
unfolding run_job_loop job_step
until_run-runs outcome first_tick r w h =
    (record { phase = task_running; runs = suc r; warnings = w }, refl, refl)
until_run-runs outcome next_tick r w h =
    (record { phase = task_running; runs = suc r; warnings = w }, refl, refl)
until_run-runs outcome task_running r w (inl fine) =
    rw fine (record { phase = task_running; runs = suc r; warnings = w }, refl, refl)
until_run-runs outcome task_running r w (inr failing) =
    rw failing (record { phase = task_running; runs = suc r; warnings = suc w }, refl, refl)

-- After any events that the loop of a job can see, ticks bring about its next run, once a run in
-- progress has ended, whether that one succeeds or fails; until then it has run as often as runs have
-- ended, and once more while one is in progress, and it has warned once for each error.
pub run_job_loop-runs_again :
    (es : List JobEvent) (k : JobLoop) (outcome : JobEvent)
    → run_job_loop es start_job ≡ some k
    → (outcome ≡ task_ok) ⊎ (outcome ≡ task_error)
    → ((later : JobLoop) × (run_job_loop (until_run outcome k.phase) k ≡ some later)
        × (later.runs ≡ suc k.runs))
      × (k.runs ≡ ended es + in_progress k.phase)
      × (k.warnings ≡ errors es)
run_job_loop-runs_again es k outcome h either =
    let (counted, warned) = run-counts es first_tick 0 0 k h in
    (
      until_run-runs outcome k.phase k.runs k.warnings either,
      omega (arith, counted),
      omega (arith, warned),
    )
