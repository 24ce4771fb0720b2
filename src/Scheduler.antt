-- ===== src/Scheduler.antt =====
-- rusty-gasket/src/jobs.rs: `SchedulerPlugin` with its task handles, and the loop of one job. A spawned
-- task is a number; the tasks that run are those of the tokio runtime that this plugin spawned.
pub mod Tasks
pub mod Loop
use rusty_gasket.Common.{
  ℕ, zero, suc, ◌+◌, Bool, true, false, List, [], ◌∷◌, ◌++◌, Option, none, some, length, mem, keep,
  not,
}
use rusty_gasket.Common.Text.{Text, codes}

pub record ScheduledJob : Type 0 where
  pub name : Text
  pub interval : ℕ

-- The plugin and the runtime; `poisoned` is a lock whose holder panicked.
pub record Scheduler : Type 0 where
  pub jobs : List ScheduledJob
  pub handles : List ℕ
  pub poisoned : Bool
  pub running : List ℕ
  pub next_task : ℕ

abbrev pub new_scheduler : Scheduler
new_scheduler = record { jobs = []; handles = []; poisoned = false; running = []; next_task = 0 }

abbrev pub every : Text → ℕ → Scheduler → Scheduler
every name interval s = record s {
  jobs = s.jobs ++ record { name = name; interval = interval } ∷ [];
}

-- A task for each job, numbered from `n`.
abbrev pub spawn_all : List ScheduledJob → ℕ → List ℕ
spawn_all [] n = []
spawn_all (job ∷ jobs) n = n ∷ spawn_all jobs (suc n)

-- `JoinHandle::abort` of each handle.
abbrev pub abort_all : List ℕ → List ℕ → List ℕ
abort_all handles running = keep (λ t. not (mem t handles)) running

-- Whether `prepare` succeeds; the error of a poisoned lock aborts what was spawned.
unfoldable pub prepare : Scheduler → Scheduler × Bool
prepare s =
    let new_handles = spawn_all s.jobs s.next_task in
    let next = s.next_task + length s.jobs in
    let spawned = s.running ++ new_handles in
    elim s.poisoned [
      | true ↦ (record s { running = abort_all new_handles spawned; next_task = next }, false)
      | false ↦ (
        record s { handles = s.handles ++ new_handles; running = spawned; next_task = next },
        true,
      )
    ]

-- A poisoned lock is only logged, and then no task is aborted.
unfoldable pub shutdown : Scheduler → Scheduler
shutdown s = elim s.poisoned [
  | true ↦ s
  | false ↦ record s { handles = []; running = abort_all s.handles s.running }
]

-- The loop of one job, between its awaits.
pub data JobPhase : Type 0 where
  first_tick next_tick task_running : JobPhase

pub record JobLoop : Type 0 where
  pub phase : JobPhase
  pub runs : ℕ
  pub warnings : ℕ

pub data JobEvent : Type 0 where
  tick task_ok task_error : JobEvent

abbrev pub start_job : JobLoop
start_job = record { phase = first_tick; runs = 0; warnings = 0 }

-- `none` for an event that the loop does not wait for.
unfoldable pub job_step : JobEvent → JobPhase → JobLoop → Option JobLoop
job_step tick first_tick j = some (record j { phase = next_tick })
job_step tick next_tick j = some (record j { phase = task_running; runs = suc j.runs })
job_step tick task_running j = none
job_step task_ok task_running j = some (record j { phase = next_tick })
job_step task_ok _ j = none
job_step task_error task_running j =
    some (record j { phase = next_tick; warnings = suc j.warnings })
job_step task_error _ j = none

unfoldable pub run_job_loop : List JobEvent → JobLoop → Option JobLoop
unfolding job_step
run_job_loop [] j = some j
run_job_loop (e ∷ es) j = elim (job_step e j.phase j) [ none ↦ none | some k ↦ run_job_loop es k ]
