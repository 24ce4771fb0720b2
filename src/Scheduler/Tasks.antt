-- ===== src/Scheduler/Tasks.antt =====
-- Which tasks of rusty-gasket/src/jobs.rs run while the application lives and after its shutdown.
use rusty_gasket.Common.{
  ℕ, suc, ◌+◌, ◌≤◌, ◌<◌, ◌≡◌, refl, sym, ap, ◌∙◌, true, false, not, List, [], ◌∷◌, ◌++◌, length,
  length-append, mem, mem_of_All, arith, Bool-cases, inl, inr, All, All-of_mem,
}
use mathlib.Core.List.{append-nil}
use rusty_gasket.Common.Text.{Text}
use rusty_gasket.Common.Slices.{All-weaken, keep-append, keep_none, keep_whole}
use rusty_gasket.Scheduler.{
  ScheduledJob, Scheduler, new_scheduler, every, spawn_all, abort_all, prepare, shutdown,
}

-- The calls that an application makes of the plugin.
pub data SchedulerCall : Type 0 where
  registers : Text → ℕ → SchedulerCall
  prepares shuts_down : SchedulerCall

abbrev pub call : SchedulerCall → Scheduler → Scheduler
call (registers name interval) s = every name interval s
call prepares s = (prepare s).0
call shuts_down s = shutdown s

-- The last call first.
abbrev pub calls : List SchedulerCall → Scheduler
calls [] = new_scheduler
calls (c ∷ cs) = call c (calls cs)

-- The handles are those of the running tasks, and a new task has a new number.
record IsTracked (s : Scheduler) : Type 0 where
  healthy : s.poisoned ≡ false
  same : s.handles ≡ s.running

spawn_all-range : (jobs : List ScheduledJob) (n a : ℕ) → a ≤ n → All (λ t. a ≤ t) (spawn_all jobs n)
spawn_all-range [] n a h = tt
spawn_all-range (job ∷ jobs) n a h = (h, spawn_all-range jobs (suc n) a (omega (arith, h)))

length-spawn_all : (jobs : List ScheduledJob) (n : ℕ) → length (spawn_all jobs n) ≡ length jobs
length-spawn_all [] n = refl
length-spawn_all (job ∷ jobs) n = ap suc (length-spawn_all jobs (suc n))

abort_all-own : (xs : List ℕ) → abort_all xs xs ≡ []
abort_all-own xs =
    keep_none (λ t. not (mem t xs)) xs
      (All-of_mem (λ t. not (mem t xs) ≡ false) xs (λ t m. ap not m))

call-IsTracked : (c : SchedulerCall) (s : Scheduler) → IsTracked s → IsTracked (call c s)
unfolding prepare shutdown
call-IsTracked (registers name interval) s h = record { healthy = h.healthy; same = h.same }
call-IsTracked prepares s h =
    rw (h.healthy, prepare)
      (record { healthy = refl; same = ap (λ l. l ++ spawn_all s.jobs s.next_task) h.same })
call-IsTracked shuts_down s h =
    rw (h.healthy, shutdown)
      (record {
        healthy = h.healthy;
        same = sym (ap (λ l. abort_all l s.running) h.same ∙ abort_all-own s.running);
      })

calls-IsTracked : (cs : List SchedulerCall) → IsTracked (calls cs)
calls-IsTracked [] = record { healthy = refl; same = refl }
calls-IsTracked (c ∷ cs) = call-IsTracked c (calls cs) (calls-IsTracked cs)

shutdown-running : (s : Scheduler) → IsTracked s → (shutdown s).running ≡ []
unfolding shutdown
shutdown-running s h =
    rw (h.healthy, shutdown) (ap (λ l. abort_all l s.running) h.same ∙ abort_all-own s.running)

prepare-running :
    (s : Scheduler) → IsTracked s → length (prepare s).0.running ≡ length s.running + length s.jobs
unfolding prepare
prepare-running s h =
    rw (h.healthy, prepare)
      (length-append s.running (spawn_all s.jobs s.next_task)
        ∙ ap (λ n. length s.running + n) (length-spawn_all s.jobs s.next_task))

-- Whatever calls came before, `prepare` starts one task for each job, and after `shutdown` no task that
-- the plugin ever started is running and no handle is left.
pub calls-shutdown :
    (cs : List SchedulerCall)
    → let s = calls cs in
      (length (call prepares s).running ≡ length s.running + length s.jobs)
      × ((call shuts_down s).running ≡ [])
      × ((call shuts_down s).handles ≡ [])
calls-shutdown cs =
    let s = calls cs in
    let tracked = calls-IsTracked cs in
    let after = call-IsTracked shuts_down s tracked in
    (prepare-running s tracked, shutdown-running s tracked, after.same ∙ shutdown-running s tracked)

-- A `prepare` that finds the lock poisoned leaves no task of its own.
prepare-refused :
    (s : Scheduler)
    → s.poisoned ≡ true
    → All (λ t. t < s.next_task) s.running
    → (prepare s).0.running ≡ s.running
unfolding prepare
prepare-refused s bad old =
    let new = spawn_all s.jobs s.next_task in
    let above = spawn_all-range s.jobs s.next_task s.next_task (omega arith) in
    rw (bad, prepare)
      (keep-append (λ t. not (mem t new)) s.running new
        ∙ ap (λ l. l ++ abort_all new new)
            (keep_whole (λ t. not (mem t new)) s.running
              (All-weaken (λ t. t < s.next_task) (λ t. not (mem t new) ≡ true) s.running
                (λ t small. elim (Bool-cases (mem t new)) [
                  | inr absent ↦ ap not absent
                  | inl there ↦
                      let big = mem_of_All (λ u. s.next_task ≤ u) new t above there in
                      absurd (omega (arith, small, big))
                ])
                old))
        ∙ ap (λ l. s.running ++ l) (abort_all-own new)
        ∙ append-nil s.running)
