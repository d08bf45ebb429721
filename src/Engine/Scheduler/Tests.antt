-- ===== src/Engine/Scheduler/Tests.antt =====
-- A run that is suspended, resumed while its worker still holds the id, and started again.
use saz.Prelude.{◌≤◌, ◌≡◌, ◌⊎◌, refl, true, some, List, [], ◌∷◌}
use saz.Runs.{RunStatus}
use saz.Engine.Scheduler.{
  Scheduler, Action, requeue, call, begin, finish, crash, abandon, step, steps, created,
}
use saz.Engine.Scheduler.Progress.{
  is_running, all_own, work, way, runs, queued_run_starts, one_worker,
}

abbrev requeued : List Action
requeued = call ∷ begin ∷ finish RunStatus.suspended ∷ requeue ∷ []

abbrev refused : List Action
refused = call ∷ []

abbrev before_call : Scheduler
before_call = record {
  status = RunStatus.queued;
  is_held = true;
  submitted = 0;
  running = 0;
  finished = 1;
  fallen = 0;
  rechecking = 0;
  callers = 1;
}

-- The call of `schedule` was refused.
abbrev stranded : Scheduler
stranded = record before_call { callers = 0 }

queued_run_starts_example :
    (1 ≤ work before_call)
    × (all_own (way stranded) ≡ true)
    × (runs (steps (way stranded) stranded) ≡ true)
unfolding steps step
queued_run_starts_example =
    queued_run_starts requeued refused before_call stranded refl refl refl refl refl

-- A worker that falls before it marks the run as running leaves it queued, with nobody to start it.
fallen_worker : steps (call ∷ crash ∷ abandon ∷ []) created ≡ some (record created { callers = 0 })
unfolding steps step
fallen_worker = refl

one_worker_example : (1 ≤ 1) × ((before_call.running ≡ 0) ⊎ (is_running RunStatus.queued ≡ true))
unfolding steps step
one_worker_example = one_worker requeued before_call refl
