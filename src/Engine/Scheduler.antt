-- ===== src/Engine/Scheduler.antt =====
-- `RunScheduler` of backend/saz/engine/scheduler.py for one run: the set of running ids under its
-- lock, the worker threads, and the requests that set the run to `queued` and then schedule it. A
-- step of the model is what one thread does between two points at which others may come in. The
-- shutdown of the server is left out.
pub mod Progress
mod Tests
use saz.Prelude.{
  ℕ, suc, zero, ◌+◌, Bool, true, false, ◌||◌, Option, none, some, List, [], ◌∷◌, if◌then◌else◌,
}
use saz.Runs.{RunStatus, is_suspended, is_failed}
use saz.Engine.Settled.{is_settled}

-- `is_held`: the id is in `_running_runs`. The workers, by how far they are: handed to the pool,
-- behind `mark_running`, behind their last commit, and behind a fatal error. Behind their release of
-- the id they look at the run once more, but for those with a fatal error. A caller has committed `queued` and is about to call `schedule`.
pub record Scheduler : Type 0 where
  pub status : RunStatus
  pub is_held : Bool
  pub submitted : ℕ
  pub running : ℕ
  pub finished : ℕ
  pub fallen : ℕ
  pub rechecking : ℕ
  pub callers : ℕ

pub data Action : Type 0 where
  requeue time_out call begin release recheck crash abandon recheck_fails : Action
  finish : RunStatus → Action

abbrev pub is_queued : RunStatus → Bool
is_queued RunStatus.queued = true
is_queued _ = false

-- `schedule`, under the lock
unfoldable pub schedule : Scheduler → Scheduler
schedule s = if s.is_held then s else record s { is_held = true; submitted = suc s.submitted }

-- `_reschedule_if_requeued`: its thread has read the status and, for a queued run, is about to
-- call `schedule`, like another caller.
unfoldable pub reschedule_if_requeued : Scheduler → Scheduler
reschedule_if_requeued s = if is_queued s.status then record s { callers = suc s.callers } else s

abbrev pub when : Bool → Scheduler → Option Scheduler
when true s = some s
when false s = none

abbrev pub take_one : ℕ → (ℕ → Scheduler) → Option Scheduler
take_one zero f = none
take_one (suc n) f = some (f n)

-- `fatal` is set, wherever the worker is: what it did not commit is lost.
abbrev pub crashed : ℕ → ℕ → ℕ → Scheduler → Option Scheduler
crashed (suc n) r f s = some (record s { submitted = n; fallen = suc s.fallen })
crashed zero (suc r) f s = some (record s { running = r; fallen = suc s.fallen })
crashed zero zero (suc f) s = some (record s { finished = f; fallen = suc s.fallen })
crashed zero zero zero s = none

-- A resume, an approval or a retry queues a run that waits or has failed; a timeout fails one that
-- waits. `execute_run` marks the run as running whatever its status, and leaves it settled.
unfoldable pub step : Action → Scheduler → Option Scheduler
unfolding schedule reschedule_if_requeued
step requeue s =
    when (is_suspended s.status || is_failed s.status)
      (record s { status = RunStatus.queued; callers = suc s.callers })
step time_out s = when (is_suspended s.status) (record s { status = RunStatus.failed })
step call s = take_one s.callers λ n. schedule (record s { callers = n })
step begin s =
    take_one s.submitted
      λ n. record s { submitted = n; running = suc s.running; status = RunStatus.running }
step (finish st) s =
    if is_settled st
    then (take_one s.running λ n. record s { running = n; finished = suc s.finished; status = st })
    else none
step release s =
    take_one s.finished
      λ n. record s { finished = n; rechecking = suc s.rechecking; is_held = false }
step crash s = crashed s.submitted s.running s.finished s
step abandon s = take_one s.fallen λ n. record s { fallen = n; is_held = false }
step recheck_fails s = take_one s.rechecking λ n. record s { rechecking = n }
step recheck s = take_one s.rechecking λ n. reschedule_if_requeued (record s { rechecking = n })

abbrev pub after : Option Scheduler → (Scheduler → Option Scheduler) → Option Scheduler
after none f = none
after (some s) f = f s

unfoldable pub steps : List Action → Scheduler → Option Scheduler
steps [] s = some s
steps (a ∷ acts) s = after (step a s) (steps acts)

-- A run that was just created and whose creator is about to schedule it.
abbrev pub created : Scheduler
created = record {
  status = RunStatus.queued;
  is_held = false;
  submitted = 0;
  running = 0;
  finished = 0;
  fallen = 0;
  rechecking = 0;
  callers = 1;
}
