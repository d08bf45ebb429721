-- ===== src/Engine/Scheduler/Progress.antt =====
-- No run is forgotten by the scheduler of backend/saz/engine/scheduler.py, and none has two workers.
use saz.Prelude.{
  ℕ, suc, zero, ◌+◌, ◌≤◌, ◌<◌, ◌≡◌, refl, Bool, true, false, Option, none, some, List, [], ◌∷◌,
  if◌then◌else◌, arith, Option-cases, inl, inr, sym, ap, ◌∙◌, ◌&&◌, ◌*◌, length, all, ◌⊎◌,
}
use mathlib.Core.Path.{subst}
use mathlib.Core.Option.{some-injective}
use saz.Runs.{RunStatus}
use saz.Engine.Scheduler.{
  Scheduler, Action, requeue, time_out, call, begin, release, recheck, crash, abandon,
  recheck_fails, finish, is_queued, schedule, reschedule_if_requeued, step, after, steps, created,
}

abbrev pub is_running : RunStatus → Bool
is_running RunStatus.running = true
is_running _ = false

-- The id is held exactly while one worker has it; a worker behind `mark_running` has the run
-- running.
pub record IsSound (s : Scheduler) : Type 0 where
  pub counted : s.submitted + s.running + s.finished + s.fallen ≡ (if s.is_held then 1 else 0)
  pub marked : 0 < s.running → is_running s.status ≡ true

-- Nobody fell, and a queued run has somebody who is going to schedule it or to start it.
pub record IsRemembered (s : Scheduler) : Type 0 where
  pub unharmed : s.fallen ≡ 0
  pub remembered :
      is_queued s.status ≡ true → 0 < s.submitted + s.finished + s.rechecking + s.callers

-- Neither a fatal error nor a failed look at the run.
abbrev pub is_orderly : Action → Bool
is_orderly crash = false
is_orderly recheck_fails = false
is_orderly _ = true

step-IsSound : (a : Action) (s s' : Scheduler) → IsSound s → step a s ≡ some s' → IsSound s'
unfolding step
step-IsSound requeue s s' i h = ground arith
step-IsSound time_out s s' i h = ground arith
step-IsSound call s s' i h = ground arith
step-IsSound begin s s' i h = ground arith
step-IsSound release s s' i h = ground arith
step-IsSound recheck s s' i h = ground arith
step-IsSound crash s s' i h = ground (arith, i.counted, i.marked)
step-IsSound abandon s s' i h = ground arith
step-IsSound recheck_fails s s' i h = ground arith
step-IsSound (finish st) s s' i h = ground arith

step-IsRemembered :
    (a : Action) (s s' : Scheduler)
    → is_orderly a ≡ true
    → IsSound s
    → IsRemembered s
    → step a s ≡ some s'
    → IsRemembered s'
unfolding step
step-IsRemembered requeue s s' o i m h = ground arith
step-IsRemembered time_out s s' o i m h = ground arith
step-IsRemembered call s s' o i m h = ground arith
step-IsRemembered begin s s' o i m h = ground arith
step-IsRemembered release s s' o i m h = ground arith
step-IsRemembered recheck s s' o i m h = ground arith
step-IsRemembered abandon s s' o i m h = ground arith
step-IsRemembered crash s s' o i m h = cc
step-IsRemembered recheck_fails s s' o i m h = cc
step-IsRemembered (finish st) s s' o i m h = ground arith

steps-IsSound :
    (acts : List Action) (s s' : Scheduler) → IsSound s → steps acts s ≡ some s' → IsSound s'
unfolding steps
steps-IsSound [] s s' i h = subst IsSound (some-injective s s' h) i
steps-IsSound (a ∷ acts) s s' i h = elim (Option-cases (step a s)) [
  | inl e ↦ ground (arith, e, h)
  | inr (t, e) ↦
      steps-IsSound acts t s' (step-IsSound a s t i e) (sym (ap (λ r. after r (steps acts)) e) ∙ h)
]

steps-IsRemembered :
    (acts : List Action) (s s' : Scheduler)
    → all is_orderly acts ≡ true
    → IsSound s
    → IsRemembered s
    → steps acts s ≡ some s'
    → IsRemembered s'
unfolding steps
steps-IsRemembered [] s s' o i m h = subst IsRemembered (some-injective s s' h) m
steps-IsRemembered (a ∷ acts) s s' o i m h = elim (Option-cases (step a s)) [
  | inl e ↦ ground (arith, e, h)
  | inr (t, e) ↦
      steps-IsRemembered acts t s' (ground (arith, o)) (step-IsSound a s t i e)
        (step-IsRemembered a s t (ground (arith, o)) i m e)
        (sym (ap (λ r. after r (steps acts)) e) ∙ h)
]

created-IsSound : IsSound created
created-IsSound = record { counted = refl; marked = ground arith }

created-IsRemembered : IsRemembered created
created-IsRemembered = record { unharmed = refl; remembered = ground arith }

-- What the scheduler and the calls that are under way do by themselves.
abbrev pub is_own : Action → Bool
is_own call = true
is_own begin = true
is_own release = true
is_own recheck = true
is_own _ = false

abbrev pub all_own : List Action → Bool
all_own [] = true
all_own (a ∷ acts) = is_own a && all_own acts

abbrev pub work : Scheduler → ℕ
work s = s.submitted + 2 * s.callers + 3 * s.rechecking + 4 * s.finished

step_works :
    (a : Action) (s s' : Scheduler) → is_own a ≡ true → step a s ≡ some s' → suc (work s') ≤ work s
unfolding step schedule reschedule_if_requeued
step_works requeue s s' o h = ground arith
step_works time_out s s' o h = ground arith
step_works call s s' o h = ground arith
step_works begin s s' o h = ground arith
step_works release s s' o h = ground arith
step_works recheck s s' o h = ground arith
step_works crash s s' o h = cc
step_works abandon s s' o h = cc
step_works recheck_fails s s' o h = cc
step_works (finish st) s s' o h = ground arith

steps_work :
    (acts : List Action) (s s' : Scheduler)
    → all_own acts ≡ true
    → steps acts s ≡ some s'
    → work s' + length acts ≤ work s
unfolding steps
steps_work [] s s' o h = ground (arith, ap work (some-injective s s' h))
steps_work (a ∷ acts) s s' o h = elim (Option-cases (step a s)) [
  | inl e ↦ ground (arith, e, h)
  | inr (t, e) ↦
      let w = step_works a s t (ground (arith, o)) e in
      let ws =
        steps_work acts t s' (ground (arith, o)) (sym (ap (λ r. after r (steps acts)) e) ∙ h) in
      omega arith
]

-- The actions that lead a queued run to its execution.
abbrev pub path : ℕ → ℕ → ℕ → List Action
path (suc n) f c = begin ∷ []
path zero (suc f) c = release ∷ recheck ∷ call ∷ begin ∷ []
path zero zero (suc c) = call ∷ begin ∷ []
path zero zero zero = recheck ∷ call ∷ begin ∷ []

abbrev pub way : Scheduler → List Action
way s = path s.submitted s.finished s.callers

abbrev pub runs : Option Scheduler → Bool
runs none = false
runs (some s) = is_running s.status

way_lem :
    (s : Scheduler)
    → IsSound s
    → IsRemembered s
    → is_queued s.status ≡ true
    → runs (steps (way s) s) ≡ true
unfolding step steps schedule reschedule_if_requeued
way_lem s i m q = ground arith

own-is_orderly : (acts : List Action) → all_own acts ≡ true → all is_orderly acts ≡ true
own-is_orderly [] o = refl
own-is_orderly (a ∷ acts) o =
    ground (arith, o, one_orderly a, own-is_orderly acts (ground (arith, o)))
  where
    one_orderly : (a : Action) → is_own a ≡ true → is_orderly a ≡ true
    one_orderly call o = refl
    one_orderly begin o = refl
    one_orderly release o = refl
    one_orderly recheck o = refl
    one_orderly crash o = cc
    one_orderly recheck_fails o = cc
    one_orderly _ o = refl

way-all_own : (s : Scheduler) → all_own (way s) ≡ true
way-all_own s = ground arith

sound_worker :
    (s : Scheduler)
    → IsSound s
    → (s.submitted + s.running + s.finished + s.fallen ≤ 1)
      × ((s.running ≡ 0) ⊎ (is_running s.status ≡ true))
sound_worker s i = ground (arith, i.counted, i.marked)

-- While no thread meets a fatal error and no second look at the run fails, a queued run comes to its
-- execution. Let `s` be reached so from the creation of a run, and let the threads and the calls
-- under way lead from `s` to a state in which the run is queued: then they did at most `work s`
-- actions, and by actions of their own they can go on until a worker has marked the run as running.
pub queued_run_starts :
    (acts more : List Action) (s s' : Scheduler)
    → all is_orderly acts ≡ true
    → steps acts created ≡ some s
    → all_own more ≡ true
    → steps more s ≡ some s'
    → is_queued s'.status ≡ true
    → (length more ≤ work s) × (all_own (way s') ≡ true) × (runs (steps (way s') s') ≡ true)
queued_run_starts acts more s s' calm h o e q =
    let i = steps-IsSound acts created s created-IsSound h in
    let m = steps-IsRemembered acts created s calm created-IsSound created-IsRemembered h in
    (
      ground (arith, steps_work more s s' o e),
      way-all_own s',
      way_lem s' (steps-IsSound more s s' i e)
          (steps-IsRemembered more s s' (own-is_orderly more o) i m e) q,
    )

-- No two workers execute the run, fatal errors or not: in every state that can be reached from its
-- creation at most one worker is between its submission and its release of the id, and if one is behind `mark_running`
-- and before its last commit, the run is running.
pub one_worker :
    (acts : List Action) (s : Scheduler)
    → steps acts created ≡ some s
    → (s.submitted + s.running + s.finished + s.fallen ≤ 1)
      × ((s.running ≡ 0) ⊎ (is_running s.status ≡ true))
one_worker acts s h = sound_worker s (steps-IsSound acts created s created-IsSound h)
