-- ===== src/Engine/Settled.antt =====
-- What backend/saz/engine/executor.py leaves when a run's execution returns: no row of a step that
-- is still running, and a run that is completed, failed or suspended.
pub mod Steps
pub mod Retries
pub mod Rounds
pub mod Execution
use saz.Prelude.{
  ℕ, suc, zero, ◌+◌, String, ◌≡◌, refl, sym, ap, ◌∙◌, ◌≢◌, Bool, true, false, not, ◌&&◌, ◌||◌,
  Option, none, some, List, [], ◌∷◌, ◌++◌, ◌==◌, string_eq, nat_eq, if◌then◌else◌, Result, ok, err,
  any, arith, text_refl, eq_iff, Option-cases, inl, inr,
}
use mathlib.Core.Option
use saz.Prelude.Int.{ℤ, pos, negsuc}
use saz.Prelude.Json.{Value, Fields}
use saz.Prelude.Table.{get, modify, get-modify}
use saz.Prelude.Floats.{Floats}
use saz.Runs.{Run, RunStatus, Step, StepStatus, Db, run_entity, step_entity}
use saz.Engine.{
  PlanStep, Failure, policy_violation, replan_required, run_suspended, structural, other,
  critique_failure, escalation_required, Context, State, Env,
}

abbrev pub is_running_status : StepStatus → Bool
is_running_status StepStatus.running = true
is_running_status _ = false

abbrev pub is_running : Step → Bool
is_running t = is_running_status t.status

abbrev pub any_running : List Step → Bool
any_running rows = any is_running rows

-- Some row but those of the id runs.
abbrev pub other_running : String → List Step → Bool
other_running id rows = any (λ t. is_running t && not (t.id == id)) rows

abbrev pub is_settled : RunStatus → Bool
is_settled RunStatus.queued = false
is_settled RunStatus.running = false
is_settled _ = true

abbrev pub is_settled_found : Option Run → Bool
is_settled_found none = true
is_settled_found (some r) = is_settled r.status

pub any_running-append :
    (rows : List Step) (t : Step)
    → any_running (rows ++ t ∷ []) ≡ (any_running rows || is_running t)
any_running-append [] t = ground arith
any_running-append (u ∷ rows) t = ground (arith, any_running-append rows t)

pub other_running-append :
    (id : String) (rows : List Step) (t : Step)
    → any_running rows ≡ false
    → t.id ≡ id
    → other_running id (rows ++ t ∷ []) ≡ false
other_running-append id [] t h e = ground (arith, eq_iff t.id id)
other_running-append id (u ∷ rows) t h e = ground (arith, other_running-append id rows t)

-- A status that is not `running` for the row of the id leaves none.
pub any_running-modify :
    (id : String) (f : Step → Step) (rows : List Step)
    → ((t : Step) → is_running (f t) ≡ false)
    → other_running id rows ≡ false
    → any_running (modify id f rows) ≡ false
any_running-modify id f [] hf h = refl
any_running-modify id f (t ∷ rows) hf h = ground (arith, hf t, any_running-modify id f rows hf)

pub other_running-modify :
    (id : String) (f : Step → Step) (rows : List Step)
    → ((t : Step) → (f t).id ≡ t.id)
    → other_running id rows ≡ false
    → other_running id (modify id f rows) ≡ false
other_running-modify id f [] hf h = refl
other_running-modify id f (t ∷ rows) hf h =
    ground (arith, hf t, eq_iff t.id id, other_running-modify id f rows hf)

pub other_running_weaken :
    (id : String) (rows : List Step) → any_running rows ≡ false → other_running id rows ≡ false
other_running_weaken id [] h = refl
other_running_weaken id (t ∷ rows) h = ground (arith, other_running_weaken id rows)

pub is_settled_found-modify :
    (id : String) (f : Run → Run) (rows : List Run)
    → ((r : Run) → (f r).id ≡ r.id)
    → ((r : Run) → is_settled (f r).status ≡ true)
    → is_settled_found (get id (modify id f rows)) ≡ true
is_settled_found-modify id f rows keeps settles = elim (Option-cases (get id rows)) [
  | inl e ↦ rw (get-modify id id f keeps rows, text_refl id, e) refl
  | inr (r, e) ↦ rw (get-modify id id f keeps rows, text_refl id, e) (settles r)
]
