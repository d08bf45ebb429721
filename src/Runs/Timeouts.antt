-- ===== src/Runs/Timeouts.antt =====
-- The steps of a run that the sweeper of backend/saz/engine/suspension_sweeper.py has timed out.
use saz.Prelude.{
  ℕ, String, ◌≡◌, refl, Bool, true, false, not, ◌&&◌, none, some, List, [], ◌∷◌, keep, any, ◌==◌,
  string_eq, arith, Option-cases, inl, inr, eq_iff,
}
use saz.Prelude.Table.{modify}
use saz.Runs.{Run, Step, Db, run_entity, step_entity, is_suspended_step}
use saz.Runs.StepRepository.{least, earlier, get_first_suspended_for_run}
use saz.Runs.Sweeper.{fail_one, fail_step}
use saz.Runs.Claims.{is_suspended_in}

abbrev pub waits : String → Step → Bool
waits run_id t = t.run_id == run_id && is_suspended_step t.status

-- Some suspended step of the run has another id.
abbrev pub others_wait : String → String → List Step → Bool
others_wait run_id id rows = any (λ t. waits run_id t && not (t.id == id)) rows

module _ (p : Step → Bool) where
  least-none :
      (before : Step → Step → Bool) (rows : List Step)
      → least before (keep p rows) ≡ none
      → any p rows ≡ false
  least-none before [] h = refl
  least-none before (t ∷ rows) h = ground (arith, least-none before rows)

  least-some :
      (before : Step → Step → Bool) (id : String) (rows : List Step) (s : Step)
      → any (λ t. p t && not (t.id == id)) rows ≡ false
      → least before (keep p rows) ≡ some s
      → s.id ≡ id
  least-some before id [] s h e = cc
  least-some before id (t ∷ rows) s h e =
      ground (arith, eq_iff t.id id, eq_iff s.id id, least-some before id rows s)

  any-modify :
      (id : String) (f : Step → Step) (rows : List Step)
      → ((t : Step) → p (f t) ≡ false)
      → any (λ t. p t && not (t.id == id)) rows ≡ false
      → any p (modify id f rows) ≡ false
  any-modify id f [] hf h = refl
  any-modify id f (t ∷ rows) hf h = ground (arith, hf t, any-modify id f rows hf)

fail_step-waits :
    (run_id id : String) (rows : List Step)
    → others_wait run_id id rows ≡ false
    → any (waits run_id) (fail_step (get_first_suspended_for_run run_id rows) rows) ≡ false
unfolding get_first_suspended_for_run
fail_step-waits run_id id rows h = elim (Option-cases (least earlier (keep (waits run_id) rows))) [
  | inl e ↦ rw e (least-none (waits run_id) earlier rows e)
  | inr (s, e) ↦
      rw (e, least-some (waits run_id) earlier id rows s h e)
        (any-modify (waits run_id) id _ rows (λ t. ground arith) h)
]

-- A run whose suspended steps all have one id, and which the sweeper finds suspended: after its
-- timeout no step of the run is suspended.
pub timeout_ends_wait :
    (now : ℕ) (seen : Run) (db : Db) (id : String)
    → is_suspended_in seen.id db ≡ true
    → others_wait seen.id id db.steps ≡ false
    → any (waits seen.id) (fail_one now seen db).steps ≡ false
unfolding fail_one
timeout_ends_wait now seen db id h o = ground (arith, fail_step-waits seen.id id db.steps o)
