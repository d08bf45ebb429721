-- ===== src/Runs/Claims/Race.antt =====
-- Several attempts at one suspended run, in backend/saz/engine/suspension_sweeper.py and
-- backend/saz/api/routes/webhooks.py.
use saz.Prelude.{String, ◌≡◌, refl, ap, ◌∙◌, ◌⊎◌, inl, inr, false, List, [], ◌∷◌, string_eq}
use mathlib.Core.List.{Memᴰ}
use saz.Runs.{Db, run_entity}
use saz.Runs.Claims.{Attempt, attempt, attempt_all, AllAbout, is_suspended_in}
use saz.Runs.Claims.Late.{attempt-late}
use saz.Runs.Claims.Settling.{attempt-Settles}

attempt_all-late :
    (j : String) (rest : List Attempt) (db : Db)
    → AllAbout j rest
    → is_suspended_in j db ≡ false
    → attempt_all rest db ≡ db
unfolding attempt_all
attempt_all-late j [] db about h = refl
attempt_all-late j (a ∷ rest) db about h =
    ap (attempt_all rest) (attempt-late j a db about.0 h) ∙ attempt_all-late j rest db about.1 h

-- Whatever timeouts, resumes, rejections and callbacks for one run arrive in whatever order, each
-- with reads that may be out of date: the database they leave is the one they found, or the one
-- that a single one of them makes of it, and then the run is no longer suspended. All the others
-- write nothing: no status, no step, no audit event.
pub race_has_one_winner :
    (j : String) (attempts : List Attempt) (db : Db)
    → AllAbout j attempts
    → (attempt_all attempts db ≡ db)
      ⊎ ((a : Attempt) × Memᴰ a attempts
          × (attempt_all attempts db ≡ attempt a db)
          × (is_suspended_in j (attempt a db) ≡ false))
unfolding attempt_all
race_has_one_winner j [] db about = inl refl
race_has_one_winner j (a ∷ rest) db about = elim (attempt-Settles j a db about.0) [
  | inr won ↦ inr (a, Memᴰ.head refl, attempt_all-late j rest (attempt a db) about.1 won, won)
  | inl same ↦ elim (race_has_one_winner j rest db about.1) [
    | inl none_won ↦ inl (ap (attempt_all rest) same ∙ none_won)
    | inr (b, at, eq, won) ↦ inr (b, Memᴰ.tail at, ap (attempt_all rest) same ∙ eq, won)
  ]
]
