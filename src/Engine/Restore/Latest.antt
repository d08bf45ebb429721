-- ===== src/Engine/Restore/Latest.antt =====
-- Which steps the context of backend/saz/engine/executor.py has as completed after it is restored.
use saz.Prelude.{
  String, ◌≡◌, refl, ap, ◌∙◌, Bool, false, ◌&&◌, ◌||◌, Option, none, some, List, [], ◌∷◌, keep, any,
  contains, contains-append, ltb, ◌==◌, string_eq, if◌then◌else◌, arith, eq_iff,
}
use saz.Runs.{Step}
use saz.Runs.StepRepository.{least}
use saz.Engine.{Context}
use saz.Engine.Restore.{put_latest, latest_by_name, is_restorable, restore, restore_step}

abbrev pub is_named : String → Step → Bool
is_named name t = t.name == name

abbrev pub later : Step → Step → Bool
later t u = ltb u.attempt t.attempt

-- The row of a name with the highest attempt, the first of equal ones.
abbrev pub latest_row : String → List Step → Option Step
latest_row name rows = least later (keep (is_named name) rows)

abbrev pub is_restorable_found : Option Step → Bool
is_restorable_found none = false
is_restorable_found (some t) = is_restorable t

abbrev better : Option Step → Option Step → Option Step
better none o = o
better (some t) none = some t
better (some t) (some u) = some (if later u t then u else t)

abbrev to_list : Option Step → List Step
to_list none = []
to_list (some t) = t ∷ []

abbrev offer : String → Option Step → Step → Option Step
offer name o s = if is_named name s then better o (some s) else o

keep-put_latest :
    (name : String) (s : Step) (acc : List Step) (o : Option Step)
    → keep (is_named name) acc ≡ to_list o
    → keep (is_named name) (put_latest s acc) ≡ to_list (offer name o s)
keep-put_latest name s [] none h = ground arith
keep-put_latest name s [] (some t) h = cc
keep-put_latest name s (t ∷ acc) none h = ground (
  arith,
  eq_iff t.name s.name,
  eq_iff t.name name,
  eq_iff s.name name,
  keep-put_latest name s acc none,
)
keep-put_latest name s (t ∷ acc) (some u) h = ground (
  arith,
  eq_iff t.name s.name,
  eq_iff t.name name,
  eq_iff s.name name,
  keep-put_latest name s acc (some u),
  keep-put_latest name s acc none,
)

better-offer :
    (name : String) (o : Option Step) (s : Step) (rows : List Step)
    → better (offer name o s) (latest_row name rows) ≡ better o (latest_row name (s ∷ rows))
better-offer name none s rows = ground arith
better-offer name (some t) s rows = ground arith

keep-latest_by_name :
    (name : String) (rows acc : List Step) (o : Option Step)
    → keep (is_named name) acc ≡ to_list o
    → keep (is_named name) (latest_by_name acc rows) ≡ to_list (better o (latest_row name rows))
unfolding latest_by_name
keep-latest_by_name name [] acc none h = h
keep-latest_by_name name [] acc (some t) h = h
keep-latest_by_name name (s ∷ rows) acc o h =
    keep-latest_by_name name rows (put_latest s acc) (offer name o s)
      (keep-put_latest name s acc o h)
    ∙ ap to_list (better-offer name o s rows)

any-keep :
    (name : String) (rows : List Step)
    → any (λ t. is_named name t && is_restorable t) rows
      ≡ any is_restorable (keep (is_named name) rows)
any-keep name [] = refl
any-keep name (t ∷ rows) = ground (arith, any-keep name rows)

any-to_list : (o : Option Step) → any is_restorable (to_list o) ≡ is_restorable_found o
any-to_list none = refl
any-to_list (some t) = ground arith

contains-restore_step :
    (name : String) (t : Step) (c : Context)
    → contains name (restore_step t c).completed_steps
      ≡ (contains name c.completed_steps || (is_named name t && is_restorable t))
contains-restore_step name t c = ground (arith, contains-append name c.completed_steps t.name)

contains-restore :
    (name : String) (rows : List Step) (c : Context)
    → contains name (restore rows c).completed_steps
      ≡ (contains name c.completed_steps || any (λ t. is_named name t && is_restorable t) rows)
unfolding restore
contains-restore name [] c = ground arith
contains-restore name (t ∷ rows) c =
    ground (arith, contains-restore name rows (restore_step t c), contains-restore_step name t c)

-- A step is completed after the restore if and only if it was before or its row with the highest
-- attempt is completed with an output that is not empty: earlier attempts count for nothing.
pub restore_reads_latest :
    (name : String) (rows : List Step) (c : Context)
    → contains name (restore (latest_by_name [] rows) c).completed_steps
      ≡ (contains name c.completed_steps || is_restorable_found (latest_row name rows))
restore_reads_latest name rows c =
    contains-restore name (latest_by_name [] rows) c
    ∙ ap (λ b. contains name c.completed_steps || b)
        (any-keep name (latest_by_name [] rows)
          ∙ ap (any is_restorable) (keep-latest_by_name name rows [] none refl)
          ∙ any-to_list (latest_row name rows))
