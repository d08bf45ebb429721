-- ===== src/Accounts/Distinct.antt =====
-- The primary keys of the rows of backend/saz/db/models.py, and the number of active admins after a
-- change of one row.
use saz.Prelude.{
  ℕ, ◌+◌, ◌≤◌, String, ◌≡◌, refl, ◌∙◌, sym, ap, true, false, none, some, List, [], ◌∷◌, ◌++◌, ◌==◌,
  string_eq, if◌then◌else◌, arith, eq_iff, Bool-cases, inl, inr,
}
use saz.Prelude.Table.{Entity, get, modify, get-modify}
use mathlib.Core.Option.{some-injective}
use saz.Accounts.{UserRow, is_active_admin, count_active_admins, user_entity}

module _ {ℓ} {A : Type ℓ} ⦃e : Entity A⦄ where
  -- No two rows have the same key.
  abbrev pub IsDistinct : List A → Type ℓ
  IsDistinct [] = Unit
  IsDistinct (a ∷ rows) = (get (e.key a) rows ≡ none) × IsDistinct rows

  pub get-here :
      (k : String) (a u : A) (rows : List A)
      → (e.key a == k) ≡ true
      → get k (a ∷ rows) ≡ some u
      → a ≡ u
  get-here k a u rows h g = some-injective a u (sym (rw h refl) ∙ g)

  pub get-there :
      (k : String) (a : A) (rows : List A) → (e.key a == k) ≡ false → get k (a ∷ rows) ≡ get k rows
  get-there k a rows h = rw h refl

  absent :
      (k : String) (a : A) (rows : List A)
      → (e.key a == k) ≡ true
      → get (e.key a) rows ≡ none
      → get k rows ≡ none
  absent k a rows h g = ground (arith, eq_iff (e.key a) k, h, g)

  pub modify-absent :
      (k : String) (f : A → A) (rows : List A) → get k rows ≡ none → modify k f rows ≡ rows
  modify-absent k f [] h = refl
  modify-absent k f (a ∷ rows) h = ground (arith, h, modify-absent k f rows)

  pub modify-IsDistinct :
      (k : String) (f : A → A)
      → ((a : A) → e.key (f a) ≡ e.key a)
      → (rows : List A) → IsDistinct rows
      → IsDistinct (modify k f rows)
  modify-IsDistinct k f keeps [] d = d
  modify-IsDistinct k f keeps (a ∷ rows) d = (
    ground (arith, keeps a, get-modify k (e.key a) f keeps rows, d.0),
    modify-IsDistinct k f keeps rows d.1,
  )

  pub get-append-none :
      (k : String) (rows : List A) (b : A)
      → get k rows ≡ none
      → get k (rows ++ b ∷ []) ≡ get k (b ∷ [])
  get-append-none k [] b h = refl
  get-append-none k (a ∷ rows) b h = ground (arith, h, get-append-none k rows b)

  pub get-append-some :
      (k : String) (rows : List A) (a b : A) → get k rows ≡ some a → get k (rows ++ b ∷ []) ≡ some a
  get-append-some k [] a b h = ground arith
  get-append-some k (c ∷ rows) a b h = ground (arith, h, get-append-some k rows a b)

  pub append-IsDistinct :
      (rows : List A) (b : A)
      → IsDistinct rows
      → get (e.key b) rows ≡ none
      → IsDistinct (rows ++ b ∷ [])
  append-IsDistinct [] b d h = (refl, d)
  append-IsDistinct (a ∷ rows) b d h = (
    ground (
      arith,
      get-append-none (e.key a) rows b d.0,
      eq_iff (e.key a) (e.key b),
      eq_iff (e.key b) (e.key a),
      h,
    ),
    append-IsDistinct rows b d.1 (ground (arith, h)),
  )

abbrev pub weight : UserRow → ℕ
weight u = if is_active_admin u then 1 else 0

count-cons :
    (u : UserRow) (users : List UserRow)
    → count_active_admins (u ∷ users) ≡ weight u + count_active_admins users
unfolding count_active_admins
count-cons u users = ground arith

-- A change of the row of the key changes the count by what it makes of that row.
pub count-modify :
    (k : String) (f : UserRow → UserRow) (users : List UserRow) (u : UserRow)
    → IsDistinct users
    → get k users ≡ some u
    → count_active_admins (modify k f users) + weight u ≡ count_active_admins users + weight (f u)
count-modify k f [] u d h = ground arith
count-modify k f (a ∷ users) u d h = elim (Bool-cases (a.id == k)) [
  | inl e ↦
      let same = get-here k a u users e h in
      let rest = modify-absent k f users (absent k a users e d.0) in
      rw (e, rest)
        (omega (
          arith,
          count-cons (f a) users,
          count-cons a users,
          ap weight same,
          ap (λ x. weight (f x)) same,
        ))
  | inr e ↦
      let rest = count-modify k f users u d.1 (sym (get-there k a users e) ∙ h) in
      rw e (omega (arith, count-cons a users, count-cons a (modify k f users)))
]

-- A change that keeps a row's weight keeps the count.
pub count-modify-same :
    (k : String) (f : UserRow → UserRow) (users : List UserRow)
    → ((u : UserRow) → is_active_admin (f u) ≡ is_active_admin u)
    → count_active_admins (modify k f users) ≡ count_active_admins users
unfolding count_active_admins
count-modify-same k f [] h = refl
count-modify-same k f (a ∷ users) h = ground (arith, h a, count-modify-same k f users h)

pub count-append :
    (users : List UserRow) (u : UserRow)
    → count_active_admins users ≤ count_active_admins (users ++ u ∷ [])
unfolding count_active_admins
count-append [] u = ground arith
count-append (a ∷ users) u = ground (arith, count-append users u)
