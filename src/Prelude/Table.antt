-- ===== src/Prelude/Table.antt =====
-- A database table with a primary key: rows in the order of their insertion, read and updated by
-- the key. Each table of the models is an instance.
use Prim.Native.String.{String}
use mathlib.Core.Path.{◌≡◌}
use mathlib.Core.Bool.{Bool}
use mathlib.Core.Option
use mathlib.Core.Option.{Option, none, some}
use mathlib.Core.List.{List, [], ◌∷◌}
use native.Mathlib.Omega.{arith}
use text.Mathlib.TextEquality.{eq_iff}
use saz.Prelude.Tests.{◌==◌, string_eq, if◌then◌else◌}

pub record Entity {ℓ} (A : Type ℓ) : Type ℓ where
  pub key : A → String

module _ {ℓ} {A : Type ℓ} ⦃e : Entity A⦄ where
  -- `session.get(Model, k)`
  abbrev pub get : String → List A → Option A
  get k [] = none
  get k (a ∷ as') = if e.key a == k then some a else get k as'

  -- Attribute writes on the row of the key `k`, or an `UPDATE ... WHERE id = k`.
  abbrev pub modify : String → (A → A) → List A → List A
  modify k f [] = []
  modify k f (a ∷ as') = (if e.key a == k then f a else a) ∷ modify k f as'

  -- The first row that passes a test.
  abbrev pub first : (A → Bool) → List A → Option A
  first p [] = none
  first p (a ∷ as') = if p a then some a else first p as'

  pub get-modify :
      (k j : String) (f : A → A)
      → ((a : A) → e.key (f a) ≡ e.key a)
      → (rows : List A)
      → get j (modify k f rows) ≡ (if k == j then Option.map f (get j rows) else get j rows)
  get-modify k j f keeps [] = ground arith
  get-modify k j f keeps (a ∷ rows) = ground (
    arith,
    keeps a,
    eq_iff (e.key a) k,
    eq_iff (e.key a) j,
    eq_iff k j,
    get-modify k j f keeps rows,
  )

module _ {ℓ} {A : Type ℓ} ⦃e : Entity A⦄ where
  pub get-key : (k : String) (rows : List A) (a : A) → get k rows ≡ some a → e.key a ≡ k
  get-key k [] a h = cc
  get-key k (b ∷ rows) a h = ground (arith, eq_iff (e.key b) k, get-key k rows a)
