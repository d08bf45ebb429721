-- ===== src/Prelude/Json.antt =====
-- JSON values and Python's `dict` with string keys where its entries are read, written and passed on.
use Prim.Native.String.{String, ◌++◌}
use Prim.Native.Nat.{ℕ, zero}
use mathlib.Core.Path.{◌≡◌, refl}
use mathlib.Core.Bool.{Bool, true, false, not}
use mathlib.Core.Option.{Option, none, some}
use mathlib.Core.List.{List, [] as nil_list, ◌∷◌}
use native.Mathlib.Omega.{arith}
use text.Mathlib.TextEquality.{eq_iff}
use saz.Prelude.Tests.{◌==◌, string_eq, if◌then◌else◌}
use saz.Prelude.Int.{ℤ, pos}

-- `num n k` is the decimal n / 10 ^ k. `time t` is the ISO-8601 text of an instant in UTC, kept by
-- its microseconds: those texts are zero-padded, so their order is that of the instants.
mutual
  pub data Value : Type 0 where
    null : Value
    bool : Bool → Value
    str : String → Value
    num : ℤ → ℕ → Value
    time : ℕ → Value
    obj : Fields → Value
    arr : Items → Value

  pub data Fields : Type 0 where
    end : Fields
    field : String → Value → Fields → Fields

  pub data Items : Type 0 where
    no_item : Items
    item : Value → Items → Items

-- `d.get(k)`, where a missing key is told from a null
abbrev pub lookup : String → Fields → Option Value
lookup k end = none
lookup k (field j v fs) = if j == k then some v else lookup k fs

-- `d[k] = v`
abbrev pub assign : String → Value → Fields → Fields
assign k v end = field k v end
assign k v (field j w fs) = if j == k then field j v fs else field j w (assign k v fs)

-- `{**a, **b}`
abbrev pub merge : Fields → Fields → Fields
merge a end = a
merge a (field k v fs) = merge (assign k v a) fs

-- `bool(v)`
abbrev pub truthy : Value → Bool
truthy null = false
truthy (bool b) = b
truthy (num (pos zero) k) = false
truthy (num n k) = true
truthy (str s) = not (s == "")
truthy (time t) = true
truthy (arr no_item) = false
truthy (arr (item x xs)) = true
truthy (obj end) = false
truthy (obj (field k v fs)) = true

-- `bool(d.get(k))`
abbrev pub truthy_at : String → Fields → Bool
truthy_at k fs = elim (lookup k fs) [ none ↦ false | some v ↦ truthy v ]

-- `v == s` for a text `s`
abbrev pub is_text : String → Option Value → Bool
is_text s (some (str t)) = t == s
is_text s _ = false

-- `d or {}`
abbrev pub or_end : Option Fields → Fields
or_end none = end
or_end (some fs) = fs

-- The pieces of an f-string, joined.
abbrev pub concat : List String → String
concat nil_list = ""
concat (s ∷ ss) = s ++ concat ss

pub lookup-assign :
    (k j : String) (v : Value) (fs : Fields)
    → lookup j (assign k v fs) ≡ (if k == j then some v else lookup j fs)
lookup-assign k j v end = refl
lookup-assign k j v (field i w fs) =
    ground (arith, eq_iff k j, eq_iff i k, eq_iff i j, lookup-assign k j v fs)

-- A key that has the value already.
pub assign-same : (k : String) (v : Value) (fs : Fields) → lookup k fs ≡ some v → assign k v fs ≡ fs
assign-same k v end h = cc
assign-same k v (field j w fs) h = ground (arith, eq_iff j k, h, assign-same k v fs)
