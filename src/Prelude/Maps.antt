-- ===== src/Prelude/Maps.antt =====
-- Python's `dict` with string keys, as a function: the modelled code never iterates over one
-- of these.
use Prim.Native.String.{String}
use mathlib.Core.Bool.{Bool, true, false}
use mathlib.Core.Option.{Option, none, some}
use saz.Prelude.Tests.{◌==◌, string_eq, if◌then◌else◌}

abbrev pub Map {ℓ} : Type ℓ → Type ℓ
Map V = String → Option V

module _ {ℓ} {V : Type ℓ} where
  abbrev pub empty : Map V
  empty j = none

  -- `m[k] = v`
  abbrev pub insert : String → V → Map V → Map V
  insert k v m j = if k == j then some v else m j

  -- `del m[k]`
  abbrev pub erase : String → Map V → Map V
  erase k m j = if k == j then none else m j

  -- `m.get(k, d)`
  abbrev pub get_or : Map V → String → V → V
  get_or m k d = elim (m k) [ none ↦ d | some v ↦ v ]

  -- `k in m`
  abbrev pub has : Map V → String → Bool
  has m k = elim (m k) [ none ↦ false | some v ↦ true ]
