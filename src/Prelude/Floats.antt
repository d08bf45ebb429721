-- ===== src/Prelude/Floats.antt =====
-- Python's `float`, which is no code of the repository: a type with the operations that the source
-- applies, and the laws of IEEE arithmetic that it relies on.
use saz.Prelude.Tests.{leb, ltb}
use saz.Prelude.Int.{ℤ, pos_part, ◌≤ℤ◌}
use Prim.Native.Nat.{ℕ, ◌+◌, ◌-◌, ◌*◌, ◌/◌}
use mathlib.Core.Path.{◌≡◌, refl}
use mathlib.Core.Bool.{Bool, true}
use native.Mathlib.Omega.{arith}

pub record Floats : Type 1 where
  pub Float : Type 0
  pub zero : Float
  pub add : Float → Float → Float
  pub sub : Float → Float → Float
  pub mul : Float → Float → Float
  pub div : Float → Float → Float
  pub of_int : ℤ → Float
  -- `timedelta.total_seconds()` of a number of microseconds
  pub seconds : ℤ → Float
  -- `a < b` and `a <= b`
  pub lt : Float → Float → Bool
  pub le : Float → Float → Bool
  pub zero_nonneg : le zero zero ≡ true
  pub le_of_lt : (a b : Float) → lt a b ≡ true → le a b ≡ true
  -- Adding what is not negative to what is not negative loses nothing.
  pub add_grows :
      (m a b : Float) → le zero a ≡ true → le zero b ≡ true → le m a ≡ true → le m (add a b) ≡ true
  pub seconds_mono :
      (m : Float) (a b : ℤ) → a ≤ℤ b → le m (seconds a) ≡ true → le m (seconds b) ≡ true

-- Whole millionths, which satisfy the laws.
pub millionths_grow :
    (m a b : ℕ) → leb 0 a ≡ true → leb 0 b ≡ true → leb m a ≡ true → leb m (a + b) ≡ true
millionths_grow m a b ha hb h = ground arith

pub millionths_le : (a b : ℕ) → ltb a b ≡ true → leb a b ≡ true
millionths_le a b h = ground arith

pub millionths_mono :
    (m : ℕ) (a b : ℤ) → a ≤ℤ b → leb m (pos_part a) ≡ true → leb m (pos_part b) ≡ true
millionths_mono m a b h k = ground arith

abbrev pub millionths : Floats
millionths = record {
  Float = ℕ;
  zero = 0;
  add = ◌+◌;
  sub = ◌-◌;
  mul = λ a b. a * b / 1000000;
  div = λ a b. a * 1000000 / b;
  of_int = λ n. pos_part n * 1000000;
  seconds = λ n. pos_part n;
  lt = ltb;
  le = leb;
  zero_nonneg = refl;
  le_of_lt = millionths_le;
  add_grows = millionths_grow;
  seconds_mono = millionths_mono;
}
