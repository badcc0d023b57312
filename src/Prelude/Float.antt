-- ===== src/Prelude/Float.antt =====
-- `double`: antt has no floats, so the type and the operations that the sources use are a
-- parameter. The laws of the order that the sources rely on are a record of their own.
use Prim.Native.Nat.{ℕ, ◌≤◌}
use mathlib.Core.Path.{◌≡◌}
use mathlib.Core.Bool.{Bool, true, false}

pub record Float : Type 1 where
  pub Double : Type 0
  pub lt : Double → Double → Bool
  pub le : Double → Double → Bool
  pub add : Double → Double → Double
  pub mul : Double → Double → Double
  pub div : Double → Double → Double
  pub of_nat : ℕ → Double  -- (double)n
  pub milli : ℕ → Double  -- the literal n / 1000
  pub truncate : Double → ℕ  -- (uint64_t)x
  pub ceil : Double → Double
  pub to_float : Double → Double  -- (float)x, as a double again

-- What `<` and `<=` of IEEE 754 give: `x <= x` fails just where `x` is not a number, and then `x < y`
-- and `y < x` fail as well; between numbers `<` is the opposite of `>=`; and the decimal literals are
-- numbers and stand in the order of those that they write.
pub record FloatOrder (f : Float) : Type 0 where
  pub lt_irrefl : (x : f.Double) → f.lt x x ≡ false
  pub milli_mono : (a b : ℕ) → a ≤ b → f.lt (f.milli b) (f.milli a) ≡ false
  pub milli_number : (a : ℕ) → f.le (f.milli a) (f.milli a) ≡ true
  pub lt_nan : (x y : f.Double) → f.le x x ≡ false → f.lt x y ≡ false
  pub nan_lt : (x y : f.Double) → f.le x x ≡ false → f.lt y x ≡ false
  pub not_lt :
      (x y : f.Double) → f.le x x ≡ true → f.le y y ≡ true → f.lt x y ≡ false → f.le y x ≡ true
  pub le_not_lt : (x y : f.Double) → f.le x y ≡ true → f.lt y x ≡ false
