-- ===== src/Base/Doubles.antt =====
-- `double` as an interface: the operations that the source applies to it, and the laws of IEEE
-- arithmetic that the proofs rest on.
use Prim.Native.Nat.{ℕ, ◌≤◌, ◌<◌}
use mathlib.Core.Path.{◌≡◌}
use mathlib.Core.Logic.{◌⊎◌}
use mathlib.Core.Bool.{Bool, true, not}
use mathlib.Core.Option.{Option}
use bigpipe_cpp.Base.Int.{ℤ, pos, ◌≤ℤ◌}

pub record Double (W : Type 0) : Type 0 where
  pub of_int : ℤ → W  -- a conversion from int or long
  pub to_int : W → Option ℤ  -- int(x); `none` where the result is no int
  pub add : W → W → W
  pub sub : W → W → W
  pub mul : W → W → W
  pub div : W → W → W
  pub abs : W → W
  pub lt : W → W → Bool
  pub le : W → W → Bool

-- NaN is the value that is not `<=` itself.
abbrev pub IsNumber : {W : Type 0} ⦃d : Double W⦄ → W → Type 0
IsNumber ⦃d⦄ x = d.le x x ≡ true

pub record IsOrdered (W : Type 0) ⦃d : Double W⦄ : Type 0 where
  pub le_trans : (x y z : W) → d.le x y ≡ true → d.le y z ≡ true → d.le x z ≡ true
  pub lt-eq-not-le : (x y : W) → d.le x x ≡ true → d.le y y ≡ true → d.lt x y ≡ not (d.le y x)
  pub le_total :
      (x y : W) → d.le x x ≡ true → d.le y y ≡ true → (d.le x y ≡ true) ⊎ (d.le y x ≡ true)
  -- Conversion from an integer is monotone, and gives a number.
  pub of_int_mono : (a b : ℤ) → a ≤ℤ b → d.le (d.of_int a) (d.of_int b) ≡ true
  -- The quotient of two counts, the first no larger, lies between 0 and 1.
  pub ratio_bounds :
      (a b : ℕ)
      → a ≤ b
      → 0 < b
      → (d.le (d.of_int (pos 0)) (d.div (d.of_int (pos a)) (d.of_int (pos b))) ≡ true)
        × (d.le (d.div (d.of_int (pos a)) (d.of_int (pos b))) (d.of_int (pos 1)) ≡ true)
