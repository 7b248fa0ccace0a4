-- ===== src/Base/Millionths.antt =====
-- A `double` that can be computed with: whole millionths, rounded towards zero. It meets the laws
-- of `IsOrdered`, and the examples of the development run on it.
use Prim.Native.Nat.{ℕ, suc, ◌+◌, ◌*◌, ◌/◌, ◌≤◌}
use mathlib.Core.Path.{◌≡◌}
use mathlib.Core.Bool.{true}
use mathlib.Core.Option.{none, some}
use native.Mathlib.Omega.{arith}
use native.Mathlib.Nat.{div-le_of_le-mul}
use bigpipe_cpp.Base.Tests.{if◌then◌else◌}
use bigpipe_cpp.Base.Int.{ℤ, pos, negsuc, pos_part, neg_part, sub_ℕ, ◌≤ℤ◌, ltb_ℤ, leb_ℤ, is_int}
use bigpipe_cpp.Base.Doubles.{Double, IsOrdered}

abbrev million : ℕ
million = 1000000

abbrev times : ℤ → ℕ → ℤ
times (pos n) u = pos (n * u)
times (negsuc n) u = sub_ℕ 0 (suc n * u)

abbrev over : ℤ → ℕ → ℤ
over (pos n) u = pos (n / u)
over (negsuc n) u = sub_ℕ 0 (suc n / u)

abbrev negate : ℤ → ℤ
negate a = sub_ℕ (neg_part a) (pos_part a)

abbrev signed : ℤ → ℤ → ℤ
signed (pos _) b = b
signed (negsuc _) b = negate b

abbrev magnitude : ℤ → ℕ
magnitude a = pos_part a + neg_part a

instance abbrev pub millionths : Double ℤ
millionths = record {
  of_int = λ a. times a million;
  to_int = λ x. let n = over x million in if is_int n then some n else none;
  add = λ a b. sub_ℕ (pos_part a + pos_part b) (neg_part a + neg_part b);
  sub = λ a b. sub_ℕ (pos_part a + neg_part b) (neg_part a + pos_part b);
  mul = λ x y. signed y (over (times x (magnitude y)) million);
  div = λ x y. signed y (over (times x million) (magnitude y));
  abs = λ x. pos (magnitude x);
  lt = ltb_ℤ;
  le = leb_ℤ;
}

times_mono : (a b : ℤ) → a ≤ℤ b → leb_ℤ (times a million) (times b million) ≡ true
times_mono a b h = ground arith

-- a / b, of two counts in millionths, is at most one.
div-le-million : (a b : ℕ) → a ≤ b → a * million * million / (b * million + 0) ≤ million
div-le-million a b h = div-le_of_le-mul (b * million + 0) (omega arith)

pub millionths-IsOrdered : IsOrdered ℤ
millionths-IsOrdered = record {
  le_trans = λ x y z h k. ground arith;
  lt-eq-not-le = λ x y h k. ground arith;
  le_total = λ x y h k. ground arith;
  of_int_mono = times_mono;
  ratio_bounds = λ a b h p. ground (arith, div-le-million a b h);
}
