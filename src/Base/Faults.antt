-- ===== src/Base/Faults.antt =====
-- How a call of the program ends: with a value, by an exception that reaches the caller, by a
-- failed `assert`, or in one of the faults that C++ leaves undefined.
use mathlib.Core.Path.{◌≡◌, refl}
use mathlib.Core.Bool.{Bool, true, false}
use bigpipe_cpp.Base.Tests.{if◌then◌else◌}
use bigpipe_cpp.Base.Int.{ℤ, ◌+ℤ◌, is_int}

pub data Fault : Type 0 where
  exception : Fault  -- a std::exception
  assertion : Fault  -- a failed assert
  null_pointer : Fault  -- a null pointer is followed
  back_of_empty : Fault  -- back() of an empty deque
  int_overflow : Fault  -- signed overflow, or a conversion out of range
  zero_division : Fault  -- % 0
  out_of_range : Fault  -- an element past the end of a vector
  dangling_reference : Fault  -- an object is read after its lifetime

pub data Outcome {ℓ} (A : Type ℓ) : Type ℓ where
  done : A → Outcome A
  fail : Fault → Outcome A

infixl 5 ◌>>=◌ ◌>>◌
abbrev pub ◌>>=◌ {ℓ κ} : {A : Type ℓ} {B : Type κ} → Outcome A → (A → Outcome B) → Outcome B
done a >>= f = f a
fail e >>= f = fail e

abbrev pub ◌>>◌ {ℓ} : {B : Type ℓ} → Outcome (Unit {0}) → Outcome B → Outcome B
m >> k = m >>= λ _. k

-- Inversion of a chain that ended with a value.
pub >>=-eq-done {ℓ κ} :
    {A : Type ℓ} {B : Type κ} (m : Outcome A) (f : A → Outcome B) {b : B}
    → (m >>= f) ≡ done b
    → (a : A) × (m ≡ done a) × (f a ≡ done b)
>>=-eq-done (done a) f h = (a, refl, h)
>>=-eq-done (fail e) f h = cc

pub done-injective {ℓ} : {A : Type ℓ} {a b : A} → ◌≡◌ {A = Outcome A} (done a) (done b) → a ≡ b
done-injective h = cc

-- `assert`, and a dereference, as steps of a chain.
abbrev pub check : Bool → Fault → Outcome (Unit {0})
check true e = done tt
check false e = fail e

-- The sum of two `int`s, which must be an `int`.
unfoldable pub add_int : ℤ → ℤ → Outcome ℤ
add_int a b = if is_int (a +ℤ b) then done (a +ℤ b) else fail int_overflow
