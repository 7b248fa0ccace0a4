-- ===== src/Base/Methods.antt =====
-- A method that may throw: it changes its object step by step, and what it has changed stays changed
-- when a later step fails.
use bigpipe_cpp.Base.Faults.{Outcome, done, fail}

abbrev pub Method : Type 0 → Type 0 → Type 0
Method S A = S → S × Outcome A

abbrev continue : {S A B : Type 0} → S → Outcome A → (A → Method S B) → S × Outcome B
continue s (done a) f = f a s
continue s (fail e) f = (s, fail e)

infixl 5 ◌>>=◌ ◌>>◌
abbrev pub ◌>>=◌ : {S A B : Type 0} → Method S A → (A → Method S B) → Method S B
◌>>=◌ m f s = let (s', r) = m s in continue s' r f

abbrev pub ◌>>◌ : {S B : Type 0} → Method S (Unit {0}) → Method S B → Method S B
m >> k = m >>= λ _. k

-- A call that does not touch the object.
abbrev pub call : {S A : Type 0} → Outcome A → Method S A
call r s = (s, r)

abbrev pub update : {S : Type 0} → (S → S) → Method S (Unit {0})
update f s = (f s, done tt)
