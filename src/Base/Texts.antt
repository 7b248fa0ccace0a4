-- ===== src/Base/Texts.antt =====
-- `std::string` as the native text, `std::to_string` of a count, and `std::unordered_map` with
-- strings for keys as an association list without repeated keys.
use Prim.Native.Nat.{ℕ, zero, suc, ◌/◌, ◌%◌}
use Prim.Native.String.{String}
use Prim.Native.String
use mathlib.Core.Path.{◌≡◌, refl}
use mathlib.Core.Bool.{Bool}
use mathlib.Core.Option.{Option, none, some}
use mathlib.Core.List.{List, [], ◌∷◌}
use native.Mathlib.Omega.{arith}
use text.Mathlib.Text.{◌==◌ as str_eq}
use text.Mathlib.TextEquality.{eq_iff}
use bigpipe_cpp.Base.Tests.{if◌then◌else◌, ltb}

-- `a == b` of two strings.
abbrev pub same_text : String → String → Bool
same_text = str_eq

abbrev digit : ℕ → String
digit zero = "0"
digit (suc zero) = "1"
digit (suc (suc zero)) = "2"
digit (suc (suc (suc zero))) = "3"
digit (suc (suc (suc (suc zero)))) = "4"
digit (suc (suc (suc (suc (suc zero))))) = "5"
digit (suc (suc (suc (suc (suc (suc zero)))))) = "6"
digit (suc (suc (suc (suc (suc (suc (suc zero))))))) = "7"
digit (suc (suc (suc (suc (suc (suc (suc (suc zero)))))))) = "8"
digit _ = "9"

-- The digits of `n`, with as much fuel as there may be digits.
decimal : ℕ → ℕ → String
decimal zero n = ""
decimal (suc fuel) n =
    let front = String.◌++◌ (decimal fuel (n / 10)) (digit (n % 10)) in
    if ltb n 10 then digit n else front

-- A number `n` has at most `n + 1` digits, so the fuel is enough.
unfoldable pub to_string : ℕ → String
unfolding decimal
to_string n = decimal (suc n) n

module _ {ℓ} {V : Type ℓ} where
  -- The value under a key, if the map has the key.
  unfoldable pub lookup : String → List (String × V) → Option V
  lookup key [] = none
  lookup key (entry ∷ entries) =
      let further = lookup key entries in if same_text key entry.0 then some entry.1 else further

  -- `m[key] = value`.
  unfoldable pub insert : String → V → List (String × V) → List (String × V)
  insert key value [] = (key, value) ∷ []
  insert key value (entry ∷ entries) =
      let further = entry ∷ insert key value entries in
      if same_text key entry.0 then (key, value) ∷ entries else further

  -- A map answers with the value that was stored last under the key asked for.
  pub lookup-insert :
      (stored asked : String) (value : V) (entries : List (String × V))
      → lookup asked (insert stored value entries)
        ≡ (if same_text stored asked then some value else lookup asked entries)
  unfolding lookup insert
  lookup-insert stored asked value [] = ground (arith, eq_iff stored asked, eq_iff asked stored)
  lookup-insert stored asked value (entry ∷ entries) = ground (
    arith,
    eq_iff stored asked,
    eq_iff asked stored,
    eq_iff stored entry.0,
    eq_iff asked entry.0,
    lookup-insert stored asked value entries,
  )

to_string_example : to_string 1024 ≡ "1024"
unfolding to_string
to_string_example = refl
