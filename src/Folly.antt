-- ===== src/Folly.antt =====
-- The part of folly that the program calls: `folly::dynamic` with `parseJson` and `toJson`. The
-- library is not in the repository, so it is an interface, with what its documentation promises.
pub mod Json
use bigpipe_cpp.Base.{
  ℕ, ◌≡◌, Bool, true, false, List, Outcome, done, fail, exception, ℤ, String, same_text,
  if◌then◌else◌, All, [], ◌∷◌, ◌||◌,
}

-- `W` is `double`. A call that throws (a TypeError, or a parse error) fails with `exception`.
pub record Folly (D W : Type 0) : Type 0 where
  pub parse_json : String → Outcome D
  pub to_json : D → Outcome String
  pub object : D  -- folly::dynamic::object
  pub set : String → D → D → Outcome D  -- d[k] = v
  pub index : String → D → Outcome D  -- d[k], null where d is an object without k
  pub count : String → D → Outcome ℕ
  pub elements : D → Outcome (List D)  -- what a range `for` walks
  pub items : D → Outcome (List (D × D))
  pub as_string : D → Outcome String
  pub as_int : D → Outcome ℤ
  pub as_double : D → Outcome W
  pub of_string : String → D
  pub of_int : ℤ → D

abbrev pub has_key : {V : Type 0} → String → List (String × V) → Bool
has_key j [] = false
has_key j ((k, v) ∷ members) = same_text j k || has_key j members

-- Members with their names as values.
abbrev pub keyed : {D : Type 0} → (String → D) → List (String × D) → List (D × D)
keyed of_string [] = []
keyed of_string ((k, v) ∷ members) = (of_string k, v) ∷ keyed of_string members

-- The laws of an object and of a string, and that an empty text is no JSON document.
pub record FollyLaws {D W : Type 0} (f : Folly D W) : Type 1 where
  pub IsObject : D → Type 0
  pub object-IsObject : IsObject f.object
  -- d[k] = v leaves an object that holds v at k and is otherwise as it was.
  pub set_object :
      (k : String) (v d : D)
      → IsObject d
      → (e : D) × (f.set k v d ≡ done e)
        × IsObject e
        × ((j : String) → f.index j e ≡ (if same_text k j then done v else f.index j d))
        × ((j : String) → f.count j e ≡ (if same_text k j then done 1 else f.count j d))
  pub object_empty : (j : String) → f.count j f.object ≡ done 0
  -- The items of an object are its members, each under a name of its own.
  pub items_object :
      (d : D)
      → IsObject d
      → (members : List (String × D)) × (f.items d ≡ done (keyed f.of_string members))
        × All (λ m. (f.count m.0 d ≡ done 1) × (f.index m.0 d ≡ done m.1)) members
        × ((j : String) → f.count j d ≡ done 1 → has_key j members ≡ true)
  pub as_string-of_string : (s : String) → f.as_string (f.of_string s) ≡ done s
  pub parse_json_empty : f.parse_json "" ≡ fail exception
