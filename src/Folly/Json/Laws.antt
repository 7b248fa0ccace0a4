-- ===== src/Folly/Json/Laws.antt =====
-- That the small folly keeps the laws of an object.
use bigpipe_cpp.Base.{
  ◌≡◌, refl, List, [], ◌∷◌, Outcome, done, fail, exception, String, eq_iff, same_text, arith,
  if◌then◌else◌, Bool-cases, true, false, inl, inr, All, ap, sym, subst,
}
use bigpipe_cpp.Folly.{FollyLaws, has_key, keyed}
use bigpipe_cpp.Folly.Json.{
  Json, null, text, num, obj, arr, Fields, end, field, put, get, has, print, parse, json_set,
  json_index, json_count, json_pairs, json_members, known_acl, known_text, other_text,
  json_printing, json,
}

get-put :
    (k j : String) (v : Json) (m : Fields)
    → get j (put k v m) ≡ (if same_text k j then v else get j m)
get-put k j v end = refl
get-put k j v (field i w m) = ground (arith, eq_iff k j, eq_iff i k, eq_iff i j, get-put k j v m)

has-put :
    (k j : String) (v : Json) (m : Fields)
    → has j (put k v m) ≡ (if same_text k j then 1 else has j m)
has-put k j v end = refl
has-put k j v (field i w m) = ground (arith, eq_iff k j, eq_iff i k, eq_iff i j, has-put k j v m)

-- No name twice.
abbrev IsDistinct : Fields → Type 0
IsDistinct end = Unit
IsDistinct (field k v m) = (has k m ≡ 0) × IsDistinct m

put-IsDistinct : (k : String) (v : Json) (m : Fields) → IsDistinct m → IsDistinct (put k v m)
put-IsDistinct k v end h = (refl, tt)
put-IsDistinct k v (field j w m) h = elim (Bool-cases (same_text j k)) [
  | inl same ↦ rw same (subst (λ x. has x m ≡ 0) ((eq_iff j k).0 same) h.0, h.1)
  | inr other ↦
      rw other
        ((ground (arith, has-put k j v m, eq_iff j k, eq_iff k j, h.0), put-IsDistinct k v m h.1))
]

abbrev IsObj : Json → Type 0
IsObj (obj m) = IsDistinct m
IsObj _ = ⊥

json_set_object :
    (k : String) (v d : Json)
    → IsObj d
    → (e : Json) × (json_set k v d ≡ done e)
      × IsObj e
      × ((j : String) → json_index j e ≡ (if same_text k j then done v else json_index j d))
      × ((j : String) → json_count j e ≡ (if same_text k j then done 1 else json_count j d))
json_set_object k v (obj m) h = (
  obj (put k v m),
  refl,
  put-IsDistinct k v m h,
  λ j. ground (arith, get-put k j v m),
  λ j. ground (arith, has-put k j v m),
)
json_set_object k v null h = elim h [ ]
json_set_object k v (text s) h = elim h [ ]
json_set_object k v (num n) h = elim h [ ]
json_set_object k v (arr m) h = elim h [ ]

-- A member of the rest is one of the whole, since its name is another.
members_deeper :
    (k : String) (v : Json) (m : Fields) (ms : List (String × Json))
    → has k m ≡ 0
    → All (λ p. (has p.0 m ≡ 1) × (get p.0 m ≡ p.1)) ms
    → All (λ p. (has p.0 (field k v m) ≡ 1) × (get p.0 (field k v m) ≡ p.1)) ms
members_deeper k v m [] new h = tt
members_deeper k v m ((j, w) ∷ ms) new ((one, here), h) =
    let other : same_text k j ≡ false = elim (Bool-cases (same_text k j)) [
      | inl same ↦ let here = subst (λ x. has x m ≡ 1) (sym ((eq_iff k j).0 same)) one in cc
      | inr apart ↦ apart
    ] in
    ((rw other one, rw other here), members_deeper k v m ms new h)

members_lem :
    (m : Fields) → IsDistinct m → All (λ p. (has p.0 m ≡ 1) × (get p.0 m ≡ p.1)) (json_members m)
members_lem end h = tt
members_lem (field k v m) h = (
  (ground (arith, eq_iff k k), ground (arith, eq_iff k k)),
  members_deeper k v m (json_members m) h.0 (members_lem m h.1),
)

found :
    (m : Fields) (ms : List (String × Json))
    → All (λ p. (has p.0 m ≡ 1) × (get p.0 m ≡ p.1)) ms
    → All (λ p. (json_count p.0 (obj m) ≡ done 1) × (json_index p.0 (obj m) ≡ done p.1)) ms
found m [] h = tt
found m (p ∷ ms) ((one, here), h) = ((ap done one, ap done here), found m ms h)

has-has_key : (j : String) (m : Fields) → has j m ≡ 1 → has_key j (json_members m) ≡ true
has-has_key j end h = ground arith
has-has_key j (field k v m) h = ground (arith, eq_iff k j, eq_iff j k, has-has_key j m)

json_items_object :
    (d : Json)
    → IsObj d
    → (members : List (String × Json)) × (json_pairs d ≡ done (keyed text members))
      × All (λ m. (json_count m.0 d ≡ done 1) × (json_index m.0 d ≡ done m.1)) members
      × ((j : String) → json_count j d ≡ done 1 → has_key j members ≡ true)
json_items_object (obj m) h =
    (json_members m, refl, found m (json_members m) (members_lem m h), λ j e. has-has_key j m (cc))
json_items_object null h = elim h [ ]
json_items_object (text s) h = elim h [ ]
json_items_object (num n) h = elim h [ ]
json_items_object (arr m) h = elim h [ ]

-- Whatever the printer, and whatever texts the parser knows besides the empty one.
pub json_printing-laws :
    (printer : Json → Outcome String) (known : List (String × Json))
    → parse known "" ≡ fail exception
    → FollyLaws (json_printing printer known)
json_printing-laws printer known empty = record {
  IsObject = IsObj;
  object-IsObject = tt;
  set_object = json_set_object;
  object_empty = λ j. refl;
  items_object = json_items_object;
  as_string-of_string = λ s. refl;
  parse_json_empty = empty;
}

pub json-laws : FollyLaws json
json-laws = json_printing-laws print ((known_text, known_acl) ∷ []) refl

-- The printed text is read back as the value that was printed.
pub print-parse :
    (d : Json) → json.to_json d ≡ done known_text → json.parse_json known_text ≡ done d
print-parse (obj (field k (text a) (field l (text b) (field m (text c) end)))) h = ground (
  arith,
  eq_iff k "name",
  eq_iff a "system-1",
  eq_iff l "secret",
  eq_iff b "you are good",
  eq_iff m "topic",
  eq_iff c "test",
  eq_iff other_text known_text,
)
print-parse _ h = ground (arith, eq_iff other_text known_text)
