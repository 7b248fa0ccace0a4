-- ===== src/Folly/Json.antt =====
-- A small folly that can be computed with, for the examples: values with members, and one text that
-- is known to the printer and to the parser.
pub mod Laws
use bigpipe_cpp.Base.{
  ℕ, ◌≡◌, refl, ◌&&◌, List, [], ◌∷◌, Outcome, done, fail, exception, ℤ, String, eq_iff, same_text,
  arith, if◌then◌else◌, Bool-cases, true, false, inl, inr, All, ap, sym, subst,
}
use bigpipe_cpp.Folly.{Folly, FollyLaws, has_key, keyed}

mutual
  pub data Json : Type 0 where
    null : Json
    text : String → Json
    num : ℤ → Json
    obj : Fields → Json
    arr : Items → Json

  pub data Fields : Type 0 where
    end : Fields
    field : String → Json → Fields → Fields

  pub data Items : Type 0 where
    nil : Items
    cons : Json → Items → Items

abbrev pub put : String → Json → Fields → Fields
put k v end = field k v end
put k v (field j w m) = if same_text j k then field k v m else field j w (put k v m)

abbrev pub get : String → Fields → Json
get k end = null
get k (field j w m) = if same_text j k then w else get k m

abbrev pub has : String → Fields → ℕ
has k end = 0
has k (field j w m) = if same_text j k then 1 else has k m

-- The members of the one object that is printed, and its text.
abbrev pub known_acl : Json
known_acl = obj (
    field "name" (text "system-1")
      (field "secret" (text "you are good") (field "topic" (text "test") end)))

abbrev pub known_text : String
known_text = "{\"name\":\"system-1\",\"secret\":\"you are good\",\"topic\":\"test\"}"

-- What all else is printed as.
abbrev pub other_text : String
other_text = "{}"

abbrev pub print : Json → Outcome String
print (obj (field k (text a) (field l (text b) (field m (text c) end)))) =
    if same_text k "name"
      && same_text a "system-1"
      && same_text l "secret"
      && same_text b "you are good"
      && same_text m "topic"
      && same_text c "test"
    then done known_text
    else done other_text
print _ = done other_text

-- The parser knows the texts of a list.
abbrev pub parse : List (String × Json) → String → Outcome Json
parse [] s = fail exception
parse ((t, d) ∷ known) s = if same_text s t then done d else parse known s

abbrev json_elements : Items → List Json
json_elements nil = []
json_elements (cons v m) = v ∷ json_elements m

abbrev json_list : Json → Outcome (List Json)
json_list (arr m) = done (json_elements m)
json_list _ = fail exception

abbrev pub json_set : String → Json → Json → Outcome Json
json_set k v (obj m) = done (obj (put k v m))
json_set k v _ = fail exception

abbrev pub json_index : String → Json → Outcome Json
json_index k (obj m) = done (get k m)
json_index k _ = fail exception

abbrev pub json_count : String → Json → Outcome ℕ
json_count k (obj m) = done (has k m)
json_count k _ = fail exception

abbrev json_string : Json → Outcome String
json_string (text s) = done s
json_string _ = fail exception

abbrev json_int : Json → Outcome ℤ
json_int (num n) = done n
json_int _ = fail exception

abbrev pub json_members : Fields → List (String × Json)
json_members end = []
json_members (field k v m) = (k, v) ∷ json_members m

abbrev pub json_pairs : Json → Outcome (List (Json × Json))
json_pairs (obj m) = done (keyed text (json_members m))
json_pairs _ = fail exception

-- `double` is the integer.
abbrev pub json_printing : (Json → Outcome String) → List (String × Json) → Folly Json ℤ
json_printing printer known = record {
  parse_json = parse known;
  to_json = printer;
  object = obj end;
  set = json_set;
  index = json_index;
  count = json_count;
  elements = json_list;
  items = json_pairs;
  as_string = json_string;
  as_int = json_int;
  as_double = json_int;
  of_string = text;
  of_int = num;
}

abbrev pub json_over : List (String × Json) → Folly Json ℤ
json_over = json_printing print

abbrev pub json : Folly Json ℤ
json = json_over ((known_text, known_acl) ∷ [])
