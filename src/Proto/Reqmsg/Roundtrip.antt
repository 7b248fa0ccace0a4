-- ===== src/Proto/Reqmsg/Roundtrip.antt =====
-- What FromJSON reads of the text that ToJSON printed: the way of a message through Kafka.
use mathlib.Core.Quot
use bigpipe_cpp.Base.{
  ◌≡◌, refl, sym, ap, ◌∙◌, true, false, List, [], ◌∷◌, Option, none, some, String, done, insert,
  lookup, lookup-insert, eq_iff, All, arith, if◌then◌else◌,
}
use bigpipe_cpp.Folly.{Folly, FollyLaws, has_key, keyed}
use bigpipe_cpp.Proto.{Files, read_file}
use bigpipe_cpp.Proto.Headers.{Headers, of_entries}
use bigpipe_cpp.Proto.Reqmsg.{
  RequestMessage, no_message, print_headers, read_headers, from_json, to_json,
}

-- The entries stored one after the other.
abbrev pub insert_all : List (String × String) → List (String × String) → List (String × String)
insert_all [] m = m
insert_all ((k, v) ∷ entries) m = insert_all entries (insert k v m)

-- No key twice, as in an std::unordered_map.
abbrev pub IsMap : List (String × String) → Type 0
IsMap [] = Unit
IsMap ((k, v) ∷ m) = (has_key k m ≡ false) × IsMap m

lookup_missing : (j : String) (m : List (String × String)) → has_key j m ≡ false → lookup j m ≡ none
unfolding lookup
lookup_missing j [] h = refl
lookup_missing j ((k, v) ∷ m) h = ground (arith, lookup_missing j m)

lookup-insert_all :
    (j : String) (entries m : List (String × String))
    → IsMap entries
    → lookup j (insert_all entries m) ≡ (if has_key j entries then lookup j entries else lookup j m)
unfolding lookup
lookup-insert_all j [] m h = refl
lookup-insert_all j ((k, v) ∷ entries) m h = ground (
  arith,
  lookup-insert_all j entries (insert k v m) h.1,
  lookup-insert k j v m,
  eq_iff k j,
  eq_iff j k,
  h.0,
)

-- A map stored entry by entry is the same map.
lookup-insert_all_empty :
    (j : String) (m : List (String × String)) → IsMap m → lookup j (insert_all m []) ≡ lookup j m
unfolding lookup
lookup-insert_all_empty j m h = lookup-insert_all j m [] h ∙ ground (arith, lookup_missing j m)

-- What of a message goes through Kafka: the URL, the data, and the headers as a map.
abbrev pub sent : RequestMessage → String × String × Headers
sent m = (m.url, m.body, of_entries m.headers)

module _ {D W : Type 0} {f : Folly D W} (laws : FollyLaws f) where
  open laws use {
    IsObject, object-IsObject, set_object, object_empty, items_object, as_string-of_string,
  }

  -- An object whose members are the entries of a map.
  record IsPrinted (m : List (String × String)) (o : D) : Type 0 where
    object : IsObject o
    present :
        (j s : String)
        → lookup j m ≡ some s
        → (f.count j o ≡ done 1) × (f.index j o ≡ done (f.of_string s))
    absent : (j : String) → lookup j m ≡ none → f.count j o ≡ done 0

  set-IsPrinted :
      (k v : String) (m : List (String × String)) (o : D)
      → IsPrinted m o
      → (e : D) × (f.set k (f.of_string v) o ≡ done e) × IsPrinted (insert k v m) e
  set-IsPrinted k v m o p =
      let (e, se, ie, xe, ce) = set_object k (f.of_string v) o p.object in
      (
        e,
        se,
        record {
          object = ie;
          present = λ j s h. ground (arith, lookup-insert k j v m, xe j, ce j, p.present j s);
          absent = λ j h. ground (arith, lookup-insert k j v m, ce j, p.absent j);
        },
      )

  print_headers-IsPrinted :
      (entries m : List (String × String)) (o : D) (msg : RequestMessage)
      → IsPrinted m o
      → (e : D) × (print_headers f entries o msg ≡ (msg, done e))
        × IsPrinted (insert_all entries m) e
  unfolding print_headers
  print_headers-IsPrinted [] m o msg p = (o, refl, p)
  print_headers-IsPrinted ((k, v) ∷ entries) m o msg p =
      let (e, se, pe) = set-IsPrinted k v m o p in
      let (e', printed, pe') = print_headers-IsPrinted entries (insert k v m) e msg pe in
      (e', rw se printed, pe')

  object-IsPrinted : IsPrinted [] f.object
  unfolding lookup
  object-IsPrinted = record {
    object = object-IsObject;
    present = λ j s h. cc;
    absent = λ j h. object_empty j;
  }

  -- A member of the object is the string of an entry.
  member_lem :
      (m : List (String × String)) (o : D) (k : String) (v : D) (r : Option String)
      → lookup k m ≡ r
      → IsPrinted m o
      → (f.count k o ≡ done 1) × (f.index k o ≡ done v)
      → (s : String) × (lookup k m ≡ some s) × (v ≡ f.of_string s)
  member_lem m o k v none e p h = let none_there = p.absent k e in cc
  member_lem m o k v (some s) e p h = (s, e, let there = p.present k s e in cc)

  read_headers-lookup :
      (m : List (String × String)) (o : D) (members : List (String × D)) (msg : RequestMessage)
      → IsPrinted m o
      → All (λ q. (f.count q.0 o ≡ done 1) × (f.index q.0 o ≡ done q.1)) members
      → (headers : List (String × String)) × (read_headers f (keyed f.of_string members) msg
          ≡ (record msg { headers = headers }, done tt))
        × ((j : String)
            → lookup j headers ≡ (if has_key j members then lookup j m else lookup j msg.headers))
  unfolding read_headers
  read_headers-lookup m o [] msg p h = (msg.headers, refl, λ j. refl)
  read_headers-lookup m o ((k, v) ∷ members) msg p h =
      let (s, there, is_text) = member_lem m o k v (lookup k m) refl p h.0 in
      let next = record msg { headers = insert k s msg.headers } in
      let (headers, read, answers) = read_headers-lookup m o members next p h.1 in
      (
        headers,
        rw (as_string-of_string k, is_text, as_string-of_string s) read,
        λ j.
            ground
              (arith, answers j, lookup-insert k j s msg.headers, there, eq_iff k j, eq_iff j k),
      )

  -- A name that is no member's is no entry's.
  answer_lem :
      (m : List (String × String)) (o : D) (members : List (String × D)) (j : String)
      (r : Option String)
      → lookup j m ≡ r
      → IsPrinted m o
      → (f.count j o ≡ done 1 → has_key j members ≡ true)
      → (if has_key j members then lookup j m else none) ≡ lookup j m
  answer_lem m o members j none e p complete = ground (arith, e)
  answer_lem m o members j (some s) e p complete = rw (complete (p.present j s e).0) refl

  -- The object that ToJSON prints.
  record Holds (m : RequestMessage) (h q : D) : Type 0 where
    printed : to_json f m ≡ (m, f.to_json q)
    map : IsPrinted (insert_all m.headers []) h
    headers : f.index "headers" q ≡ done h
    url : f.index "url" q ≡ done (f.of_string m.url)
    body : f.index "data" q ≡ done (f.of_string m.body)

  to_json-Holds : (m : RequestMessage) → (h q : D) × Holds m h q
  unfolding to_json
  to_json-Holds m =
      let (h, printed, map) = print_headers-IsPrinted m.headers [] f.object m object-IsPrinted in
      let (o, so, io, xo, co) = set_object "headers" h f.object object-IsObject in
      let (p, sp, ip, xp, cp) = set_object "url" (f.of_string m.url) o io in
      let (q, sq, iq, xq, cq) = set_object "data" (f.of_string m.body) p ip in
      let (t, st, it, xt, ct) = set_object "topic" (f.of_string m.topic) q iq in
      (
        h,
        t,
        record {
          printed = rw (printed, so, sp, sq, st);
          map = map;
          headers = xt "headers" ∙ xq "headers" ∙ xp "headers" ∙ xo "headers";
          url = xt "url" ∙ xq "url" ∙ xp "url";
          body = xt "data" ∙ xq "data";
        },
      )

  -- The headers that are read answer every name as those that were printed.
  from_json-printed :
      (files : Files) (name text : String) (m : RequestMessage)
      → ((d : D) → f.to_json d ≡ done text → f.parse_json text ≡ done d)
      → files name ≡ some text
      → to_json f m ≡ (m, done text)
      → IsMap m.headers
      → (headers : List (String × String)) × (from_json f files name no_message
          ≡ (record no_message { headers = headers; url = m.url; body = m.body }, done true))
        × ((j : String) → lookup j headers ≡ lookup j m.headers)
  unfolding from_json read_file lookup
  from_json-printed files name text m reads file printed distinct =
      let (h, q, holds) = to_json-Holds m in
      let parsed = reads q (ap (λ x. x.1) (sym holds.printed ∙ printed)) in
      let (members, listed, found, complete) = items_object h holds.map.object in
      let blank = record no_message { url = m.url; body = m.body } in
      let (headers, read, answers) =
        read_headers-lookup (insert_all m.headers []) h members blank holds.map found in
      (
        headers,
        rw (
          file, parsed, holds.url, as_string-of_string, holds.body, as_string-of_string,
          holds.headers, listed, read,
        ),
        λ j.
            answers j
            ∙ answer_lem (insert_all m.headers []) h members j _ refl holds.map (complete j)
            ∙ lookup-insert_all_empty j m.headers distinct,
      )

  -- The way of a message through Kafka. From the text that ToJSON printed FromJSON reads a message
  -- with the same URL, the same data and the same headers, as a map without order; its topic and its
  -- partition key are empty. The argument of FromJSON has to be the name of a file that holds the
  -- text, folly has to read the printed text back as the value that it printed, and no header may
  -- be named twice.
  pub from_json-to_json_message :
      (files : Files) (name text : String) (m : RequestMessage)
      → ((d : D) → f.to_json d ≡ done text → f.parse_json text ≡ done d)
      → files name ≡ some text
      → to_json f m ≡ (m, done text)
      → IsMap m.headers
      → (m' : RequestMessage) × (from_json f files name no_message ≡ (m', done true))
        × (sent m' ≡ sent m)
        × (m'.topic ≡ "")
        × (m'.partition_key ≡ "")
  from_json-to_json_message files name text m reads file printed distinct =
      let (headers, read, answers) =
        from_json-printed files name text m reads file printed distinct in
      (
        record no_message { headers = headers; url = m.url; body = m.body },
        read,
        ap (λ h. (m.url, m.body, h)) (Quot.sound answers),
        refl,
        refl,
      )
