-- ===== src/Proto/Acl/Roundtrip.antt =====
-- FromJSON after ToJSON.
use bigpipe_cpp.Base.{◌≡◌, sym, ap, ◌∙◌, true, String, done}
use bigpipe_cpp.Folly.{Folly, FollyLaws}
use bigpipe_cpp.Proto.Acl.{AccessControlList, from_json, to_json, read_fields, caught}

module _ {D W : Type 0} {f : Folly D W} (laws : FollyLaws f) where
  open laws use {IsObject, object-IsObject, set_object, as_string-of_string}

  -- The object with the three members of an access control list.
  record Holds (a : AccessControlList) (q : D) : Type 0 where
    printed : to_json f a ≡ (a, f.to_json q)
    named : f.index "name" q ≡ done (f.of_string a.name)
    secret : f.index "secret" q ≡ done (f.of_string a.secret)
    topic : f.index "topic" q ≡ done (f.of_string a.topic)
    counted : f.count "topic" q ≡ done 1

  to_json-Holds : (a : AccessControlList) → (q : D) × Holds a q
  unfolding to_json
  to_json-Holds a =
      let (o, so, io, xo, co) = set_object "name" (f.of_string a.name) f.object object-IsObject in
      let (p, sp, ip, xp, cp) = set_object "secret" (f.of_string a.secret) o io in
      let (q, sq, iq, xq, cq) = set_object "topic" (f.of_string a.topic) p ip in
      (
        q,
        record {
          printed = rw (so, sp, sq);
          named = xq "name" ∙ xp "name" ∙ xo "name";
          secret = xq "secret" ∙ xp "secret";
          topic = xq "topic";
          counted = cq "topic";
        },
      )

  read_fields-Holds :
      (a b : AccessControlList) (q : D) → Holds a q → read_fields f q b ≡ (a, done true)
  unfolding read_fields
  read_fields-Holds a b q h = rw (
    h.named, as_string-of_string, h.secret, as_string-of_string, h.counted, h.topic,
    as_string-of_string,
  )

  -- What ToJSON prints, FromJSON reads back, into any object, provided that folly reads the printed
  -- text back as the value that it printed.
  pub from_json-to_json :
      (a b : AccessControlList) (text : String)
      → ((d : D) → f.to_json d ≡ done text → f.parse_json text ≡ done d)
      → to_json f a ≡ (a, done text)
      → from_json f text b ≡ (a, done true)
  unfolding from_json
  from_json-to_json a b text reads printed =
      let (q, h) = to_json-Holds a in
      rw (reads q (ap (λ x. x.1) (sym h.printed ∙ printed))) (ap caught (read_fields-Holds a b q h))
