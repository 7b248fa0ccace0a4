-- ===== src/Proto/Acl.antt =====
-- proto/acl.hpp, class AccessControlList.
pub mod Roundtrip
use bigpipe_cpp.Base.{
  ℕ, Bool, true, false, ltb, String, Outcome, done, fail, exception, Fault, if◌then◌else◌,
}
use bigpipe_cpp.Base.Methods.{Method, ◌>>=◌, ◌>>◌, call, update}
use bigpipe_cpp.Folly.{Folly}

pub record AccessControlList : Type 0 where
  pub topic : String
  pub name : String
  pub secret : String

abbrev pub no_acl : AccessControlList
no_acl = record { topic = ""; name = ""; secret = "" }

-- The setters. Each assigns its parameter to itself, since the parameter hides the field.
unfoldable pub set_topic : String → AccessControlList → AccessControlList
set_topic topic a = a

unfoldable pub set_name : String → AccessControlList → AccessControlList
set_name name a = a

unfoldable pub set_secret : String → AccessControlList → AccessControlList
set_secret secret a = a

-- The `catch` of FromJSON: an exception becomes `false`, and the object stays as it is by then.
abbrev pub caught : AccessControlList × Outcome Bool → AccessControlList × Outcome Bool
caught (a, done b) = (a, done b)
caught (a, fail exception) = (a, done false)
caught (a, fail e) = (a, fail e)

module _ {D W : Type 0} (f : Folly D W) where
  -- The `try` block.
  unfoldable pub read_fields : D → Method AccessControlList Bool
  read_fields dict = do
    v ← call (f.index "name" dict)
    name ← call (f.as_string v)
    update (λ a. record a { name = name })
    w ← call (f.index "secret" dict)
    secret ← call (f.as_string w)
    update (λ a. record a { secret = secret })
    n ← call (f.count "topic" dict)
    let with_topic : Method AccessControlList Bool = do
      x ← call (f.index "topic" dict)
      topic ← call (f.as_string x)
      update (λ a. record a { topic = topic })
      call (done true)
    if ltb 0 n then with_topic else call (done true)

  -- parseJson stands outside the `try` block.
  unfoldable pub from_json : String → Method AccessControlList Bool
  from_json json = do dict ← call (f.parse_json json); λ a. caught (read_fields dict a)

  unfoldable pub to_json : Method AccessControlList String
  to_json a =
      (do
        o ← call (f.set "name" (f.of_string a.name) f.object)
        p ← call (f.set "secret" (f.of_string a.secret) o)
        q ← call (f.set "topic" (f.of_string a.topic) p)
        call (f.to_json q))
        a
