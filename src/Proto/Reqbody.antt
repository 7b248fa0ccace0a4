-- ===== src/Proto/Reqbody.antt =====
-- proto/reqbody.hpp, class RequestBody.
use bigpipe_cpp.Base.{Bool, true, String, done}
use bigpipe_cpp.Base.Methods.{Method, ◌>>=◌, ◌>>◌, call, update}
use bigpipe_cpp.Folly.{Folly}
use bigpipe_cpp.Proto.{Files, read_file}
use bigpipe_cpp.Proto.Acl.{AccessControlList, no_acl}
use bigpipe_cpp.Proto.Acl

pub record RequestBody : Type 0 where
  pub acl : AccessControlList
  pub partition_key : String
  pub url : String
  pub body : String  -- `data`

abbrev pub no_body : RequestBody
no_body = record { acl = no_acl; partition_key = ""; url = ""; body = "" }

-- The setters. Each assigns its parameter to itself, since the parameter hides the field.
unfoldable pub set_acl : AccessControlList → RequestBody → RequestBody
set_acl acl b = b

unfoldable pub set_url : String → RequestBody → RequestBody
set_url url b = b

unfoldable pub set_partition_key : String → RequestBody → RequestBody
set_partition_key partition_key b = b

unfoldable pub set_data : String → RequestBody → RequestBody
set_data text b = b

-- A method of the member `acl`.
abbrev in_acl : {A : Type 0} → Method AccessControlList A → Method RequestBody A
in_acl m b = let (a, r) = m b.acl in (record b { acl = a }, r)

module _ {D W : Type 0} (f : Folly D W) where
  -- The parameter is the name of the file that is read.
  unfoldable pub parse_from_json : Files → String → Method RequestBody Bool
  parse_from_json files name = do
    dict ← call (f.parse_json (read_file (files name)))
    u ← call (f.index "url" dict)
    url ← call (f.as_string u)
    update (λ b. record b { url = url })
    v ← call (f.index "data" dict)
    text ← call (f.as_string v)
    update (λ b. record b { body = text })
    w ← call (f.index "partitionKey" dict)
    key ← call (f.as_string w)
    update (λ b. record b { partition_key = key })
    x ← call (f.index "acl" dict)
    acl ← call (f.as_string x)
    ok ← in_acl (Acl.from_json f acl)
    call (done true)

  unfoldable pub to_json : Method RequestBody String
  to_json b =
      (do
        o ← call (f.set "url" (f.of_string b.url) f.object)
        p ← call (f.set "data" (f.of_string b.body) o)
        q ← call (f.set "partitionKey" (f.of_string b.partition_key) p)
        acl ← in_acl (Acl.to_json f)
        r ← call (f.set "acl" (f.of_string acl) q)
        call (f.to_json r))
        b
