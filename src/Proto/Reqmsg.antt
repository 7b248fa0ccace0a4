-- ===== src/Proto/Reqmsg.antt =====
-- proto/reqmsg.hpp, class RequestMessage.
pub mod Roundtrip
mod Tests
use bigpipe_cpp.Base.{Bool, true, List, [], ◌∷◌, String, done, insert}
use bigpipe_cpp.Base.Methods.{Method, ◌>>=◌, ◌>>◌, call, update}
use bigpipe_cpp.Folly.{Folly}
use bigpipe_cpp.Proto.{Files, read_file}
use bigpipe_cpp.Proto.Reqbody.{RequestBody}

pub record RequestMessage : Type 0 where
  pub headers : List (String × String)
  pub partition_key : String
  pub topic : String
  pub url : String
  pub body : String  -- `data`

abbrev pub no_message : RequestMessage
no_message = record { headers = []; partition_key = ""; topic = ""; url = ""; body = "" }

-- The constructor from a parsed request.
unfoldable pub new_message : List (String × String) → RequestBody → RequestMessage
new_message headers b = record {
  headers = headers;
  partition_key = b.partition_key;
  topic = b.acl.topic;
  url = b.url;
  body = b.body;
}

-- The setters. Each assigns its parameter to itself, since the parameter hides the field.
unfoldable pub set_url : String → RequestMessage → RequestMessage
set_url url m = m

unfoldable pub set_data : String → RequestMessage → RequestMessage
set_data text m = m

unfoldable pub set_http_headers : List (String × String) → RequestMessage → RequestMessage
set_http_headers headers m = m

module _ {D W : Type 0} (f : Folly D W) where
  -- The loop over `dict["headers"].items()`.
  unfoldable pub read_headers : List (D × D) → Method RequestMessage (Unit {0})
  read_headers [] m = (m, done tt)
  read_headers ((k, v) ∷ items) m =
      (do
        name ← call (f.as_string k)
        value ← call (f.as_string v)
        update (λ m. record m { headers = insert name value m.headers })
        read_headers items)
        m

  -- The parameter is the name of the file that is read.
  unfoldable pub from_json : Files → String → Method RequestMessage Bool
  from_json files name = do
    dict ← call (f.parse_json (read_file (files name)))
    u ← call (f.index "url" dict)
    url ← call (f.as_string u)
    update (λ m. record m { url = url })
    v ← call (f.index "data" dict)
    text ← call (f.as_string v)
    update (λ m. record m { body = text })
    h ← call (f.index "headers" dict)
    items ← call (f.items h)
    read_headers items
    call (done true)

  -- The object of the headers, filled one after the other.
  unfoldable pub print_headers : List (String × String) → D → Method RequestMessage D
  print_headers [] o = call (done o)
  print_headers ((k, v) ∷ headers) o = do
    p ← call (f.set k (f.of_string v) o)
    print_headers headers p

  unfoldable pub to_json : Method RequestMessage String
  to_json m =
      (do
        headers ← print_headers m.headers f.object
        o ← call (f.set "headers" headers f.object)
        p ← call (f.set "url" (f.of_string m.url) o)
        q ← call (f.set "data" (f.of_string m.body) p)
        r ← call (f.set "topic" (f.of_string m.topic) q)
        call (f.to_json r))
        m
