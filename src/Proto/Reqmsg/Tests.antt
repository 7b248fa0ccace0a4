-- ===== src/Proto/Reqmsg/Tests.antt =====
-- A message with a header, printed and read back.
use bigpipe_cpp.Base.{
  ◌≡◌, refl, ◌&&◌, true, [], ◌∷◌, some, String, ℤ, Outcome, done, same_text, eq_iff, arith,
  if◌then◌else◌,
}
use bigpipe_cpp.Folly.{Folly, FollyLaws}
use bigpipe_cpp.Folly.Json.{Json, text, obj, end, field, other_text, json_printing}
use bigpipe_cpp.Folly.Json.Laws.{json_printing-laws}
use bigpipe_cpp.Proto.{Files}
use bigpipe_cpp.Proto.Reqmsg.{RequestMessage, no_message, print_headers, from_json, to_json}
use bigpipe_cpp.Proto.Reqmsg.Roundtrip.{sent, from_json-to_json_message}

abbrev order : RequestMessage
order = record {
  headers = ("Accept", "text/plain") ∷ [];
  partition_key = "k";
  topic = "t";
  url = "u";
  body = "d";
}

abbrev order_headers : Json
order_headers = obj (field "Accept" (text "text/plain") end)

abbrev order_object : Json
order_object = obj (
    field "headers" order_headers
      (field "url" (text "u") (field "data" (text "d") (field "topic" (text "t") end))))

abbrev order_text : String
order_text =
    "{\"headers\":{\"Accept\":\"text/plain\"},\"url\":\"u\",\"data\":\"d\",\"topic\":\"t\"}"

-- The printer knows the objects with one header.
abbrev print_order : Json → Outcome String
print_order
      (obj (
        field h
          (obj (field k (text v) end))
          (field u (text a) (field d (text b) (field t (text c) end))))) =
    if same_text h "headers"
      && same_text k "Accept"
      && same_text v "text/plain"
      && same_text u "url"
      && same_text a "u"
      && same_text d "data"
      && same_text b "d"
      && same_text t "topic"
      && same_text c "t"
    then done order_text
    else done other_text
print_order _ = done other_text

abbrev printing : Folly Json ℤ
printing = json_printing print_order ((order_text, order_object) ∷ [])

abbrev printing-laws : FollyLaws printing
printing-laws = json_printing-laws print_order ((order_text, order_object) ∷ []) refl

reads_order :
    (d : Json) → printing.to_json d ≡ done order_text → printing.parse_json order_text ≡ done d
reads_order
      (obj (
        field h
          (obj (field k (text v) end))
          (field u (text a) (field d (text b) (field t (text c) end)))))
      e =
    ground (
      arith,
      eq_iff h "headers",
      eq_iff k "Accept",
      eq_iff v "text/plain",
      eq_iff u "url",
      eq_iff a "u",
      eq_iff d "data",
      eq_iff b "d",
      eq_iff t "topic",
      eq_iff c "t",
      eq_iff other_text order_text,
    )
reads_order _ e = ground (arith, eq_iff other_text order_text)

abbrev topic_files : Files
topic_files name = some order_text

from_json-to_json_message_example :
    (m' : RequestMessage) × (from_json printing topic_files "message" no_message ≡ (m', done true))
    × (sent m' ≡ sent order)
    × (m'.topic ≡ "")
    × (m'.partition_key ≡ "")
unfolding to_json print_headers
from_json-to_json_message_example =
    from_json-to_json_message printing-laws topic_files "message" order_text order reads_order refl
      refl (refl, tt)
