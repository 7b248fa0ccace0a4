-- ===== src/Proto/Tests.antt =====
-- The access control list of conf/bigpipe.json, printed and read back.
use bigpipe_cpp.Base.{◌≡◌, refl, true, done}
use bigpipe_cpp.Folly.Json.{json, known_text}
use bigpipe_cpp.Folly.Json.Laws.{json-laws, print-parse}
use bigpipe_cpp.Proto.Acl.{AccessControlList, no_acl, from_json, to_json}
use bigpipe_cpp.Proto.Acl.Roundtrip.{from_json-to_json}

abbrev system_1 : AccessControlList
system_1 = record { topic = "test"; name = "system-1"; secret = "you are good" }

from_json-to_json_example : from_json json known_text no_acl ≡ (system_1, done true)
unfolding to_json
from_json-to_json_example = from_json-to_json json-laws system_1 no_acl known_text print-parse refl
