-- ===== src/Proto.antt =====
-- proto/: the data that travels. AccessControlList and RequestBody arrive in a request, a
-- RequestMessage goes through Kafka, and CallResp answers the caller. Files are a function from
-- their names to their contents.
pub mod Headers
pub mod Acl
pub mod Reqbody
pub mod Reqmsg
pub mod Callresp
mod Tests
use bigpipe_cpp.Base.{String, Option, none, some}

-- What `std::ifstream` reads from a file; nothing, if it cannot be opened.
abbrev pub Files : Type 0
Files = String → Option String

unfoldable pub read_file : Option String → String
read_file none = ""
read_file (some text) = text
