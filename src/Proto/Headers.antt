-- ===== src/Proto/Headers.antt =====
-- The headers of a message as a map: std::unordered_map<std::string, std::string> of proto/reqmsg.hpp,
-- whose entries have no order.
use mathlib.Core.Path.{ap}
use mathlib.Core.Quot
use mathlib.Core.Quot.{Quot, Quot-set}
use text.Mathlib.TextEquality.{IsScalar-prop}
use bigpipe_cpp.Base.{◌≡◌, List, Option, String, lookup}

-- What is stored under each name.
abbrev SameEntries : List (String × String) → List (String × String) → Type 0
SameEntries m n = (k : String) → lookup k m ≡ lookup k n

abbrev pub Headers : Type 0
Headers = Quot SameEntries

abbrev pub of_entries : List (String × String) → Headers
of_entries = Quot.mk

-- `find` of the map.
unfoldable find : String → Headers → Option String
find k = Quot.lift (hlevel (IsScalar-prop)) (lookup k) λ m n h. h k

-- Equal maps have the same entries.
exact : {m n : List (String × String)} → of_entries m ≡ of_entries n → SameEntries m n
unfolding find
exact e k = ap (find k) e
