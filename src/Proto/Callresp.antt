-- ===== src/Proto/Callresp.antt =====
-- proto/callresp.hpp, class CallResp.
use bigpipe_cpp.Base.{String, Outcome, ℤ, ◌>>=◌}
use bigpipe_cpp.Folly.{Folly}

pub record CallResp (D : Type 0) : Type 0 where
  pub errcode : ℤ
  pub msg : String
  pub payload : D  -- `data`

module _ {D W : Type 0} (f : Folly D W) where
  unfoldable pub to_json : CallResp D → Outcome String
  to_json c = do
    o ← f.set "errno" (f.of_int c.errcode) f.object
    p ← f.set "msg" (f.of_string c.msg) o
    q ← f.set "data" c.payload p
    f.to_json q
