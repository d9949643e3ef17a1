-- ===== src/Http/Method/Laws.antt =====
-- `stringToMethod` reads each method's token, and nothing else.
use fion.Prelude.{◌≡◌, refl, ◌↔◌, arith}
use fion.Prelude.Results.{ok}
use fion.Text.{Bytes, codes, equal}
use fion.Text.Equal.{equal_iff}
use fion.Http.Method.{Method, string_to_method}

-- The token of RFC 9110 for a method.
unfoldable pub token_of : Method → Bytes
token_of Method.get = codes "GET"
token_of Method.head = codes "HEAD"
token_of Method.post = codes "POST"
token_of Method.put = codes "PUT"
token_of Method.delete = codes "DELETE"
token_of Method.connect = codes "CONNECT"
token_of Method.options = codes "OPTIONS"
token_of Method.trace = codes "TRACE"
token_of Method.patch = codes "PATCH"

pub string_to_method-token_of : (m : Method) → string_to_method (token_of m) ≡ ok m
unfolding string_to_method token_of equal
string_to_method-token_of Method.get = refl
string_to_method-token_of Method.head = refl
string_to_method-token_of _ = refl

string_to_method_sound : (s : Bytes) (m : Method) → string_to_method s ≡ ok m → s ≡ token_of m
unfolding string_to_method token_of
string_to_method_sound s m h = ground (
  arith,
  equal_iff s (codes "GET"),
  equal_iff s (codes "HEAD"),
  equal_iff s (codes "POST"),
  equal_iff s (codes "PUT"),
  equal_iff s (codes "DELETE"),
  equal_iff s (codes "CONNECT"),
  equal_iff s (codes "OPTIONS"),
  equal_iff s (codes "TRACE"),
  equal_iff s (codes "PATCH"),
)

-- A text is read as a method exactly when it is that method's token.
pub string_to_method_iff : (s : Bytes) (m : Method) → (string_to_method s ≡ ok m) ↔ (s ≡ token_of m)
string_to_method_iff s m = (string_to_method_sound s m, λ e. rw e (string_to_method-token_of m))
