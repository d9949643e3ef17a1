-- ===== src/Http/Url.antt =====
-- headers/http/URL.hpp and sources/http/URL.cpp. The members that the source's helpers change are
-- passed on as a record; `url` and `pos`, which they change too, are returned beside it.
pub mod Print
pub mod Port
pub mod Parts
pub mod Authority
pub mod Shape
pub mod Scheme
pub mod Params
pub mod Host
pub mod RoundTrip
pub mod Embedded
use mathlib.Core.Option
use fion.Prelude.{
  ℕ, ◌+◌, ◌-◌, Bool, true, false, not, ◌&&◌, ◌||◌, Option, none, some, List, [], ◌∷◌, ◌++◌, map,
  ltb, ◌==◌, if◌then◌else◌, length, get_elem?, take, drop, foldl,
}
use fion.Prelude.Int.{ℤ, ltb_ℤ, to_uint16}
use fion.Prelude.Results.{Exception, Result, ok, err, ◌>>=◌, rethrow_invalid}
use fion.Text.{
  Bytes, codes, equal, is_empty, find_byte, find_byte_from, rfind_byte, find_text, substr,
  substr_from, get_lines, to_lower, is_digit, all_of, stoi, to_string,
}
use fion.Dict.{Dict, assign}

pub record Url : Type 0 where
  pub scheme : Bytes
  pub domain_name : Bytes
  pub port : ℕ
  pub path_to_resource : Bytes
  pub query_parameters : Dict Bytes
  pub anchor : Bytes

-- The member initialisers of both constructors.
abbrev pub fresh : Url
fresh = record {
  scheme = [];
  domain_name = [];
  port = 0;
  path_to_resource = codes "/";
  query_parameters = [];
  anchor = [];
}

unfoldable pub to_lower_copy : Bytes → Bytes
to_lower_copy s = map to_lower s

unfoldable pub default_port_for_scheme : Bytes → ℕ
default_port_for_scheme scheme =
    if equal scheme (codes "http") then 80 else if equal scheme (codes "https") then 443 else 0

-- `stoi` throws out of the range of `int`; any exception is caught and thrown as this one.
abbrev pub invalid_port : Exception
invalid_port = Exception.invalid_argument (codes "Invalid port number")

unfoldable pub catch_port : Result ℤ → Result ℤ
catch_port (ok n) = ok n
catch_port (err e) = err invalid_port

unfoldable pub check_port : ℤ → Result ℕ
check_port n =
    if ltb_ℤ n (ℤ.pos 0) || ltb_ℤ (ℤ.pos 65535) n
    then err (Exception.invalid_argument (codes "Port number out of range"))
    else ok (to_uint16 n)

unfoldable pub parse_port_number : Bytes → Result ℕ
parse_port_number port_str =
    if is_empty port_str
    then err invalid_port
    else if not (all_of is_digit port_str)
    then err invalid_port
    else catch_port (stoi port_str) >>= check_port

-- `!raw.empty() && raw[0] == '/'`
abbrev pub starts_with_slash : Bytes → Bool
starts_with_slash [] = false
starts_with_slash (c ∷ s) = c == b'/'

unfoldable pub parse_scheme : Url → Bytes → Url × ℕ
parse_scheme u raw = elim (find_text (codes "://") raw) [
  | some scheme_end ↦
      (record u { scheme = to_lower_copy (substr raw 0 scheme_end) }, scheme_end + 3)
  | none ↦
      if starts_with_slash raw
      then (record u { scheme = [] }, 0)
      else (record u { scheme = codes "http" }, 0)
]

unfoldable pub parse_fragment : Url → Bytes → ℕ → Url × Bytes
parse_fragment u url start_pos = elim (find_byte_from b'#' url start_pos) [
  | none ↦ (u, url)
  | some anchor_pos ↦
      (record u { anchor = substr_from url (anchor_pos + 1) }, substr url 0 anchor_pos)
]

-- One turn of the loop over the parameters.
unfoldable pub add_param : Dict Bytes → Bytes → Dict Bytes
add_param d param = elim (find_byte b'=' param) [
  | some equal_pos ↦ assign (substr param 0 equal_pos) (substr_from param (equal_pos + 1)) d
  | none ↦ if is_empty param then d else assign param [] d
]

unfoldable pub parse_query : Url → Bytes → ℕ → Url × Bytes
parse_query u url start_pos = elim (find_byte_from b'?' url start_pos) [
  | none ↦ (u, url)
  | some query_pos ↦ (
    record u {
      query_parameters =
          foldl add_param u.query_parameters (get_lines b'&' (substr_from url (query_pos + 1)));
    },
    substr url 0 query_pos,
  )
]

-- `(def != 0) ? def : 80`
abbrev pub port_or_80 : ℕ → ℕ
port_or_80 port = if not (port == 0) then port else 80

unfoldable pub strip_userinfo : Bytes → Bytes
strip_userinfo host_port = elim (find_byte b'@' host_port) [
  | none ↦ host_port
  | some at_pos ↦ substr_from host_port (at_pos + 1)
]

abbrev pub set_port : Url → ℕ → Url
set_port u port = record u { port = port }

-- The byte behind the closing bracket, if there is one: `ipv6End + 1 < length() && … == ':'`.
unfoldable pub ipv6_port : Url → Bytes → ℕ → Option ℕ → Result Url
ipv6_port u host_port ipv6_end none =
    ok (set_port u (port_or_80 (default_port_for_scheme u.scheme)))
ipv6_port u host_port ipv6_end (some c) =
    if c == b':'
    then (do port ← parse_port_number (substr_from host_port (ipv6_end + 2)); ok (set_port u port))
    else ok (set_port u (port_or_80 (default_port_for_scheme u.scheme)))

-- The IPv6 literal in brackets.
unfoldable pub parse_ipv6 : Url → Bytes → Result Url
parse_ipv6 u host_port = elim (find_byte b']' host_port) [
  | none ↦ err (Exception.invalid_argument (codes "Malformed IPv6 address"))
  | some ipv6_end ↦
      ipv6_port (record u { domain_name = substr host_port 0 (ipv6_end + 1) }) host_port ipv6_end
        (get_elem? host_port (ipv6_end + 1))
]

unfoldable pub parse_host : Url → Bytes → Result Url
parse_host u host_port = elim (rfind_byte b':' host_port) [
  | some colon_pos ↦ (do
    port ← parse_port_number (substr_from host_port (colon_pos + 1))
    ok (record u { domain_name = substr host_port 0 colon_pos; port = port }))
  | none ↦
      ok
        (record u { domain_name = host_port; port = port_or_80 (default_port_for_scheme u.scheme) })
]

-- What follows the removal of the user information.
unfoldable pub parse_host_port : Url → Bytes → Result Url
parse_host_port u [] = ok (record u { domain_name = []; port = 0 })
parse_host_port u (c ∷ s) = if c == b'[' then parse_ipv6 u (c ∷ s) else parse_host u (c ∷ s)

unfoldable pub split_path_start : Url → Bytes → ℕ → Url × Bytes
split_path_start u url start = elim (find_byte_from b'/' url start) [
  | some path_start ↦ (
    record u { path_to_resource = substr_from url path_start },
    substr url start (path_start - start),
  )
  | none ↦ (record u { path_to_resource = codes "/" }, substr_from url start)
]

unfoldable pub parse_authority : Url → Bytes → ℕ → Result Url
parse_authority u url start =
    let (u', host_port) = split_path_start u url start in
    parse_host_port u' (strip_userinfo host_port)

unfoldable pub parse_authority_and_path : Url → Bytes → ℕ → Result Url
parse_authority_and_path u url start =
    if starts_with_slash (drop start url)
    then ok (record u { path_to_resource = substr_from url start })
    else parse_authority u url start

-- The four steps of the constructor: scheme, fragment, query, authority and path.
unfoldable pub parse_parts : Bytes → Result Url
parse_parts raw =
    let (u1, start) = parse_scheme fresh raw in
    let (u2, url2) = parse_fragment u1 raw start in
    let (u3, url3) = parse_query u2 url2 start in parse_authority_and_path u3 url3 start

-- `URL::URL(const std::string &rawURL)`
unfoldable pub parse_url : Bytes → Result Url
parse_url raw =
    if is_empty raw
    then err (Exception.invalid_argument (codes "URL cannot be empty"))
    else parse_parts raw
