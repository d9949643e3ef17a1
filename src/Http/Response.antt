-- ===== src/Http/Response.antt =====
-- headers/http/Response.hpp and sources/http/Response.cpp: the response.
pub mod Framing
use fion.Prelude.{ℕ, [], ◌∷◌, ◌++◌}
use fion.Text.{Bytes, codes, to_string}
use fion.Http.Version.{Version, version_to_string}
use fion.Http.Status.{StatusCode, code_of, status_code_to_string}
use fion.Http.Headers.{Headers, empty_headers, set, to_raw_string}

pub record Response : Type 0 where
  pub version : Version
  pub status_code : StatusCode
  pub headers : Headers
  pub body : Bytes

-- `Response::Response`
abbrev pub new_response : Response
new_response = record {
  version = Version.http_1_1;
  status_code = StatusCode.ok;
  headers = empty_headers;
  body = [];
}

abbrev pub set_version : Response → Version → Response
set_version r version = record r { version = version }

abbrev pub set_status_code : Response → StatusCode → Response
set_status_code r status_code = record r { status_code = status_code }

abbrev pub set_header : Response → Bytes → Bytes → Response
set_header r key value = record r { headers = set r.headers key value }

abbrev pub set_body : Response → Bytes → Response
set_body r body = record r { body = body }

unfoldable pub status_line : Response → Bytes
status_line r =
    version_to_string r.version
    ++ (codes " "
        ++ (to_string (code_of r.status_code)
            ++ (codes " " ++ status_code_to_string r.status_code)))

unfoldable pub to_raw_response : Response → Bytes
to_raw_response r =
    status_line r ++ (codes "\r\n" ++ (to_raw_string r.headers ++ (codes "\r\n" ++ r.body)))
