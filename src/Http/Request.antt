-- ===== src/Http/Request.antt =====
-- headers/http/Request.hpp and sources/http/Request.cpp: the request.
pub mod StartLine
pub mod Errors
use fion.Prelude.{◌∷◌, []}
use fion.Prelude.Results.{Result, ok, err, ◌>>=◌, rethrow_invalid}
use fion.Text.{Bytes, codes, next_word}
use fion.Http.Version.{Version, string_to_version}
use fion.Http.Method.{Method, string_to_method}
use fion.Http.Headers.{Headers, empty_headers, parse_from_raw}
use fion.Http.Url.{Url, parse_url}

pub record Request : Type 0 where
  pub method : Method
  pub url : Url
  pub version : Version
  pub headers : Headers
  pub body : Bytes

-- The members that the start line sets.
pub record StartLineParts : Type 0 where
  pub line_method : Method
  pub line_url : Url
  pub line_version : Version

-- `stream >> rawMethod >> rawURL >> rawVersion;`
pub record Words : Type 0 where
  pub raw_method : Bytes
  pub raw_url : Bytes
  pub raw_version : Bytes

unfoldable pub words_of : Bytes → Words
words_of line =
    let (m, rest) = next_word line in
    let (u, rest2) = next_word rest in
    let (v, rest3) = next_word rest2 in record { raw_method = m; raw_url = u; raw_version = v }

unfoldable pub parse_words : Words → Result StartLineParts
parse_words w = do
  m ← rethrow_invalid (codes "Invalid HTTP Method") (string_to_method w.raw_method)
  u ← rethrow_invalid (codes "Invalid URL") (parse_url w.raw_url)
  v ← rethrow_invalid (codes "Invalid HTTP Version") (string_to_version w.raw_version)
  ok (record { line_method = m; line_url = u; line_version = v })

unfoldable pub parse_start_line : Bytes → Result StartLineParts
parse_start_line line = parse_words (words_of line)

-- `Request::Request`: the headers start empty, and their reader throws nothing.
unfoldable pub new_request : Bytes → Bytes → Bytes → Result Request
new_request start_line raw_headers raw_body = do
  p ← rethrow_invalid (codes "Invalid HTTP Request") (parse_start_line start_line)
  h ← rethrow_invalid (codes "Invalid HTTP Headers") (ok (parse_from_raw empty_headers raw_headers))
  b ← rethrow_invalid (codes "Invalid HTTP Body") (ok raw_body)
  ok (record {
    method = p.line_method;
    url = p.line_url;
    version = p.line_version;
    headers = h;
    body = b;
  })
