-- ===== src/Tests/Messages.antt =====
-- The theorems of the messages at concrete messages.
use fion.Http.Headers.Refines.{
  HeaderCall, set_call, remove_call, get_call, Fields, Holds, run_headers, run_fields,
  run_headers_refines,
}
use fion.Http.Headers.{get_optional}
use fion.Dict.{lookup}
use fion.Prelude.{none, List}
use fion.Prelude.{ℕ, ◌+◌, some, [], ◌∷◌, ◌++◌, ◌≡◌, refl, length}
use fion.Prelude.Results.{Exception, ok, err}
use fion.Text.{
  Bytes, codes, equal, find_byte, find_text, starts_with, substr, substr_from, next_word, is_space,
  all_of, take_while, drop_while,
}
use fion.Text.Spans.{IsWord}
use fion.Text.Crlf.{crlf, crlf_crlf}
use fion.Http.Version.{Version, version_to_string}
use fion.Http.Method.{Method, string_to_method}
use fion.Http.Method.Laws.{token_of}
use fion.Http.Headers.{empty_headers, parse_from_raw, to_raw_string}
use fion.Http.Headers.Laws.{IsOrdered}
use fion.Http.Headers.RoundTrip.{AreFields, parse_from_raw-to_raw_string}
use fion.Http.Headers.Head.{AreCleanFields}
use fion.Http.Url.{fresh, parse_url}
use fion.Http.Url.Scheme.{parse_url_path}
use fion.Http.Request.{Request, words_of, parse_words, parse_start_line, new_request}
use fion.Http.Request.StartLine.{new_request_line, new_request_sound}
use fion.Http.Request.Errors.{new_request_error}
use fion.Http.Response.{Response, new_response, set_body, status_line, to_raw_response}
use fion.Http.Response.Framing.{response_framing}
use fion.Tests.Sample.{host_headers, user_path}

pub host_IsOrdered : IsOrdered host_headers
host_IsOrdered = (tt, tt)

pub host_AreCleanFields : AreCleanFields host_headers.headers
unfolding find_byte find_text starts_with
host_AreCleanFields = (((refl, refl, refl), refl, refl), tt)

host_AreFields : AreFields host_headers.headers
unfolding find_byte find_text starts_with
host_AreFields = ((refl, refl, refl), tt)

parse_from_raw-to_raw_string_example :
    parse_from_raw empty_headers (to_raw_string host_headers ++ (codes "\r\n" ++ codes "body"))
    ≡ host_headers
parse_from_raw-to_raw_string_example =
    parse_from_raw-to_raw_string host_headers (codes "body") host_IsOrdered host_AreFields

abbrev hello : Response
hello = set_body (record new_response { headers = host_headers }) (codes "a\r\n\r\nb")

response_framing_example :
    (i : ℕ) × (find_text crlf (to_raw_response hello) ≡ some (length (status_line hello)))
    × (substr (to_raw_response hello) 0 (length (status_line hello)) ≡ status_line hello)
    × (parse_from_raw empty_headers
          (substr_from (to_raw_response hello) (length (status_line hello) + 2))
        ≡ hello.headers)
    × (find_text crlf_crlf (to_raw_response hello) ≡ some i)
    × (substr_from (to_raw_response hello) (i + 4) ≡ hello.body)
response_framing_example = response_framing hello host_IsOrdered host_AreCleanFields

bad_message :
    new_request (codes "FETCH / HTTP/1.1") [] []
    ≡ err (Exception.invalid_argument (codes "Invalid HTTP Request"))
unfolding new_request parse_start_line parse_words words_of next_word is_space string_to_method
    equal take_while drop_while
bad_message = refl

new_request_error_example :
    (Exception.invalid_argument (codes "Invalid HTTP Request")
      ≡ Exception.invalid_argument (codes "Invalid HTTP Request"))
    × ((x : Exception) × (parse_start_line (codes "FETCH / HTTP/1.1") ≡ err x))
new_request_error_example =
    new_request_error (codes "FETCH / HTTP/1.1") [] []
      (Exception.invalid_argument (codes "Invalid HTTP Request")) bad_message

pub user_target : parse_url user_path ≡ ok (record fresh { path_to_resource = user_path })
unfolding find_text starts_with find_byte
user_target = parse_url_path (codes "users/7") refl refl refl

pub user_IsWord : IsWord user_path
unfolding all_of is_space
user_IsWord = ((λ e. cc e), refl)

abbrev user_request : Request
user_request = record {
  method = Method.get;
  url = record fresh { path_to_resource = user_path };
  version = Version.http_1_0;
  headers = parse_from_raw empty_headers (codes "Host: x");
  body = codes "hi";
}

abbrev user_line : Bytes
user_line =
    token_of Method.get ++ (b' ' ∷ (user_path ++ (b' ' ∷ version_to_string Version.http_1_0)))

user_line_read : new_request user_line (codes "Host: x") (codes "hi") ≡ ok user_request
user_line_read =
    new_request_line Method.get user_path (record fresh { path_to_resource = user_path })
      Version.http_1_0 (codes "Host: x") (codes "hi") user_IsWord user_target

new_request_sound_example :
    ((words_of user_line).raw_method ≡ token_of user_request.method)
    × (parse_url (words_of user_line).raw_url ≡ ok user_request.url)
    × ((words_of user_line).raw_version ≡ version_to_string user_request.version)
    × (user_request.headers ≡ parse_from_raw empty_headers (codes "Host: x"))
    × (user_request.body ≡ codes "hi")
new_request_sound_example =
    new_request_sound user_line (codes "Host: x") (codes "hi") user_request user_line_read

-- Calls

abbrev header_calls : List HeaderCall
header_calls =
    set_call (codes "Host") (codes "x")
    ∷ (get_call (codes "Host") ∷ (remove_call (codes "Host") ∷ (get_call (codes "Host") ∷ [])))

abbrev no_fields : Fields
no_fields j = none

empty-Holds : Holds empty_headers no_fields
unfolding get_optional lookup
empty-Holds j = refl

run_headers_refines_example :
    Holds (run_headers header_calls empty_headers).0 (run_fields header_calls no_fields).0
    × ((run_headers header_calls empty_headers).1 ≡ (run_fields header_calls no_fields).1)
run_headers_refines_example = run_headers_refines header_calls empty_headers no_fields empty-Holds
