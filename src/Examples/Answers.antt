-- ===== src/Examples/Answers.antt =====
-- What the example answers, from the text of a request to the text of the response.
use fion.Prelude.{◌<◌, some, [], ◌∷◌, ◌++◌, ◌≡◌, refl, ap, ◌∙◌, length, drop, append_assoc}
use fion.Prelude.Results.{ok}
use fion.Text.{
  Bytes, codes, to_string, equal, find_byte, find_byte_from, find_text, starts_with, all_of,
  is_space, u64_mod,
}
use fion.Text.Spans.{IsWord}
use fion.Http.Method.{Method}
use fion.Http.Version.{Version, version_to_string}
use fion.Http.Status.{code_of, status_code_to_string}
use fion.Dict.{assign, compare_bytes}
use fion.Http.Headers.{Headers, set, print_fields, to_raw_string}
use fion.Http.Headers.Laws.{IsOrdered}
use fion.Http.Headers.Head.{AreCleanFields}
use fion.Http.Response.{to_raw_response, status_line}
use fion.Http.Url.{Url, fresh, parse_url}
use fion.Http.Url.Scheme.{parse_url_path}
use fion.Routing.{
  Handler, Found, RegexMatch, add_route, add_group, add_resource, find_route, find_in,
  match_pattern, match_segments, split_path, split_from,
}
use fion.Network.Pool.{
  routed_method, nothing_found, respond, answer_found, attach_params, run_middleware, or_error,
}
use fion.Network.Pool.RequestText.{request_text}
use fion.Network.Pool.Routed.{start_line_of, respond_routed}
use fion.Application.{set_router, app_add_route, app_add_group, app_add_resource}
use fion.Examples.{
  log_middleware, hello_handler, echo_handler, echo_body, echo_method, main_application,
}

abbrev found_alone : Handler → Found
found_alone handler = record {
  handler = some handler;
  out_params = [];
  out_middleware = log_middleware ∷ [];
}

module _ (regex_match : RegexMatch) where
  hello_route :
      find_route regex_match main_application.router
        (codes "/")
        (routed_method Method.get)
        nothing_found
      ≡ ok (found_alone hello_handler)
  unfolding main_application app_add_route app_add_group app_add_resource set_router add_route
      add_group add_resource find_route find_in match_pattern match_segments split_path split_from
      find_byte_from find_byte equal routed_method drop
  hello_route = refl

  echo_route :
      find_route regex_match main_application.router
        (codes "/echo")
        (routed_method Method.post)
        nothing_found
      ≡ ok (found_alone echo_handler)
  unfolding main_application app_add_route app_add_group app_add_resource set_router add_route
      add_group add_resource find_route find_in match_pattern match_segments split_path split_from
      find_byte_from find_byte equal routed_method drop
  echo_route = refl

root_target : parse_url (codes "/") ≡ ok (record fresh { path_to_resource = codes "/" })
unfolding find_text starts_with find_byte
root_target = parse_url_path [] refl refl refl

root-IsWord : IsWord (codes "/")
unfolding all_of is_space
root-IsWord = ((λ e. cc e), refl)

echo_target : parse_url (codes "/echo") ≡ ok (record fresh { path_to_resource = codes "/echo" })
unfolding find_text starts_with find_byte
echo_target = parse_url_path (codes "echo") refl refl refl

pub echo-IsWord : IsWord (codes "/echo")
unfolding all_of is_space
echo-IsWord = ((λ e. cc e), refl)

hello_text :
    (m : Method) (u : Url) (v : Version) (h : Headers) (body : Bytes)
    → to_raw_response (
        or_error (
          answer_found
            (record { method = m; url = u; version = v; headers = h; body = body })
            (found_alone hello_handler)))
      ≡ codes "HTTP/1.1 200 OK\r\nConnection: close\r\nContent-Length: 23\r\n"
        ++ codes "Content-Type: text/plain\r\n\r\nHello, World from Fion!"
unfolding answer_found attach_params run_middleware to_raw_response status_line version_to_string
    to_string code_of status_code_to_string to_raw_string print_fields set assign compare_bytes
hello_text m u v h body = refl

-- What stands before the body in the echo.
abbrev pub echo_start : Bytes
echo_start = codes "Method: POST\nPath: /echo\nBody: "

echo_text :
    (u : Url) (v : Version) (h : Headers) (body : Bytes)
    → to_raw_response (
        or_error (
          answer_found
            (record {
              method = Method.post;
              url = record u { path_to_resource = codes "/echo" };
              version = v;
              headers = h;
              body = body;
            })
            (found_alone echo_handler)))
      ≡ codes "HTTP/1.1 200 OK\r\nConnection: close\r\nContent-Length: "
        ++ (to_string (length (echo_start ++ body))
            ++ (codes "\r\nContent-Type: text/plain\r\n\r\n" ++ (echo_start ++ body)))
unfolding answer_found attach_params run_middleware to_raw_response status_line version_to_string
    to_string code_of status_code_to_string to_raw_string print_fields set assign compare_bytes
    echo_body echo_method
echo_text u v h body =
    ap (λ (s : Bytes). codes "HTTP/1.1 200 OK\r\nConnection: close\r\nContent-Length: " ++ s)
      (append_assoc (to_string (length (echo_start ++ body)))
        (codes "\r\nContent-Type: text/plain\r\n") (codes "\r\n" ++ (echo_start ++ body)))

hello_answers :
    (regex_match : RegexMatch) (v : Version) (h : Headers) (body : Bytes)
    → IsOrdered h
    → AreCleanFields h.headers
    → length (request_text (start_line_of Method.get (codes "/") v) h body) < u64_mod
    → to_raw_response (
        respond regex_match main_application.router
          (request_text (start_line_of Method.get (codes "/") v) h body))
      ≡ codes "HTTP/1.1 200 OK\r\nConnection: close\r\nContent-Length: 23\r\n"
        ++ codes "Content-Type: text/plain\r\n\r\nHello, World from Fion!"
hello_answers regex_match v h body s c small =
    ap to_raw_response (
      respond_routed regex_match main_application.router Method.get (codes "/")
        (record fresh { path_to_resource = codes "/" }) v h body (found_alone hello_handler)
        root-IsWord root_target s c small (hello_route regex_match))
    ∙ hello_text Method.get (record fresh { path_to_resource = codes "/" }) v h body

-- The bytes of the response to `POST /echo`.
abbrev pub echo_bytes : Bytes → Bytes
echo_bytes body =
    codes "HTTP/1.1 200 OK\r\nConnection: close\r\nContent-Length: "
    ++ (to_string (length (echo_start ++ body))
        ++ (codes "\r\nContent-Type: text/plain\r\n\r\n" ++ (echo_start ++ body)))

pub echo_answers :
    (regex_match : RegexMatch) (v : Version) (h : Headers) (body : Bytes)
    → IsOrdered h
    → AreCleanFields h.headers
    → length (request_text (start_line_of Method.post (codes "/echo") v) h body) < u64_mod
    → to_raw_response (
        respond regex_match main_application.router
          (request_text (start_line_of Method.post (codes "/echo") v) h body))
      ≡ echo_bytes body
echo_answers regex_match v h body s c small =
    ap to_raw_response (
      respond_routed regex_match main_application.router Method.post (codes "/echo")
        (record fresh { path_to_resource = codes "/echo" }) v h body (found_alone echo_handler)
        echo-IsWord echo_target s c small (echo_route regex_match))
    ∙ echo_text fresh v h body

-- The example with any regular expressions: to a request text of fewer than 2^64 bytes with ordered
-- header fields with no ": " in a name and no line end, any version and any body, `GET /` is answered
-- by the greeting, and `POST /echo` by what it was and by its body, with the length of that text;
-- these are the bytes of the responses.
pub main_answers :
    (regex_match : RegexMatch) (v : Version) (h : Headers) (body : Bytes)
    → IsOrdered h
    → AreCleanFields h.headers
    → length (request_text (start_line_of Method.get (codes "/") v) h body) < u64_mod
    → length (request_text (start_line_of Method.post (codes "/echo") v) h body) < u64_mod
    → (to_raw_response (
          respond regex_match main_application.router
            (request_text (start_line_of Method.get (codes "/") v) h body))
        ≡ codes "HTTP/1.1 200 OK\r\nConnection: close\r\nContent-Length: 23\r\n"
          ++ codes "Content-Type: text/plain\r\n\r\nHello, World from Fion!")
      × (to_raw_response (
            respond regex_match main_application.router
              (request_text (start_line_of Method.post (codes "/echo") v) h body))
          ≡ echo_bytes body)
main_answers regex_match v h body s c small small' =
    (hello_answers regex_match v h body s c small, echo_answers regex_match v h body s c small')
