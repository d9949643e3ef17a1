-- ===== src/Examples.antt =====
-- examples/simple_application/sources/main.cpp: its handlers and its routes. What the middleware
-- prints is left out, and so are the signal handlers.
pub mod Answers
pub mod Served
use fion.Prelude.{Option, some, List, [], ◌∷◌, ◌++◌, true, false, length}
use fion.Prelude.Results.{ok}
use fion.Text.{Bytes, codes, to_string}
use fion.Http.Method.{Method}
use fion.Http.Status.{StatusCode}
use fion.Http.Request.{Request}
use fion.Http.Response.{Response, new_response, set_status_code, set_header, set_body}
use fion.Routing.{Handler, Middleware, Route, plain_route}
use fion.Application.{Application, new_application, app_add_route, app_add_group, app_add_resource}

-- The response that the three handlers make, each with its type and body.
abbrev pub example_response : Bytes → Bytes → Response
example_response content_type body =
    let response = set_status_code new_response StatusCode.ok in
    let typed = set_header response (codes "Content-Type") content_type in
    set_body (set_header typed (codes "Content-Length") (to_string (length body))) body

abbrev pub hello_body : Bytes
hello_body = codes "Hello, World from Fion!"

abbrev pub hello_handler : Handler
hello_handler = record { handle = λ request. ok (example_response (codes "text/plain") hello_body) }

abbrev pub user_body : Bytes
user_body = codes "{\"users\": [\"Alice\", \"Bob\", \"Charlie\"]}"

abbrev pub user_handler : Handler
user_handler = record {
  handle = λ request. ok (example_response (codes "application/json") user_body);
}

-- The `switch` over the method.
unfoldable pub echo_method : Method → Bytes
echo_method Method.get = codes "GET"
echo_method Method.post = codes "POST"
echo_method Method.put = codes "PUT"
echo_method Method.delete = codes "DELETE"
echo_method _ = codes "UNKNOWN"

unfoldable pub echo_body : Request → Bytes
echo_body request =
    codes "Method: "
    ++ (echo_method request.method
        ++ (codes "\nPath: "
            ++ (request.url.path_to_resource ++ (codes "\nBody: " ++ request.body))))

abbrev pub echo_handler : Handler
echo_handler = record {
  handle = λ request. ok (example_response (codes "text/plain") (echo_body request));
}

abbrev pub log_middleware : Middleware
log_middleware request = ok request

abbrev pub api_routes : List Route
api_routes =
    plain_route (codes "/status") (codes "GET") (some hello_handler) []
    ∷ (plain_route (codes "/info") (codes "GET") (some user_handler) [] ∷ [])

abbrev with_route : Application → Bytes → Bytes → Handler → Application
with_route app pattern method handler =
    app_add_route app pattern method (some handler) (log_middleware ∷ []) false []

-- The application of `main`, before it runs.
unfoldable pub main_application : Application
main_application =
    let a1 = with_route new_application (codes "/") (codes "GET") hello_handler in
    let a2 = with_route a1 (codes "/users") (codes "GET") user_handler in
    let a3 = with_route a2 (codes "/echo") (codes "POST") echo_handler in
    let a4 = with_route a3 (codes "/users/:id") (codes "GET") user_handler in
    let a5 =
      app_add_route a4 (codes "/search/(.*)") (codes "GET") (some echo_handler)
        (log_middleware ∷ []) true (codes "query" ∷ []) in
    let a6 = app_add_group a5 (codes "/api") api_routes (log_middleware ∷ []) in
    app_add_resource a6 (codes "items") (some echo_handler) (log_middleware ∷ [])
