-- ===== src/Network/Pool.antt =====
-- headers/network/Pool.hpp and sources/network/Pool.cpp: a pool answers the requests of its clients.
-- Its thread is that of Lifecycle; here an event is a call of `handle_client_event`.
pub mod RequestText
pub mod Respond
pub mod Routed
pub mod Events
pub mod Watched
pub mod Settled
pub mod Adding
pub mod Answer
pub mod Lifecycle
pub mod Isolation
use fion.Prelude.{
  ℕ, zero, suc, ◌+◌, ◌-◌, ◌%◌, Bool, true, false, ◌||◌, not, Option, none, some, List, [], ◌∷◌,
  ◌++◌, ltb, leb, ◌==◌, if◌then◌else◌, length,
}
use fion.Prelude.Results.{Exception, Result, ok, err, ◌>>=◌}
use fion.Prelude.Int.{ℤ, pos, negsuc, ltb_ℤ, eq_ℤ}
use fion.Text.{Bytes, codes, find_text, substr, substr_from, u64_mod}
use fion.Dict.{Dict}
use fion.Http.Method.{Method}
use fion.Http.Status.{StatusCode}
use fion.Http.Headers.{set}
use fion.Http.Request.{Request, new_request}
use fion.Http.Response.{Response, new_response, set_status_code, set_body, set_header}
use fion.Routing.{Handler, Middleware, Router, Found, RegexMatch, find_route}
use fion.Network.Client.{
  Client, ClientState, read_request, write_response, prepare_response, set_state, get_request_data,
  is_request_ready,
}
use fion.Network.ConnectionPool.{ConnectionPool, add_client, remove_client, get_client, set_client}

-- The answers that `process_request` makes itself.
abbrev pub bad_request : Response
bad_request = set_body (set_status_code new_response StatusCode.bad_request) (codes "Bad Request")

abbrev pub not_found : Response
not_found =
    set_header (set_body (set_status_code new_response StatusCode.not_found) (codes "Not Found"))
      (codes "Connection") (codes "close")

abbrev pub server_error : Response
server_error =
    set_header
      (set_body (set_status_code new_response StatusCode.internal_server_error)
        (codes "Internal Server Error"))
      (codes "Connection") (codes "close")

-- The `switch` over the method.
unfoldable pub routed_method : Method → Bytes
routed_method Method.get = codes "GET"
routed_method Method.post = codes "POST"
routed_method Method.put = codes "PUT"
routed_method Method.delete = codes "DELETE"
routed_method _ = codes "GET"

-- The loop that sets a header for each parameter.
unfoldable pub attach_params : Dict Bytes → Request → Request
attach_params [] request = request
attach_params ((key, value) ∷ rest) request =
    attach_params rest
      (record request { headers = set request.headers (codes "x-param-" ++ key) value })

-- The loop that runs the middleware.
unfoldable pub run_middleware : List Middleware → Request → Result Request
run_middleware [] request = ok request
run_middleware (mw ∷ rest) request = mw request >>= run_middleware rest

abbrev pub nothing_found : Found
nothing_found = record { handler = none; out_params = []; out_middleware = [] }

-- From the result of the routing on. The handler returns no null pointer.
unfoldable pub answer_found : Request → Found → Result Response
answer_found request found = elim found.handler [
  | none ↦ ok not_found
  | some h ↦ do
    changed ← run_middleware found.out_middleware (attach_params found.out_params request)
    response ← h.handle changed
    ok (set_header response (codes "Connection") (codes "close"))
]

-- `catch (const std::exception &e)`
abbrev pub or_error : Result Response → Response
or_error (ok response) = response
or_error (err e) = server_error

module _ (regex_match : RegexMatch) (router : Router) where
  -- From the parts of the request on.
  unfoldable pub answer_parts : Bytes → Bytes → Bytes → Result Response
  answer_parts start_line headers body = do
    request ← new_request start_line headers body
    found ←
        find_route regex_match router request.url.path_to_resource (routed_method request.method)
          nothing_found
    answer_found request found

  -- The body of the `try`: the count of the headers' text is a `size_t`.
  unfoldable pub answer : Bytes → Result Response
  answer request_data = elim (find_text (codes "\r\n") request_data) [
    | none ↦ ok bad_request
    | some first_crlf ↦ elim (find_text (codes "\r\n\r\n") request_data) [
      | none ↦ ok bad_request
      | some headers_end ↦
          answer_parts (substr request_data 0 first_crlf)
            (substr request_data (first_crlf + 2)
              ((headers_end + u64_mod + u64_mod - first_crlf - 2) % u64_mod))
            (substr_from request_data (headers_end + 4))
    ]
  ]

  unfoldable pub respond : Bytes → Response
  respond request_data = or_error (answer request_data)

  unfoldable pub process_request : Client → Client
  process_request client = prepare_response client (respond (get_request_data client))
