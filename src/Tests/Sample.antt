-- ===== src/Tests/Sample.antt =====
-- The values that the tests use.
use fion.Prelude.{none, some, [], ◌∷◌, if◌then◌else◌}
use fion.Prelude.Results.{ok}
use fion.Prelude.Int.{ℤ, pos}
use fion.Text.{Bytes, codes, equal}
use fion.Http.Headers.{Headers}
use fion.Http.Response.{new_response, set_body}
use fion.Routing.{Handler, Route, Router, RegexMatch, plain_route}
use fion.Network.Buffer.{new_buffer}
use fion.Network.Client.{Client, ClientState}
use fion.Network.ConnectionPool.{empty_pool}
use fion.Network.Pool.Events.{Pool}

-- A matcher of patterns that hold no operator: a text matches itself, without groups.
abbrev pub literal_match : RegexMatch
literal_match pattern text = ok (if equal pattern text then some [] else none)

abbrev pub echo : Handler
echo = record { handle = λ request. ok (set_body new_response request.body) }

abbrev pub user_pattern : Bytes
user_pattern = codes "/users/:id"

abbrev pub user_path : Bytes
user_path = codes "/users/7"

abbrev pub user_route : Route
user_route = plain_route user_pattern (codes "POST") (some echo) []

abbrev pub other_route : Route
other_route = plain_route user_pattern (codes "GET") none []

abbrev pub user_router : Router
user_router = record { routes = other_route ∷ user_route ∷ [] }

abbrev pub host_headers : Headers
host_headers = record { headers = (codes "Host", codes "x") ∷ [] }

abbrev pub sample_client : ℤ → Client
sample_client fd = record {
  fd = fd;
  request_buffer = new_buffer;
  response_buffer = new_buffer;
  state = ClientState.reading_request;
}

abbrev pub idle_pool : Pool
idle_pool = record {
  router = user_router;
  connections = empty_pool;
  watched = [];
  closed_fds = [];
  sent = [];
}

-- One client, on descriptor 5.
abbrev pub busy_pool : Pool
busy_pool = record idle_pool {
  connections = record { clients = (pos 5, sample_client (pos 5)) ∷ [] };
  watched = pos 5 ∷ [];
}
