-- ===== src/Examples/Served.antt =====
-- The example from a new connection to the bytes that it is sent.
use fion.Prelude.{ℕ, true, none, List, [], ◌∷◌, length}
use fion.Prelude.Int.{ℤ}
use fion.Text.{Bytes, codes, to_string}
use fion.Http.Method.{Method}
use fion.Http.Version.{Version}
use fion.Http.Headers.{Headers}
use fion.Network.Pool.Events.{Pool, pool_add_client}
use fion.Network.Pool.Isolation.Serves.{Connection}
use fion.Network.Pool.RequestText.{request_text}
use fion.Network.Pool.Routed.{start_line_of}
use fion.Network.Server.{new_pool}
use fion.Examples.{main_application}

-- The only field of the request.
abbrev pub length_field : ℕ → Headers
length_field n = record { headers = (codes "Content-Length", to_string n) ∷ [] }

abbrev pub echo_line : Version → Bytes
echo_line v = start_line_of Method.post (codes "/echo") v

-- The pool of the example with a new connection.
abbrev pub joined : ℤ → Pool
joined fd = (pool_add_client (new_pool main_application.router) fd true).0

abbrev pub echo_request : Version → Bytes → Bytes
echo_request v body = request_text (echo_line v) (length_field (length body)) body

-- A connection that is closed.
abbrev alone : List Bytes → Connection
alone log = record { client = none; log = log }
