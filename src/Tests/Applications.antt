-- ===== src/Tests/Applications.antt =====
-- The theorems of the application and of the example at concrete calls.
use fion.Text.{Bytes}
use fion.Prelude.Int.{pos}
use fion.Network.EventLoop.Batches.{Arrival}
use fion.Prelude.{some, List, [], ◌∷◌, false}
use fion.Text.{codes}
use fion.Http.Version.{Version}
use fion.Application.{AppCall, route_call, resource_call, run_call, stop_call}
use fion.Tests.Sample.{echo}
use fion.Tests.Serving.{good_start}

-- A route that comes behind the start.
abbrev calls : List AppCall
calls =
    route_call (codes "/") (codes "GET") (some echo) [] false []
    ∷ (run_call (codes "0.0.0.0") good_start 2
        ∷ (resource_call (codes "items") (some echo) [] ∷ (stop_call ∷ [])))

-- A request to echo "hi", in two chunks, with an event of another descriptor between them.
abbrev echo_head : Bytes
echo_head = codes "OST /echo HTTP/1.1\r\nContent-Length: 2\r\n\r\n"

abbrev echo_chunks : List Bytes
echo_chunks = (b'P' ∷ echo_head) ∷ (codes "hi" ∷ [])

abbrev read_of : Bytes → Arrival
read_of bytes = record { fd = pos 5; events = 1; received = some bytes; send_result = pos 90 }

abbrev echo_batch : List Arrival
echo_batch =
    read_of (b'P' ∷ echo_head)
    ∷ (record (read_of []) { fd = pos 6; events = 16 } ∷ (read_of (codes "hi") ∷ []))
