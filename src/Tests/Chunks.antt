-- ===== src/Tests/Chunks.antt =====
-- The theorems of one connection among others, at requests in chunks and in bursts.
use fion.Prelude.{zero, suc, take, length-append, append-nil, ◌*◌}
use fion.Text.Crlf.{crlf}
use fion.Network.Client.LengthLine.{length_line}
use fion.Network.Pool.Isolation.Bursts.{buffer_length, reads, long_request_waits}
use fion.Network.Pool.Isolation.Carried.{join_chunks}
use fion.Text.{to_string}
use fion.Network.Pool.Isolation.{sent_to}
use fion.Network.Pool.Isolation.Carried.{Carries, no_more, own_chunk, other_event}
use fion.Network.Pool.Isolation.Chunks.{chunked_request}
use fion.Network.Pool.Isolation.Serves.{view, serve_alone, dispatch_refines}
use fion.Prelude.{foldl}
use fion.Prelude.{List, ℕ, ◌<◌, none, some, [], ◌∷◌, ◌++◌, ◌≡◌, refl, length, arith}
use fion.Prelude.Int.{pos}
use fion.Text.{Bytes, codes}
use fion.Text.Crlf.{head_text}
use fion.Http.Response.{to_raw_response}
use fion.Network.Client.{Client}
use fion.Network.Client.LengthLine.{request_with_length}
use fion.Network.Pool.{respond}
use fion.Network.EventLoop.{dispatch}
use fion.Network.EventLoop.Batches.{Arrival, pool_callback}
use fion.Tests.Sample.{literal_match, sample_client, busy_pool}
use fion.Network.Client.{get_request_data}
use fion.Tests.Connections.{start, arrival, busy_InSync, five_found, start-IsLine, no_length_before}

-- A part of a request on one descriptor, and an event of another one.
abbrev two_arrivals : List Arrival
two_arrivals = arrival ∷ (record arrival { fd = pos 6; events = 16 } ∷ [])

dispatch_refines_example :
    ((dispatch (pool_callback literal_match) two_arrivals busy_pool).1 ≡ none)
    × (view (pos 5) (dispatch (pool_callback literal_match) two_arrivals busy_pool).0
        ≡ foldl
            (serve_alone literal_match busy_pool.router (pos 5))
            (view (pos 5) busy_pool)
            two_arrivals)
dispatch_refines_example = dispatch_refines literal_match (pos 5) two_arrivals busy_pool busy_InSync

-- A request in two chunks, with an event of another descriptor between them.
abbrev first_chunk : Bytes
first_chunk = codes "OST / HTTP/1.1\r\nContent-Length: 5\r"

abbrev last_chunk : Bytes
last_chunk = codes "\n\r\nhello"

abbrev whole_request : List Bytes
whole_request = (b'P' ∷ first_chunk) ∷ (last_chunk ∷ [])

abbrev chunk_arrivals : List Arrival
chunk_arrivals =
    record arrival { received = some (b'P' ∷ first_chunk) }
    ∷ (record arrival { fd = pos 6; events = 16 }
        ∷ (record arrival { received = some last_chunk } ∷ []))

chunks_carried : Carries (pos 5) chunk_arrivals whole_request
chunks_carried =
    own_chunk (record arrival { received = some (b'P' ∷ first_chunk) }) b'P' first_chunk refl refl
      refl refl
      (other_event (record arrival { fd = pos 6; events = 16 }) refl
        (own_chunk (record arrival { received = some last_chunk }) b'\n' (codes "\r\nhello") refl
          refl refl refl no_more))

chunked_request_example :
    ((dispatch (pool_callback literal_match) chunk_arrivals busy_pool).1 ≡ none)
    × (view (pos 5) (dispatch (pool_callback literal_match) chunk_arrivals busy_pool).0 ≡ record {
      client = none;
      log =
          to_raw_response (
            respond literal_match busy_pool.router
              (request_with_length (start ∷ []) 5 [] (codes "hello")))
          ∷ sent_to (pos 5) busy_pool.sent;
    })
unfolding to_string
chunked_request_example =
    chunked_request literal_match busy_pool (pos 5) (sample_client (pos 5)) start [] [] 5
      (codes "hello") whole_request chunk_arrivals busy_InSync five_found refl start-IsLine tt tt
      (omega arith) no_length_before refl refl chunks_carried

-- A request with a body of 4096 bytes, in one burst.
unfoldable zeros : ℕ → Bytes
zeros zero = []
zeros (suc n) = b'0' ∷ zeros n

length-zeros : (n : ℕ) → length (zeros n) ≡ n
unfolding zeros
length-zeros zero = refl
length-zeros (suc n) = omega (arith, length-zeros n)

-- The request behind its first byte.
abbrev long_rest : Bytes
long_rest =
    (codes "OST / HTTP/1.1" ++ (crlf ++ (length_line 4096 ++ (crlf ++ [])))) ++ (crlf ++ zeros 4096)

abbrev one_burst : List Bytes
one_burst = (b'P' ∷ long_rest) ∷ []

abbrev long_arrival : Arrival
long_arrival = record arrival { received = some (b'P' ∷ take 4095 long_rest) }

burst_carried : Carries (pos 5) (long_arrival ∷ []) (reads [] one_burst)
unfolding reads take
burst_carried = own_chunk long_arrival b'P' (take 4095 long_rest) refl refl refl refl no_more

burst_is_long :
    buffer_length * length one_burst
    < length (request_with_length (start ∷ []) 4096 [] (zeros 4096))
burst_is_long = omega (
  arith,
  length-append (head_text (start ∷ (length_line 4096 ∷ []))) (crlf ++ zeros 4096),
  length-zeros 4096,
)

one_burst_whole : join_chunks one_burst ≡ request_with_length (start ∷ []) 4096 [] (zeros 4096)
one_burst_whole = append-nil (b'P' ∷ long_rest)

long_request_waits_example :
    ((dispatch (pool_callback literal_match) (long_arrival ∷ []) busy_pool).1 ≡ none)
    × ((d : Client) × (view
            (pos 5)
            (dispatch (pool_callback literal_match) (long_arrival ∷ []) busy_pool).0
          ≡ record { client = some d; log = sent_to (pos 5) busy_pool.sent })
        × (get_request_data d ≡ join_chunks (reads [] one_burst)))
long_request_waits_example =
    long_request_waits literal_match busy_pool (pos 5) (sample_client (pos 5)) start [] [] 4096
      (zeros 4096) one_burst (long_arrival ∷ []) busy_InSync five_found refl start-IsLine tt tt
      (omega arith) no_length_before (length-zeros 4096) one_burst_whole burst_is_long burst_carried
