-- ===== src/Network/Pool/Isolation/Chunks.antt =====
-- A request that comes in pieces, among the events of other connections.
use fion.Prelude.{
  ℕ, ◌<◌, Option, none, some, List, [], ◌∷◌, ◌++◌, ◌≡◌, sym, ap, ◌∙◌, arith, length, length-append,
  foldl, All,
}
use fion.Prelude.Int.{ℤ}
use fion.Text.{Bytes, codes, u64_mod}
use fion.Text.Find.{LacksText}
use fion.Text.Crlf.{crlf, IsLine, head_text}
use fion.Http.Response.{to_raw_response}
use fion.Routing.{RegexMatch}
use fion.Network.Client.{Client, get_request_data, content_length_name}
use fion.Network.Client.Ready.{is_text_ready-length}
use fion.Network.Client.LengthLine.{request_with_length, length_line}
use fion.Network.Client.Beginnings.{beginning_not_ready}
use fion.Network.Pool.{respond}
use fion.Network.Pool.Events.{Pool}
use fion.Network.Pool.Watched.{InSync}
use fion.Network.Pool.Settled.{client_at}
use fion.Network.Pool.Isolation.{sent_to}
use fion.Network.Pool.Isolation.Serves.{view, serve_alone, dispatch_refines}
use fion.Network.EventLoop.{dispatch}
use fion.Network.EventLoop.Batches.{Arrival, pool_callback}
use fion.Network.Pool.Isolation.Carried.{Carries, join_chunks, carried}

some_text : (head body s : Bytes) → s ≡ head ++ (crlf ++ body) → 0 < length s
some_text head body s e = omega (arith, ap length e, length-append head (crlf ++ body))

-- A pool that is in sync, a client of it that has sent nothing yet, and a request of a start line, field
-- lines with one "Content-Length: n" that is the first place of that name, n below 2^64, a blank
-- line and n bytes of a body. If the read events of the client's descriptor bring this request in
-- any chunks that are not empty, among any events of other descriptors: no event throws, and behind
-- them the connection is closed and was sent one text more, the answer to the whole request.
pub chunked_request :
    (regex_match : RegexMatch) (p : Pool) (fd : ℤ) (c : Client) (start : Bytes)
    (before after : List Bytes) (n : ℕ) (body : Bytes) (chunks : List Bytes) (batch : List Arrival)
    → InSync p
    → client_at fd p ≡ some c
    → get_request_data c ≡ []
    → IsLine start
    → All IsLine before
    → All IsLine after
    → n < u64_mod
    → LacksText content_length_name (head_text (start ∷ before) ++ codes "Content-Length")
    → length body ≡ n
    → join_chunks chunks ≡ request_with_length (start ∷ before) n after body
    → Carries fd batch chunks
    → ((dispatch (pool_callback regex_match) batch p).1 ≡ none)
      × (view fd (dispatch (pool_callback regex_match) batch p).0 ≡ record {
        client = none;
        log =
            to_raw_response
              (respond regex_match p.router (request_with_length (start ∷ before) n after body))
            ∷ sent_to fd p.sent;
      })
chunked_request regex_match p fd c start before after n body chunks batch s found empty hs hb ha
      small first full whole carries =
    let t = request_with_length (start ∷ before) n after body in
    let (quiet, served) = dispatch_refines regex_match fd batch p s in
    (
      quiet,
      served
          ∙ ap
              (λ (o : Option Client).
                foldl (serve_alone regex_match p.router fd)
                  (record { client = o; log = sent_to fd p.sent }) batch)
              found
          ∙ carried regex_match p.router fd t
              (λ u r more same.
                beginning_not_ready start before after n hs hb ha small first body u r full more
                  (sym same))
              (is_text_ready-length start before after n body hs hb ha small first
                ∙ ground (arith, full))
              batch chunks c (sent_to fd p.sent) carries
              (some_text (head_text (start ∷ (before ++ (length_line n ∷ after)))) body _ whole)
              (ap (λ (d : Bytes). d ++ join_chunks chunks) empty ∙ whole),
    )
