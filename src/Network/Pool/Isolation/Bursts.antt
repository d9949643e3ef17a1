-- ===== src/Network/Pool/Isolation/Bursts.antt =====
-- `recv` into the buffer of `Client::readRequest`, from a socket that is watched edge-triggered: one
-- event for a burst of bytes, and one `recv` for an event.
use fion.Prelude.{
  ℕ, ◌*◌, ◌<◌, ◌≤◌, true, false, Option, none, some, List, [], ◌∷◌, ◌++◌, ◌≡◌, refl, sym, ap, ◌∙◌,
  arith, length, length-append, length-take, append_assoc, append-nil, take, drop, take-append-drop,
  foldl, All, on_false,
}
use fion.Prelude.Int.{ℤ}
use fion.Text.{Bytes, codes, u64_mod}
use fion.Text.Find.{LacksText}
use fion.Text.Crlf.{IsLine, head_text}
use fion.Routing.{RegexMatch, Router}
use fion.Network.Client.{Client, is_text_ready, get_request_data, content_length_name}
use fion.Network.Client.Ready.{is_text_ready-length}
use fion.Network.Client.LengthLine.{request_with_length}
use fion.Network.Client.Beginnings.{beginning_not_ready}
use fion.Network.Pool.Events.{Pool}
use fion.Network.Pool.Watched.{InSync}
use fion.Network.Pool.Settled.{client_at}
use fion.Network.Pool.Answer.{with_bytes}
use fion.Network.Pool.Isolation.{sent_to}
use fion.Network.Pool.Isolation.Serves.{Connection, view, serve_alone, dispatch_refines}
use fion.Network.Pool.Isolation.Carried.{
  Carries, no_more, own_chunk, other_event, join_chunks, early_chunk,
}
use fion.Network.EventLoop.{dispatch}
use fion.Network.EventLoop.Batches.{Arrival, pool_callback}

-- `char buffer[4096]`
abbrev pub buffer_length : ℕ
buffer_length = 4096

-- What the events read when the bursts come, and bytes are left in the socket before them.
unfoldable pub reads : Bytes → List Bytes → List Bytes
reads left [] = []
reads left (burst ∷ rest) =
    take buffer_length (left ++ burst) ∷ reads (drop buffer_length (left ++ burst)) rest

-- What is left in the socket behind them.
unfoldable pub left_unread : Bytes → List Bytes → Bytes
left_unread left [] = left
left_unread left (burst ∷ rest) = left_unread (drop buffer_length (left ++ burst)) rest

reads-all :
    (bursts : List Bytes) (left : Bytes)
    → join_chunks (reads left bursts) ++ left_unread left bursts ≡ left ++ join_chunks bursts
unfolding reads left_unread
reads-all [] left = sym (append-nil left)
reads-all (burst ∷ rest) left =
    append_assoc (take buffer_length (left ++ burst)) _ _
    ∙ ap (λ (s : Bytes). take buffer_length (left ++ burst) ++ s)
        (reads-all rest (drop buffer_length (left ++ burst)))
    ∙ sym (append_assoc (take buffer_length (left ++ burst)) _ _)
    ∙ ap (λ (s : Bytes). s ++ join_chunks rest) (take-append-drop buffer_length (left ++ burst))
    ∙ append_assoc left burst (join_chunks rest)

length-reads :
    (bursts : List Bytes) (left : Bytes)
    → length (join_chunks (reads left bursts)) ≤ buffer_length * length bursts
unfolding reads
length-reads [] left = omega arith
length-reads (burst ∷ rest) left = omega (
  arith,
  length-append (take buffer_length (left ++ burst))
      (join_chunks (reads (drop buffer_length (left ++ burst)) rest)),
  length-take buffer_length (left ++ burst),
  length-reads rest (drop buffer_length (left ++ burst)),
)

module _ (regex_match : RegexMatch) (router : Router) (fd : ℤ) (t : Bytes)
    (early : (s r : Bytes) → 0 < length r → s ++ r ≡ t → is_text_ready s ≡ false)
    (whole : is_text_ready t ≡ true) where
  -- A beginning of the text leaves a client that waits.
  waiting :
      (batch : List Arrival) (chunks : List Bytes) (c : Client) (log : List Bytes) (r : Bytes)
      → Carries fd batch chunks
      → 0 < length r
      → (get_request_data c ++ join_chunks chunks) ++ r ≡ t
      → (d : Client) × (foldl
            (serve_alone regex_match router fd)
            (record { client = some c; log = log })
            batch
          ≡ record { client = some d; log = log })
        × (get_request_data d ≡ get_request_data c ++ join_chunks chunks)
  waiting batch chunks c log r no_more more ends = (c, refl, sym (append-nil (get_request_data c)))
  waiting batch chunks c log r (other_event a {rest} other later) more ends =
      let (d, served, held) = waiting rest chunks c log r later more ends in
      (
        d,
        ap (λ (v : Connection). foldl (serve_alone regex_match router fd) v rest)
              (on_false _ _ other)
            ∙ served,
        held,
      )
  waiting batch chunks c log r
        (own_chunk a {rest} b bytes {chunks = others} own healthy readable here later) more ends =
      let data_read = get_request_data c ++ (b ∷ bytes) in
      let behind = append_assoc (get_request_data c) (b ∷ bytes) (join_chunks others) in
      let ends' = ap (λ (s : Bytes). s ++ r) behind ∙ ends in
      let (d, served, held) =
        waiting rest others (with_bytes c (b ∷ bytes)) log r later more ends' in
      (
        d,
        ap (λ (v : Connection). foldl (serve_alone regex_match router fd) v rest)
              (early_chunk regex_match router fd t early whole c a b bytes (join_chunks others ++ r)
                log own healthy readable here
                (omega (arith, more, length-append (join_chunks others) r))
                (sym (append_assoc data_read (join_chunks others) r) ∙ ends'))
            ∙ served,
        held ∙ behind,
      )

some_left :
    (a b t : Bytes) (limit : ℕ) → a ++ b ≡ t → length a ≤ limit → limit < length t → 0 < length b
some_left a b t limit parts short long =
    omega (arith, ap length parts, length-append a b, short, long)

-- A pool that is in sync, a client of it that has sent nothing yet, and a request of a start line, field
-- lines with one "Content-Length: n" that is the first place of that name, n below 2^64, a blank
-- line and n bytes of a body. The request comes in bursts, and the events of the client's descriptor,
-- among any events of other descriptors, are one read event for each burst, which reads what fits the
-- buffer. If the request is longer than the buffer times the number of bursts: no event throws, and
-- behind them, with the whole request in the machine, the client waits for more, holds what was read,
-- and was sent nothing.
pub long_request_waits :
    (regex_match : RegexMatch) (p : Pool) (fd : ℤ) (c : Client) (start : Bytes)
    (before after : List Bytes) (n : ℕ) (body : Bytes) (bursts : List Bytes) (batch : List Arrival)
    → InSync p
    → client_at fd p ≡ some c
    → get_request_data c ≡ []
    → IsLine start
    → All IsLine before
    → All IsLine after
    → n < u64_mod
    → LacksText content_length_name (head_text (start ∷ before) ++ codes "Content-Length")
    → length body ≡ n
    → join_chunks bursts ≡ request_with_length (start ∷ before) n after body
    → buffer_length * length bursts < length (request_with_length (start ∷ before) n after body)
    → Carries fd batch (reads [] bursts)
    → ((dispatch (pool_callback regex_match) batch p).1 ≡ none)
      × ((d : Client) × (view fd (dispatch (pool_callback regex_match) batch p).0
            ≡ record { client = some d; log = sent_to fd p.sent })
          × (get_request_data d ≡ join_chunks (reads [] bursts)))
long_request_waits regex_match p fd c start before after n body bursts batch s found empty hs hb ha
      small first full whole long carries =
    let t = request_with_length (start ∷ before) n after body in
    let (quiet, served) = dispatch_refines regex_match fd batch p s in
    let parts = reads-all bursts [] ∙ whole in
    let (d, waits, held) =
      waiting regex_match p.router fd t
        (λ u r more same.
          beginning_not_ready start before after n hs hb ha small first body u r full more
            (sym same))
        (is_text_ready-length start before after n body hs hb ha small first ∙ ground (arith, full))
        batch (reads [] bursts) c (sent_to fd p.sent) (left_unread [] bursts) carries
        (some_left (join_chunks (reads [] bursts)) (left_unread [] bursts) t
          (buffer_length * length bursts) parts (length-reads bursts []) long)
        (ap (λ (u : Bytes). (u ++ join_chunks (reads [] bursts)) ++ left_unread [] bursts) empty
          ∙ parts) in
    (
      quiet,
      (
        d,
        served
            ∙ ap
                (λ (o : Option Client).
                  foldl (serve_alone regex_match p.router fd)
                    (record { client = o; log = sent_to fd p.sent }) batch)
                found
            ∙ waits,
        held ∙ ap (λ (u : Bytes). u ++ join_chunks (reads [] bursts)) empty,
      ),
    )
