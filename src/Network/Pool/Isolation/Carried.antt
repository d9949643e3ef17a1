-- ===== src/Network/Pool/Isolation/Carried.antt =====
-- What becomes of a connection whose events bring the chunks of a text.
use fion.Prelude.{
  ℕ, ◌<◌, true, false, Option, none, some, List, [], ◌∷◌, ◌++◌, ◌≡◌, refl, sym, ap, ◌∙◌, arith,
  length, append_assoc, append-nil, foldl, if◌then◌else◌, ltb, Bool-cases, inl, inr, on_true,
  on_false,
}
use fion.Prelude.Int.{ℤ, eq_ℤ}
use fion.Text.{Bytes, is_empty}
use fion.Http.Response.{to_raw_response}
use fion.Routing.{RegexMatch, Router}
use fion.Network.Client.{Client, read_request, is_request_ready, is_text_ready, get_request_data}
use fion.Network.Pool.{respond}
use fion.Network.Pool.Events.{has_event, event_read, event_error_hangup}
use fion.Network.Pool.Answer.{with_bytes, some_bytes_read}
use fion.Network.Pool.Isolation.{read_step, connection_step}
use fion.Network.Pool.Isolation.Serves.{Connection, serve_alone}
use fion.Network.EventLoop.Batches.{Arrival}

-- The read events of a descriptor bring these chunks, none of them empty; any other events are those of
-- other descriptors.
pub data Carries (fd : ℤ) : List Arrival → List Bytes → Type 0 where
  no_more : Carries fd [] []
  own_chunk :
      (a : Arrival) {rest : List Arrival} (b : ℕ) (bytes : Bytes) {chunks : List Bytes}
      → eq_ℤ fd a.fd ≡ true
      → has_event a.events event_error_hangup ≡ false
      → has_event a.events event_read ≡ true
      → a.received ≡ some (b ∷ bytes)
      → Carries fd rest chunks
      → Carries fd (a ∷ rest) ((b ∷ bytes) ∷ chunks)
  other_event :
      (a : Arrival) {rest : List Arrival} {chunks : List Bytes}
      → eq_ℤ fd a.fd ≡ false
      → Carries fd rest chunks
      → Carries fd (a ∷ rest) chunks

abbrev pub join_chunks : List Bytes → Bytes
join_chunks [] = []
join_chunks (c ∷ rest) = c ++ join_chunks rest

not_empty : (s : Bytes) (b : ℕ) (bytes : Bytes) → is_empty (s ++ (b ∷ bytes)) ≡ false
not_empty [] b bytes = refl
not_empty (x ∷ s) b bytes = refl

more_bytes :
    (c : Client) (b : ℕ) (bytes : Bytes)
    → is_request_ready (with_bytes c (b ∷ bytes))
      ≡ is_text_ready (get_request_data c ++ (b ∷ bytes))
unfolding is_request_ready
more_bytes c b bytes = on_false _ _ (not_empty (get_request_data c) b bytes)

no_length : (s : Bytes) → ltb 0 (length s) ≡ false → s ≡ []
no_length [] h = refl
no_length (x ∷ s) h = absurd (ground (arith, h))

module _ (regex_match : RegexMatch) (router : Router) where
  -- What a read event with bytes makes of a client.
  read_on :
      (c : Client) (events : ℕ) (received : Option Bytes) (b : ℕ) (bytes : Bytes)
      → has_event events event_error_hangup ≡ false
      → has_event events event_read ≡ true
      → received ≡ some (b ∷ bytes)
      → connection_step regex_match router (some c) events received ≡ (
          if is_request_ready (with_bytes c (b ∷ bytes))
          then (
            none,
            to_raw_response (respond regex_match router (get_request_data c ++ (b ∷ bytes))) ∷ [],
          )
          else (some (with_bytes c (b ∷ bytes)), []))
  unfolding connection_step read_step read_request
  read_on c events received b bytes healthy readable here =
      rw (healthy, readable, here) (rw (some_bytes_read b bytes) refl)

  module _ (fd : ℤ) where
    abbrev serve : Connection → Arrival → Connection
    serve = serve_alone regex_match router fd

    own_turn :
        (v : Connection) (a : Arrival) (r : Option Client × List Bytes)
        → eq_ℤ fd a.fd ≡ true
        → connection_step regex_match router v.client a.events a.received ≡ r
        → serve v a ≡ record { client = r.0; log = r.1 ++ v.log }
    own_turn v a r own e =
        on_true _ _ own
        ∙ ap (λ (o : Option Client × List Bytes). record { client = o.0; log = o.1 ++ v.log }) e

    gone :
        (batch : List Arrival) (log : List Bytes)
        → foldl serve (record { client = none; log = log }) batch
          ≡ record { client = none; log = log }
    unfolding connection_step
    gone [] log = refl
    gone (a ∷ rest) log = elim (Bool-cases (eq_ℤ fd a.fd)) [
      | inl own ↦
          ap (λ (v : Connection). foldl serve v rest)
            (own_turn (record { client = none; log = log }) a (none, []) own refl)
          ∙ gone rest log
      | inr other ↦ ap (λ (v : Connection). foldl serve v rest) (on_false _ _ other) ∙ gone rest log
    ]

    -- For a text that is ready and whose beginnings are not.
    module _ (t : Bytes)
        (early : (s r : Bytes) → 0 < length r → s ++ r ≡ t → is_text_ready s ≡ false)
        (whole : is_text_ready t ≡ true) where
      abbrev answered : List Bytes → Connection
      answered log = record {
        client = none;
        log = to_raw_response (respond regex_match router t) ∷ log;
      }

      last_chunk :
          (c : Client) (a : Arrival) (b : ℕ) (bytes : Bytes) (log : List Bytes)
          → eq_ℤ fd a.fd ≡ true
          → has_event a.events event_error_hangup ≡ false
          → has_event a.events event_read ≡ true
          → a.received ≡ some (b ∷ bytes)
          → get_request_data c ++ (b ∷ bytes) ≡ t
          → serve (record { client = some c; log = log }) a ≡ answered log
      last_chunk c a b bytes log own healthy readable here ends =
          own_turn (record { client = some c; log = log }) a
            (
              none,
              to_raw_response (respond regex_match router (get_request_data c ++ (b ∷ bytes))) ∷ [],
            )
            own
            (read_on c a.events a.received b bytes healthy readable here
              ∙ on_true _ _ (more_bytes c b bytes ∙ ap is_text_ready ends ∙ whole))
          ∙ ap
              (λ (s : Bytes). record {
                client = none;
                log = to_raw_response (respond regex_match router s) ∷ log;
              })
              ends

      pub early_chunk :
          (c : Client) (a : Arrival) (b : ℕ) (bytes r : Bytes) (log : List Bytes)
          → eq_ℤ fd a.fd ≡ true
          → has_event a.events event_error_hangup ≡ false
          → has_event a.events event_read ≡ true
          → a.received ≡ some (b ∷ bytes)
          → 0 < length r
          → (get_request_data c ++ (b ∷ bytes)) ++ r ≡ t
          → serve (record { client = some c; log = log }) a
            ≡ record { client = some (with_bytes c (b ∷ bytes)); log = log }
      early_chunk c a b bytes r log own healthy readable here more ends =
          own_turn (record { client = some c; log = log }) a (some (with_bytes c (b ∷ bytes)), [])
            own
            (read_on c a.events a.received b bytes healthy readable here
              ∙ on_false _ _
                  (more_bytes c b bytes ∙ early (get_request_data c ++ (b ∷ bytes)) r more ends))

      pub carried :
          (batch : List Arrival) (chunks : List Bytes) (c : Client) (log : List Bytes)
          → Carries fd batch chunks
          → 0 < length (join_chunks chunks)
          → get_request_data c ++ join_chunks chunks ≡ t
          → foldl serve (record { client = some c; log = log }) batch ≡ answered log
      carried batch chunks c log no_more more ends = absurd (omega arith)
      carried batch chunks c log (other_event a {rest} other later) more ends =
          ap (λ (v : Connection). foldl serve v rest) (on_false _ _ other)
          ∙ carried rest chunks c log later more ends
      carried batch chunks c log
            (own_chunk a {rest} b bytes {chunks = others} own healthy readable here later) more
            ends =
          elim (Bool-cases (ltb 0 (length (join_chunks others)))) [
            | inl follows ↦
                let ends' =
                  append_assoc (get_request_data c) (b ∷ bytes) (join_chunks others) ∙ ends in
                ap (λ (v : Connection). foldl serve v rest)
                  (early_chunk c a b bytes (join_chunks others) log own healthy readable here
                    (ground (arith, follows)) ends')
                ∙ carried rest others (with_bytes c (b ∷ bytes)) log later (ground (arith, follows))
                    ends'
            | inr ends_here ↦
                let all : get_request_data c ++ (b ∷ bytes) ≡ t =
                  ap (λ (r : Bytes). get_request_data c ++ (b ∷ r))
                    (sym (
                      ap (λ (r : Bytes). bytes ++ r) (no_length (join_chunks others) ends_here)
                      ∙ append-nil bytes))
                  ∙ ends in
                ap (λ (v : Connection). foldl serve v rest)
                  (last_chunk c a b bytes log own healthy readable here all)
                ∙ gone rest (to_raw_response (respond regex_match router t) ∷ log)
          ]
