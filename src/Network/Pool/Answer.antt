-- ===== src/Network/Pool/Answer.antt =====
-- `handle_client_event` on a read event: what a client is answered, and when.
use fion.Prelude.{
  ℕ, true, false, not, none, some, List, [], ◌∷◌, ◌++◌, ◌≡◌, refl, sym, ap, ◌∙◌, arith,
  if◌then◌else◌, length, subst,
}
use fion.Prelude.Int.{ℤ, pos, ltb_ℤ}
use fion.Text.{Bytes, is_empty}
use fion.Routing.{RegexMatch, Router}
use fion.Network.Client.{
  Client, ClientState, read_request, write_response, prepare_response, is_request_ready, set_state,
}
use fion.Network.ConnectionPool.{get_client}
use fion.Network.Pool.{process_request}
use fion.Network.Pool.Events.{
  Pool, Outcome, close_connection, update_client, bytes_to_send, has_event, event_read,
  event_error_hangup, answer_client, handle_bytes, handle_client_event,
}
use fion.Network.Pool.Watched.{InSync, close_connection_lem, update_client-InSync}
use fion.Http.Version.{Version, version_to_string}
use fion.Http.Response.{Response, status_line, to_raw_response}
use fion.Network.Buffer.{append}
use fion.Network.Client.{get_request_data}
use fion.Network.Pool.{respond}
use fion.Network.Pool.Settled.{client_at, updated, write_response-fd, process_request-fd, branches}

version_not_empty : (v : Version) → is_empty (version_to_string v) ≡ false
unfolding version_to_string
version_not_empty Version.http_0_9 = refl
version_not_empty _ = refl

append_not_empty : (a b : Bytes) → is_empty a ≡ false → is_empty (a ++ b) ≡ false
append_not_empty [] b h = cc h
append_not_empty (x ∷ a) b h = refl

response_not_empty : (r : Response) → is_empty (to_raw_response r) ≡ false
unfolding to_raw_response status_line
response_not_empty r =
    append_not_empty _ _
      (append_not_empty (version_to_string r.version) _ (version_not_empty r.version))

pub some_bytes_read :
    (b : ℕ) (bytes : Bytes) → not (ltb_ℤ (pos 0) (pos (length (b ∷ bytes)))) ≡ false
some_bytes_read b bytes = ground arith

-- What is prepared is the whole answer, and it is passed to `send`.
pub bytes_prepared :
    (m : RegexMatch) (r : Router) (c : Client)
    → bytes_to_send (process_request m r (set_state c ClientState.processing))
      ≡ (c.fd, to_raw_response (respond m r (get_request_data c))) ∷ []
unfolding process_request prepare_response
bytes_prepared m r c = rw (response_not_empty (respond m r (get_request_data c))) refl

-- The client with more bytes of its request.
abbrev pub with_bytes : Client → Bytes → Client
with_bytes c bytes = record c { request_buffer = append c.request_buffer bytes }

module _ (regex_match : RegexMatch) where
  -- A closed connection leaves the log of the sent bytes as it was.
  closed_sent :
      (q : Pool) (fd : ℤ) (c : Client)
      → InSync q
      → client_at fd q ≡ some c
      → (close_connection q fd).0.sent ≡ q.sent
  closed_sent q fd c s found = ap (λ (o : Outcome). o.0.sent) (close_connection_lem q fd c s found)

  answer_sent :
      (q : Pool) (fd : ℤ) (c : Client) (n : ℤ)
      → InSync q
      → client_at fd q ≡ some c
      → (answer_client regex_match q fd c n).0.sent
        ≡ (fd, to_raw_response (respond regex_match q.router (get_request_data c))) ∷ q.sent
  unfolding answer_client
  answer_sent q fd c n s found =
      let processed = process_request regex_match q.router (set_state c ClientState.processing) in
      let written = (write_response processed n).0 in
      let same : written.fd ≡ fd =
        write_response-fd processed n
        ∙ process_request-fd regex_match q.router (set_state c ClientState.processing)
        ∙ (s.owned fd c found).0 in
      let next = update_client q fd written (bytes_to_send processed) in
      let t : InSync next =
        update_client-InSync q fd c written (bytes_to_send processed) s found same in
      let logged : (close_connection next fd).0.sent
          ≡ (fd, to_raw_response (respond regex_match q.router (get_request_data c))) ∷ q.sent =
        closed_sent next fd written t (updated q fd written (bytes_to_send processed))
        ∙ ap (λ (l : List (ℤ × Bytes)). l ++ q.sent) (bytes_prepared regex_match q.router c)
        ∙ ap
            (λ (k : ℤ).
              (k, to_raw_response (respond regex_match q.router (get_request_data c))) ∷ q.sent)
            (s.owned fd c found).0 in
      branches
        (λ (o : Outcome).
          o.0.sent
          ≡ (fd, to_raw_response (respond regex_match q.router (get_request_data c))) ∷ q.sent)
        (ltb_ℤ (write_response processed n).1 (pos 0)) logged logged

module _ (regex_match : RegexMatch) (p : Pool) (fd : ℤ) (c : Client) (s : InSync p)
    (found : client_at fd p ≡ some c) where
  read_branch :
      (events b : ℕ) (bytes : Bytes) (n : ℤ)
      → has_event events event_error_hangup ≡ false
      → has_event events event_read ≡ true
      → handle_client_event regex_match p fd events (some (b ∷ bytes)) n ≡ (
          if is_request_ready (with_bytes c (b ∷ bytes))
          then answer_client regex_match
              (update_client p fd (with_bytes c (b ∷ bytes)) [])
              fd
              (with_bytes c (b ∷ bytes))
              n
          else (update_client p fd (with_bytes c (b ∷ bytes)) [], none))
  unfolding handle_client_event handle_bytes read_request get_client
  read_branch events b bytes n healthy readable =
      rw (found, handle_client_event) (rw (healthy, readable) (rw (some_bytes_read b bytes) refl))

  read_ready :
      (events b : ℕ) (bytes : Bytes) (n : ℤ)
      → has_event events event_error_hangup ≡ false
      → has_event events event_read ≡ true
      → is_request_ready (with_bytes c (b ∷ bytes)) ≡ true
      → handle_client_event regex_match p fd events (some (b ∷ bytes)) n
        ≡ answer_client regex_match
            (update_client p fd (with_bytes c (b ∷ bytes)) [])
            fd
            (with_bytes c (b ∷ bytes))
            n
  read_ready events b bytes n healthy readable ready =
      read_branch events b bytes n healthy readable ∙ (rw ready refl)

  read_waits :
      (events b : ℕ) (bytes : Bytes) (n : ℤ)
      → has_event events event_error_hangup ≡ false
      → has_event events event_read ≡ true
      → is_request_ready (with_bytes c (b ∷ bytes)) ≡ false
      → handle_client_event regex_match p fd events (some (b ∷ bytes)) n
        ≡ (update_client p fd (with_bytes c (b ∷ bytes)) [], none)
  read_waits events b bytes n healthy readable ready =
      read_branch events b bytes n healthy readable ∙ (rw ready refl)

  -- In a pool that is in sync, a read event without an error for a client of the pool, with bytes
  -- that complete its request: the answer to all bytes read so far is passed to `send`, once and
  -- whole, and nothing else is.
  pub handle_client_event_answers :
      (events b : ℕ) (bytes : Bytes) (n : ℤ)
      → has_event events event_error_hangup ≡ false
      → has_event events event_read ≡ true
      → is_request_ready (with_bytes c (b ∷ bytes)) ≡ true
      → (handle_client_event regex_match p fd events (some (b ∷ bytes)) n).0.sent
        ≡ (fd, to_raw_response (respond regex_match p.router (get_request_data c ++ (b ∷ bytes))))
          ∷ p.sent
  handle_client_event_answers events b bytes n healthy readable ready =
      let more = with_bytes c (b ∷ bytes) in
      let q = update_client p fd more [] in
      let t : InSync q = update_client-InSync p fd c more [] s found (s.owned fd c found).0 in
      ap (λ (o : Outcome). o.0.sent) (read_ready events b bytes n healthy readable ready)
      ∙ answer_sent regex_match q fd more n t (updated p fd more [])

  -- In a pool that is in sync, a read event without an error for a client of the pool, with bytes
  -- that do not complete its request: nothing is sent, and the client keeps all bytes read so far.
  pub handle_client_event_waits :
      (events b : ℕ) (bytes : Bytes) (n : ℤ)
      → has_event events event_error_hangup ≡ false
      → has_event events event_read ≡ true
      → is_request_ready (with_bytes c (b ∷ bytes)) ≡ false
      → ((handle_client_event regex_match p fd events (some (b ∷ bytes)) n).0.sent ≡ p.sent)
        × (client_at fd (handle_client_event regex_match p fd events (some (b ∷ bytes)) n).0
            ≡ some (with_bytes c (b ∷ bytes)))
  handle_client_event_waits events b bytes n healthy readable ready =
      let more = with_bytes c (b ∷ bytes) in
      subst (λ (o : Outcome). (o.0.sent ≡ p.sent) × (client_at fd o.0 ≡ some more))
        (sym (read_waits events b bytes n healthy readable ready)) (refl, updated p fd more [])
