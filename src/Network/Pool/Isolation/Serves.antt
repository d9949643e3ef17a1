-- ===== src/Network/Pool/Isolation/Serves.antt =====
-- The pool does for every connection what its machine does.
use fion.Prelude.{
  ℕ, not, Option, none, some, List, [], ◌∷◌, ◌++◌, ◌≡◌, refl, sym, ap, ◌∙◌, if◌then◌else◌, inl, inr,
  subst,
}
use fion.Prelude.Int.{ℤ, pos, ltb_ℤ, eq_ℤ}
use fion.Prelude.IntLaws.{eq_ℤ_iff}
use fion.Text.{Bytes}
use fion.Http.Response.{to_raw_response}
use fion.Routing.{RegexMatch, Router}
use fion.Network.Client.{
  Client, ClientState, read_request, write_response, is_request_ready, set_state, get_request_data,
}
use fion.Network.ConnectionPool.{get_client}
use fion.Network.Pool.{process_request, respond}
use fion.Network.Pool.Events.{
  Pool, Outcome, close_connection, update_client, bytes_to_send, has_event, event_read,
  event_error_hangup, answer_client, handle_bytes, handle_client_event,
}
use fion.Network.Pool.Watched.{InSync, update_client-InSync}
use fion.Network.Pool.Settled.{
  client_at, updated, write_response-fd, process_request-fd, read_request-fd, branches,
}
use fion.Network.Pool.Answer.{bytes_prepared}
use fion.Network.Pool.Isolation.{read_step, connection_step, sent_to}
use fion.Network.Pool.Isolation.Changes.{
  Acts, branch-Acts, trans-Acts, kept-Acts, closed-Acts, quiet-Acts, sent-Acts,
}
use fion.Network.EventLoop.{dispatch}
use fion.Network.EventLoop.Batches.{Arrival, pool_callback, handle_all, handled, batch_handled}
use fion.Prelude.{foldl, on_true, on_false, Bool-cases}
use mathlib.Core.Path.{ap₂}

module _ (regex_match : RegexMatch) (fd : ℤ) where
  answer_client-Acts :
      (q : Pool) (c : Client) (n : ℤ)
      → InSync q
      → client_at fd q ≡ some c
      → Acts q fd
          (none, to_raw_response (respond regex_match q.router (get_request_data c)) ∷ [])
          (answer_client regex_match q fd c n).0
  unfolding answer_client
  answer_client-Acts q c n s found =
      let text = to_raw_response (respond regex_match q.router (get_request_data c)) in
      let processed = process_request regex_match q.router (set_state c ClientState.processing) in
      let written = (write_response processed n).0 in
      let own = (s.owned fd c found).0 in
      let sent = bytes_to_send processed in
      let logged : sent ≡ (fd, text) ∷ [] =
        bytes_prepared regex_match q.router c ∙ ap (λ (k : ℤ). (k, text) ∷ []) own in
      let next = update_client q fd written sent in
      let t : InSync next = update_client-InSync q fd c written sent s found (
        write_response-fd processed n
        ∙ process_request-fd regex_match q.router (set_state c ClientState.processing)
        ∙ own) in
      let ends : Acts q fd (none, text ∷ []) (close_connection next fd).0 =
        trans-Acts {p = q} {q = next} {r = (close_connection next fd).0} {fd = fd}
          (some written, text ∷ []) (none, [])
          (subst
            (λ (l : List (ℤ × Bytes)).
              Acts q fd (some written, text ∷ []) (update_client q fd written l))
            (sym logged) (sent-Acts q fd written text))
          (closed-Acts next fd written t (updated q fd written sent)) in
      branches (λ (o : Outcome). Acts q fd (none, text ∷ []) o.0)
        (ltb_ℤ (write_response processed n).1 (pos 0)) ends ends

  handle_bytes-Acts :
      (p : Pool) (old c : Client) (bytes_read n : ℤ)
      → InSync p
      → client_at fd p ≡ some old
      → c.fd ≡ fd
      → Acts p fd
          (read_step regex_match p.router (c, bytes_read))
          (handle_bytes regex_match p fd (c, bytes_read) n).0
  unfolding handle_bytes read_step
  handle_bytes-Acts p old c bytes_read n s found same =
      let q = update_client p fd c [] in
      let t : InSync q = update_client-InSync p fd old c [] s found same in
      let here : client_at fd q ≡ some c = updated p fd c [] in
      let text = to_raw_response (respond regex_match p.router (get_request_data c)) in
      let answered = answer_client regex_match q fd c n in
      let ready : Acts p fd (none, text ∷ []) answered.0 =
        trans-Acts {p = p} {q = q} {r = answered.0} {fd = fd} (some c, []) (none, text ∷ [])
          (quiet-Acts p fd c) (answer_client-Acts q c n t here) in
      branch-Acts {p = p} {fd = fd} (not (ltb_ℤ (pos 0) bytes_read)) (none, [])
        (if is_request_ready c then (none, text ∷ []) else (some c, [])) (close_connection q fd)
        (if is_request_ready c then answered else (q, none))
        (trans-Acts {p = p} {q = q} {r = (close_connection q fd).0} {fd = fd} (some c, [])
          (none, []) (quiet-Acts p fd c) (closed-Acts q fd c t here))
        (branch-Acts {p = p} {fd = fd} (is_request_ready c) (none, text ∷ []) (some c, []) answered
          (q, none) ready (quiet-Acts p fd c))

  event-Acts :
      (p : Pool) (events : ℕ) (received : Option Bytes) (n : ℤ) (found : Option Client)
      → InSync p
      → client_at fd p ≡ found
      → get_client p.connections fd ≡ found
      → Acts p fd
          (connection_step regex_match p.router found events received)
          (handle_client_event regex_match p fd events received n).0
  unfolding handle_client_event connection_step
  event-Acts p events received n none s there got =
      rw (got, handle_client_event) (kept-Acts p fd none there)
  event-Acts p events received n (some c) s there got =
      rw (got, handle_client_event)
        (branch-Acts {p = p} {fd = fd} (has_event events event_error_hangup) _ _ _ _
          (closed-Acts p fd c s there)
          (branch-Acts {p = p} {fd = fd} (has_event events event_read) _ _ _ _
            (handle_bytes-Acts p c (read_request c received).0 (read_request c received).1 n s there
              (read_request-fd c received ∙ (s.owned fd c there).0))
            (kept-Acts p fd (some c) there)))

-- What a connection is, seen from outside: its client, and what it was sent, the last text first.
pub record Connection : Type 0 where
  pub client : Option Client
  pub log : List Bytes

abbrev pub view : ℤ → Pool → Connection
view fd p = record { client = client_at fd p; log = sent_to fd p.sent }

-- The machine of a connection, which passes the events of other descriptors over.
abbrev pub serve_alone : RegexMatch → Router → ℤ → Connection → Arrival → Connection
serve_alone regex_match router fd v a =
    if eq_ℤ fd a.fd
    then record {
      client = (connection_step regex_match router v.client a.events a.received).0;
      log = (connection_step regex_match router v.client a.events a.received).1 ++ v.log;
    }
    else v

connection_eq :
    (o n : Option Client) (k l : List Bytes)
    → o ≡ n
    → k ≡ l
    → ◌≡◌ {A = Connection} (record { client = o; log = k }) (record { client = n; log = l })
connection_eq o n k l e f =
    ap₂ (λ (c : Option Client) (t : List Bytes). record { client = c; log = t }) e f

module _ (regex_match : RegexMatch) (fd : ℤ) where
  -- The machine with an event that is its own.
  abbrev own_step : Pool → Arrival → Option Client → Option Client × List Bytes
  own_step p a o = connection_step regex_match p.router o a.events a.received

  viewed :
      (p q : Pool) (a : Arrival)
      → Acts p a.fd (own_step p a (client_at a.fd p)) q
      → view fd q ≡ serve_alone regex_match p.router fd (view fd p) a
  viewed p q a acts = elim (Bool-cases (eq_ℤ fd a.fd)) [
    | inl own ↦
        let same : client_at a.fd p ≡ client_at fd p =
          ap (λ (k : ℤ). client_at k p) (sym ((eq_ℤ_iff fd a.fd).0 own)) in
        connection_eq _ _ _ _
          (acts.client fd ∙ on_true _ _ own ∙ ap (λ (o : Option Client). (own_step p a o).0) same)
          (acts.log fd
            ∙ on_true _ _ own
            ∙ ap (λ (o : Option Client). (own_step p a o).1 ++ sent_to fd p.sent) same)
        ∙ sym (on_true _ _ own)
    | inr other ↦
        connection_eq _ _ _ _ (acts.client fd ∙ on_false _ _ other)
          (acts.log fd ∙ on_false _ _ other)
        ∙ sym (on_false _ _ other)
  ]

  one_served :
      (p : Pool) (a : Arrival)
      → InSync p
      → (view fd (pool_callback regex_match p a).0
          ≡ serve_alone regex_match p.router fd (view fd p) a)
        × ((pool_callback regex_match p a).0.router ≡ p.router)
  unfolding get_client
  one_served p a s =
      let acts =
        event-Acts regex_match a.fd p a.events a.received a.send_result (client_at a.fd p) s refl
          refl in
      (viewed p (pool_callback regex_match p a).0 a acts, acts.same_router)

  all_served :
      (batch : List Arrival) (p : Pool) (router : Router)
      → InSync p
      → p.router ≡ router
      → view fd (handle_all regex_match batch p)
        ≡ foldl (serve_alone regex_match router fd) (view fd p) batch
  all_served [] p router s same = refl
  all_served (a ∷ rest) p router s same =
      let (first, kept) = one_served p a s in
      all_served rest (pool_callback regex_match p a).0 router (handled regex_match p a s).1
        (kept ∙ same)
      ∙ ap (λ (v : Connection). foldl (serve_alone regex_match router fd) v rest)
          (first ∙ ap (λ (r : Router). serve_alone regex_match r fd (view fd p) a) same)

  -- A pool that is in sync handles a batch of events of any descriptors, with any answers of `recv` and
  -- `send`: no event throws, and each descriptor ends with the client that its machine has when it
  -- serves this descriptor's events alone, one after the other, and has been sent the same texts in
  -- the same order. So no connection is changed or answered by another one's events.
  pub dispatch_refines :
      (batch : List Arrival) (p : Pool)
      → InSync p
      → ((dispatch (pool_callback regex_match) batch p).1 ≡ none)
        × (view fd (dispatch (pool_callback regex_match) batch p).0
            ≡ foldl (serve_alone regex_match p.router fd) (view fd p) batch)
  dispatch_refines batch p s =
      let (same, _) = batch_handled regex_match batch p s in
      (
        ap (λ (o : Outcome). o.1) same,
        ap (λ (o : Outcome). view fd o.0) same ∙ all_served batch p p.router s refl,
      )
