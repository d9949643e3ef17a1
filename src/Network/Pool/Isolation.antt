-- ===== src/Network/Pool/Isolation.antt =====
-- What a pool promises to one connection: it is served as if it were alone. The promise is a machine
-- for one client, which knows of no pool, no poller and no result of `send`.
pub mod Changes
pub mod Serves
pub mod Carried
pub mod Chunks
pub mod Bursts
use fion.Prelude.{
  ℕ, Bool, true, false, not, Option, none, some, List, [], ◌∷◌, ◌++◌, ◌≡◌, refl, sym, ap, ◌∙◌,
  arith, if◌then◌else◌, inl, inr, Option-cases, append_assoc, subst,
}
use fion.Prelude.Int.{ℤ, pos, ltb_ℤ, eq_ℤ}
use fion.Prelude.IntLaws.{eq_ℤ_iff}
use fion.Text.{Bytes}
use fion.Http.Response.{to_raw_response}
use fion.Routing.{RegexMatch, Router}
use fion.Network.Client.{
  Client, ClientState, read_request, write_response, is_request_ready, set_state, get_request_data,
}
use fion.Network.ConnectionPool.{find_client, get_client, set_client}
use fion.Network.ConnectionPool.Laws.{find_client-put_client, find_client-drop_client}
use fion.Network.Pool.{process_request, respond}
use fion.Network.Pool.Events.{
  Pool, Outcome, close_connection, update_client, bytes_to_send, has_event, event_read,
  event_error_hangup, answer_client, handle_bytes, handle_client_event,
}
use fion.Network.Pool.Watched.{InSync, without, close_connection_lem, update_client-InSync}
use fion.Network.Pool.Settled.{
  client_at, updated, write_response-fd, process_request-fd, read_request-fd,
}
use fion.Network.Pool.Answer.{bytes_prepared}

-- A connection after an event, and what it was sent: `none` for a connection that is closed.
module _ (regex_match : RegexMatch) (router : Router) where
  unfoldable pub read_step : Client × ℤ → Option Client × List Bytes
  read_step (client, bytes_read) =
      if not (ltb_ℤ (pos 0) bytes_read)
      then (none, [])
      else if is_request_ready client
      then (none, to_raw_response (respond regex_match router (get_request_data client)) ∷ [])
      else (some client, [])

  unfoldable pub connection_step : Option Client → ℕ → Option Bytes → Option Client × List Bytes
  connection_step none events received = (none, [])
  connection_step (some client) events received =
      if has_event events event_error_hangup
      then (none, [])
      else if has_event events event_read
      then read_step (read_request client received)
      else (some client, [])

-- What a log of the sent texts holds for a descriptor, the last text first.
unfoldable pub sent_to : ℤ → List (ℤ × Bytes) → List Bytes
sent_to fd [] = []
sent_to fd ((k, text) ∷ rest) =
    let later = sent_to fd rest in if eq_ℤ fd k then text ∷ later else later
