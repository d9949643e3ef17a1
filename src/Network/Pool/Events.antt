-- ===== src/Network/Pool/Events.antt =====
-- `Pool::addClient` and `Pool::handle_client_event`, with the part of `Poller` that they use, on the
-- set of watched descriptors; Poller/Epoll has the whole class, and shows that the two agree. The
-- answers of the system calls are arguments; the flags are those of epoll.
use Prim.Native.Nat.{bit_and}
use fion.Prelude.{
  ℕ, Bool, true, false, ◌||◌, not, Option, none, some, List, [], ◌∷◌, ◌++◌, ◌==◌, if◌then◌else◌,
}
use fion.Prelude.Results.{Exception, ok, err}
use fion.Prelude.Int.{ℤ, pos, ltb_ℤ, eq_ℤ}
use fion.Text.{Bytes, codes, is_empty}
use fion.Routing.{Router, RegexMatch}
use fion.Network.Buffer.{get_data}
use fion.Network.Client.{
  Client, ClientState, read_request, write_response, set_state, is_request_ready,
}
use fion.Network.ConnectionPool.{ConnectionPool, add_client, remove_client, get_client, set_client}
use fion.Network.Pool.{process_request}

-- The pool, the descriptors that its poller watches, and what it has done to descriptors: those that
-- it closed, and what it passed to `send`.
pub record Pool : Type 0 where
  pub router : Router
  pub connections : ConnectionPool
  pub watched : List ℤ
  pub closed_fds : List ℤ
  pub sent : List (ℤ × Bytes)

unfoldable pub is_watched : ℤ → List ℤ → Bool
is_watched fd [] = false
is_watched fd (k ∷ rest) = if eq_ℤ fd k then true else is_watched fd rest

unfoldable pub unwatch : ℤ → List ℤ → List ℤ
unwatch fd [] = []
unwatch fd (k ∷ rest) = let later = unwatch fd rest in if eq_ℤ fd k then rest else k ∷ later

-- What a call leaves, and the exception that it ends with.
abbrev pub Outcome : Type 0
Outcome = Pool × Option Exception

-- `Poller::addFD`: epoll refuses a descriptor that it watches, and may refuse any other.
unfoldable pub add_fd : Pool → ℤ → Bool → Outcome
add_fd p fd accepted =
    if is_watched fd p.watched || not accepted
    then (p, some (Exception.runtime_error (codes "Failed to add fd to epoll: ")))
    else (record p { watched = fd ∷ p.watched }, none)

-- `Poller::removeFD`: epoll refuses a descriptor that it does not watch.
unfoldable pub remove_fd : Pool → ℤ → Outcome
remove_fd p fd =
    if is_watched fd p.watched
    then (record p { watched = unwatch fd p.watched }, none)
    else (p, some (Exception.runtime_error (codes "Failed to remove fd from epoll: ")))

-- `Pool::addClient`
unfoldable pub pool_add_client : Pool → ℤ → Bool → Outcome
pool_add_client p fd accepted = elim (add_client p.connections fd) [
  | err e ↦ (p, some e)
  | ok (connections, closed) ↦
      add_fd (record p { connections = connections; closed_fds = closed ++ p.closed_fds }) fd
        accepted
]

-- `_loop.get_poller().removeFD(fd); _connectionPool.removeClient(fd);`
unfoldable pub forget_client : Outcome → ℤ → Outcome
forget_client (p, some e) fd = (p, some e)
forget_client (p, none) fd =
    let (connections, closed) = remove_client p.connections fd in
    (record p { connections = connections; closed_fds = closed ++ p.closed_fds }, none)

abbrev pub close_connection : Pool → ℤ → Outcome
close_connection p fd = forget_client (remove_fd p fd) fd

-- The change of a client of the pool, and what it passed to `send`.
abbrev pub update_client : Pool → ℤ → Client → List (ℤ × Bytes) → Pool
update_client p fd c sent = record p {
  connections = set_client p.connections fd c;
  sent = sent ++ p.sent;
}

-- What `writeResponse` passes to `send`: nothing when the buffer is empty.
abbrev pub bytes_to_send : Client → List (ℤ × Bytes)
bytes_to_send c =
    if is_empty (get_data c.response_buffer) then [] else (c.fd, get_data c.response_buffer) ∷ []

-- `EPOLLIN`, and `EPOLLERR | EPOLLHUP`
abbrev pub event_read : ℕ
event_read = 1

abbrev pub event_error_hangup : ℕ
event_error_hangup = 24

abbrev pub has_event : ℕ → ℕ → Bool
has_event events mask = not (bit_and events mask == 0)

module _ (regex_match : RegexMatch) where
  -- From `client->set_state(ClientState::PROCESSING)` on; both results of the write close the
  -- connection.
  unfoldable pub answer_client : Pool → ℤ → Client → ℤ → Outcome
  answer_client p fd client send_result =
      let processed =
        process_request regex_match p.router (set_state client ClientState.processing) in
      let (written, bytes_sent) = write_response processed send_result in
      let q = update_client p fd written (bytes_to_send processed) in
      if ltb_ℤ bytes_sent (pos 0) then close_connection q fd else close_connection q fd

  -- From the result of `readRequest` on.
  unfoldable pub handle_bytes : Pool → ℤ → Client × ℤ → ℤ → Outcome
  handle_bytes p fd (client, bytes_read) send_result =
      let q = update_client p fd client [] in
      if not (ltb_ℤ (pos 0) bytes_read)
      then close_connection q fd
      else if is_request_ready client
      then answer_client q fd client send_result
      else (q, none)

  -- `handle_client_event`, with what `recv` and `send` give if they are called.
  unfoldable pub handle_client_event : Pool → ℤ → ℕ → Option Bytes → ℤ → Outcome
  handle_client_event p fd events received send_result = elim (get_client p.connections fd) [
    | none ↦ (p, none)
    | some client ↦
        if has_event events event_error_hangup
        then close_connection p fd
        else if has_event events event_read
        then handle_bytes p fd (read_request client received) send_result
        else (p, none)
  ]
