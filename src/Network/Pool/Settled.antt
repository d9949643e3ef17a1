-- ===== src/Network/Pool/Settled.antt =====
-- `handle_client_event`: the state that it leaves, and the descriptors that it closes.
use fion.Prelude.{
  ℕ, Bool, true, false, not, Option, none, some, List, [], ◌∷◌, ◌≡◌, refl, sym, ap, ◌∙◌, arith,
  if◌then◌else◌, inl, inr, ◌⊎◌, subst,
}
use fion.Prelude.Int.{ℤ, pos, ltb_ℤ, eq_ℤ}
use fion.Prelude.IntLaws.{eq_ℤ_iff}
use fion.Text.{Bytes}
use fion.Routing.{RegexMatch, Router}
use fion.Network.Client.{
  Client, ClientState, read_request, write_response, prepare_response, is_request_ready, set_state,
}
use fion.Network.ConnectionPool.{find_client, get_client, set_client}
use fion.Network.ConnectionPool.Laws.{find_client-put_client, find_client-drop_client}
use fion.Network.Pool.{process_request}
use fion.Network.Pool.Events.{
  Pool, Outcome, close_connection, update_client, bytes_to_send, has_event, event_read,
  event_error_hangup, answer_client, handle_bytes, handle_client_event,
}
use fion.Network.Pool.Watched.{
  InSync, is_present, without, close_connection_lem, without-InSync, update_client-InSync,
}

abbrev pub client_at : ℤ → Pool → Option Client
client_at fd p = find_client fd p.connections.clients

-- Nothing was thrown, the pool is in sync, and the client of the descriptor is there as before with
-- nothing closed, or is gone with its descriptor closed once.
abbrev pub Settled : Pool → ℤ → Outcome → Type 0
Settled p fd o =
    (o.1 ≡ none)
    × InSync o.0
    × (((o.0.closed_fds ≡ p.closed_fds)
          × (is_present (client_at fd o.0) ≡ is_present (client_at fd p)))
        ⊎ ((o.0.closed_fds ≡ fd ∷ p.closed_fds) × (client_at fd o.0 ≡ none)))

pub eq_ℤ_refl : (a : ℤ) → eq_ℤ a a ≡ true
eq_ℤ_refl a = (eq_ℤ_iff a a).1 refl

without-Settled : (p : Pool) (fd : ℤ) → InSync p → Settled p fd (without p fd, none)
without-Settled p fd s = (
  refl,
  without-InSync p fd s,
  inr (refl, find_client-drop_client fd fd p.connections.clients s.unique ∙ rw (eq_ℤ_refl fd) refl),
)

close_connection-Settled :
    (p : Pool) (fd : ℤ) (c : Client)
    → InSync p
    → client_at fd p ≡ some c
    → Settled p fd (close_connection p fd)
close_connection-Settled p fd c s found =
    subst (Settled p fd) (sym (close_connection_lem p fd c s found)) (without-Settled p fd s)

pub updated :
    (p : Pool) (fd : ℤ) (c : Client) (sent : List (ℤ × Bytes))
    → client_at fd (update_client p fd c sent) ≡ some c
unfolding set_client
updated p fd c sent = find_client-put_client fd fd c p.connections.clients ∙ rw (eq_ℤ_refl fd) refl

kept-Settled : (p : Pool) (fd : ℤ) → InSync p → Settled p fd (p, none)
kept-Settled p fd s = (refl, s, inl (refl, refl))

-- A change of the client first makes no difference.
pub after_update :
    (p : Pool) (fd : ℤ) (old c : Client) (sent : List (ℤ × Bytes)) (o : Outcome)
    → client_at fd p ≡ some old
    → Settled (update_client p fd c sent) fd o
    → Settled p fd o
after_update p fd old c sent o found h = (
  h.0,
  h.1,
  elim h.2 [
    | inl stay ↦
        inl (stay.0, stay.1 ∙ ap is_present (updated p fd c sent) ∙ sym (ap is_present found))
    | inr gone ↦ inr gone
  ],
)

pub branches {ℓ} :
    {A : Type ℓ} (P : A → Type 0) (b : Bool) {x y : A} → P x → P y → P (if b then x else y)
branches P true h k = h
branches P false h k = k

pub read_request-fd : (c : Client) (r : Option Bytes) → (read_request c r).0.fd ≡ c.fd
unfolding read_request
read_request-fd c none = refl
read_request-fd c (some []) = refl
read_request-fd c (some (b ∷ s)) = refl

pub write_response-fd : (c : Client) (n : ℤ) → (write_response c n).0.fd ≡ c.fd
unfolding write_response
write_response-fd c n = ground arith

pub process_request-fd :
    (m : RegexMatch) (r : Router) (c : Client) → (process_request m r c).fd ≡ c.fd
unfolding process_request prepare_response
process_request-fd m r c = refl

module _ (regex_match : RegexMatch) (fd : ℤ) where
  answer_client-Settled :
      (p : Pool) (c : Client) (n : ℤ)
      → InSync p
      → client_at fd p ≡ some c
      → Settled p fd (answer_client regex_match p fd c n)
  unfolding answer_client
  answer_client-Settled p c n s found =
      let processed = process_request regex_match p.router (set_state c ClientState.processing) in
      let written = (write_response processed n).0 in
      let same : written.fd ≡ fd =
        write_response-fd processed n
        ∙ process_request-fd regex_match p.router (set_state c ClientState.processing)
        ∙ (s.owned fd c found).0 in
      let q = update_client p fd written (bytes_to_send processed) in
      let t : InSync q =
        update_client-InSync p fd c written (bytes_to_send processed) s found same in
      let closed =
        after_update p fd c written (bytes_to_send processed) (close_connection q fd) found (
          close_connection-Settled q fd written t
            (updated p fd written (bytes_to_send processed))) in
      branches (Settled p fd) (ltb_ℤ (write_response processed n).1 (pos 0)) closed closed

  handle_bytes-Settled :
      (p : Pool) (old c : Client) (bytes_read n : ℤ)
      → InSync p
      → client_at fd p ≡ some old
      → c.fd ≡ fd
      → Settled p fd (handle_bytes regex_match p fd (c, bytes_read) n)
  unfolding handle_bytes
  handle_bytes-Settled p old c bytes_read n s found same =
      let q = update_client p fd c [] in
      let t : InSync q = update_client-InSync p fd old c [] s found same in
      let here : client_at fd q ≡ some c = updated p fd c [] in
      after_update p fd old c [] (handle_bytes regex_match p fd (c, bytes_read) n) found (
        branches (Settled q fd) (not (ltb_ℤ (pos 0) bytes_read))
          (close_connection-Settled q fd c t here)
          (branches (Settled q fd) (is_request_ready c) (answer_client-Settled q c n t here)
            (kept-Settled q fd t)))

  event_branches :
      (p : Pool) (events : ℕ) (received : Option Bytes) (n : ℤ) (found : Option Client)
      → InSync p
      → client_at fd p ≡ found
      → get_client p.connections fd ≡ found
      → Settled p fd (handle_client_event regex_match p fd events received n)
  unfolding handle_client_event
  event_branches p events received n none s there got =
      rw (got, handle_client_event) (kept-Settled p fd s)
  event_branches p events received n (some c) s there got =
      rw (got, handle_client_event)
        (branches (Settled p fd) (has_event events event_error_hangup)
          (close_connection-Settled p fd c s there)
          (branches (Settled p fd) (has_event events event_read)
            (handle_bytes-Settled p c (read_request c received).0 (read_request c received).1 n s
              there (read_request-fd c received ∙ (s.owned fd c there).0))
            (kept-Settled p fd s)))

  -- An event of any kind, with any answer of `recv` and of `send`, throws nothing in a pool that is
  -- in sync and leaves it in sync: the client of the descriptor stays with nothing closed, or it
  -- is gone, the poller does not watch the descriptor any more, and the descriptor was closed once.
  pub handle_client_event-Settled :
      (p : Pool) (events : ℕ) (received : Option Bytes) (n : ℤ)
      → InSync p
      → Settled p fd (handle_client_event regex_match p fd events received n)
  unfolding get_client
  handle_client_event-Settled p events received n s =
      event_branches p events received n (client_at fd p) s refl refl
