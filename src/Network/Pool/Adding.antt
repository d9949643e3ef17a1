-- ===== src/Network/Pool/Adding.antt =====
-- `Pool::addClient`: what it leaves when epoll accepts the descriptor, and when it does not.
use fion.Prelude.{
  Bool, true, false, none, some, List, [], ◌∷◌, ◌≡◌, ◌≢◌, refl, sym, ap, ◌∙◌, arith, subst,
}
use fion.Prelude.Results.{Exception, ok}
use fion.Prelude.Int.{ℤ, pos, ltb_ℤ}
use fion.Prelude.IntLaws.{eq_ℤ_iff}
use fion.Text.{codes}
use fion.Network.Client.{Client, ClientState, new_client}
use fion.Network.ConnectionPool.{ConnectionPool, find_client, put_client, closed_at, add_client}
use fion.Network.ConnectionPool.Laws.{find_client-put_client, put_client-AreUnique}
use fion.Network.Pool.Events.{Pool, is_watched, Outcome, add_fd, pool_add_client}
use fion.Network.Pool.Watched.{InSync, is_present, closed_one}
use fion.Network.Pool.Settled.{client_at, eq_ℤ_refl}
use fion.Network.Buffer.{new_buffer}

abbrev pub fresh_client : ℤ → Client
fresh_client fd = record {
  fd = fd;
  request_buffer = new_buffer;
  response_buffer = new_buffer;
  state = ClientState.reading_request;
}

-- The pool with a new client, before the poller knows of it.
abbrev pub with_client : Pool → ℤ → Pool
with_client p fd = record p {
  connections = record { clients = put_client fd (fresh_client fd) p.connections.clients };
}

made : (fd : ℤ) → ltb_ℤ fd (pos 0) ≡ false → new_client fd ≡ ok (fresh_client fd)
unfolding new_client
made fd h = rw h refl

nothing_closed : (fd : ℤ) (l : List (ℤ × Client)) → find_client fd l ≡ none → closed_at fd l ≡ []
unfolding closed_at
nothing_closed fd l h = rw (h, closed_at) refl

added :
    (p : ConnectionPool) (fd : ℤ)
    → ltb_ℤ fd (pos 0) ≡ false
    → find_client fd p.clients ≡ none
    → add_client p fd ≡ ok (record { clients = put_client fd (fresh_client fd) p.clients }, [])
unfolding add_client
added p fd valid free = rw (made fd valid, nothing_closed fd p.clients free) refl

add_client_first :
    (p : Pool) (fd : ℤ) (accepted : Bool)
    → ltb_ℤ fd (pos 0) ≡ false
    → client_at fd p ≡ none
    → pool_add_client p fd accepted ≡ add_fd (with_client p fd) fd accepted
unfolding pool_add_client
add_client_first p fd accepted valid free =
    rw (added p.connections fd valid free, pool_add_client) refl

registered :
    (p : Pool) (fd : ℤ)
    → is_watched fd p.watched ≡ false
    → add_fd p fd true ≡ (record p { watched = fd ∷ p.watched }, none)
unfolding add_fd
registered p fd h = rw h refl

refused : (p : Pool) (fd : ℤ) → (e : Exception) × (add_fd p fd false ≡ (p, some e))
unfolding add_fd
refused p fd = (Exception.runtime_error (codes "Failed to add fd to epoll: "), ground arith)

present : (p : Pool) (fd : ℤ) → client_at fd (with_client p fd) ≡ some (fresh_client fd)
present p fd =
    find_client-put_client fd fd (fresh_client fd) p.connections.clients ∙ rw (eq_ℤ_refl fd) refl

with_client-InSync :
    (p : Pool) (fd : ℤ)
    → InSync p
    → ltb_ℤ fd (pos 0) ≡ false
    → client_at fd p ≡ none
    → InSync (record (with_client p fd) { watched = fd ∷ p.watched })
unfolding is_watched
with_client-InSync p fd s valid free = record {
  unique = put_client-AreUnique fd (fresh_client fd) p.connections.clients s.unique;
  once = (s.agree fd ∙ ap is_present free, s.once);
  agree = λ j.
      ground
        (arith, s.agree j, find_client-put_client j fd (fresh_client fd) p.connections.clients);
  owned = λ j d h. ground (
    arith,
    s.owned j d,
    find_client-put_client j fd (fresh_client fd) p.connections.clients,
    eq_ℤ_iff j fd,
    h,
    valid,
  );
}

-- `Pool::addClient` of a valid descriptor that has no client, when epoll accepts it: nothing is
-- thrown, the pool stays in sync with a new client for the descriptor, and nothing is closed.
pub pool_add_client_accepted :
    (p : Pool) (fd : ℤ)
    → InSync p
    → ltb_ℤ fd (pos 0) ≡ false
    → client_at fd p ≡ none
    → ((pool_add_client p fd true).1 ≡ none)
      × InSync (pool_add_client p fd true).0
      × (client_at fd (pool_add_client p fd true).0 ≡ some (fresh_client fd))
      × ((pool_add_client p fd true).0.closed_fds ≡ p.closed_fds)
pool_add_client_accepted p fd s valid free =
    subst
      (λ (o : Outcome).
        (o.1 ≡ none)
        × InSync o.0
        × (client_at fd o.0 ≡ some (fresh_client fd))
        × (o.0.closed_fds ≡ p.closed_fds))
      (sym (
        add_client_first p fd true valid free
        ∙ registered (with_client p fd) fd (s.agree fd ∙ ap is_present free)))
      (refl, with_client-InSync p fd s valid free, present p fd, refl)

-- When epoll refuses the descriptor, the exception leaves a client in the pool that owns the
-- descriptor and that the poller does not watch: the pool is not in sync any more.
pub pool_add_client_refused :
    (p : Pool) (fd : ℤ)
    → InSync p
    → ltb_ℤ fd (pos 0) ≡ false
    → client_at fd p ≡ none
    → ((pool_add_client p fd false).1 ≢ none)
      × (client_at fd (pool_add_client p fd false).0 ≡ some (fresh_client fd))
      × (is_watched fd (pool_add_client p fd false).0.watched ≡ false)
      × (¬ InSync (pool_add_client p fd false).0)
pool_add_client_refused p fd s valid free =
    let (e, stopped) = refused (with_client p fd) fd in
    let unwatched = s.agree fd ∙ ap is_present free in
    subst
      (λ (o : Outcome).
        (o.1 ≢ none)
        × (client_at fd o.0 ≡ some (fresh_client fd))
        × (is_watched fd o.0.watched ≡ false)
        × (¬ InSync o.0))
      (sym (add_client_first p fd false valid free ∙ stopped))
      (
        (λ h. cc h),
        present p fd,
        unwatched,
        λ t. absurd (cc (t.agree fd, ap is_present (present p fd), unwatched)),
      )

added_over :
    (p : ConnectionPool) (fd : ℤ)
    → ltb_ℤ fd (pos 0) ≡ false
    → find_client fd p.clients ≡ some (fresh_client fd)
    → add_client p fd ≡ ok (record { clients = put_client fd (fresh_client fd) p.clients }, fd ∷ [])
unfolding add_client
added_over p fd valid taken =
    rw (made fd valid, closed_one fd p.clients (fresh_client fd) taken refl valid) refl

refused_again :
    (p : Pool) (fd : ℤ) (accepted : Bool)
    → ltb_ℤ fd (pos 0) ≡ false
    → client_at fd p ≡ some (fresh_client fd)
    → pool_add_client p fd accepted
      ≡ add_fd (record (with_client p fd) { closed_fds = fd ∷ p.closed_fds }) fd accepted
unfolding pool_add_client
refused_again p fd accepted valid taken =
    rw (added_over p.connections fd valid taken, pool_add_client) refl

closed_before :
    (p : Pool) (fd : ℤ) (accepted : Bool)
    → ((add_fd p fd accepted).0.closed_fds ≡ p.closed_fds)
      × (client_at fd (add_fd p fd accepted).0 ≡ client_at fd p)
unfolding add_fd
closed_before p fd accepted = ground arith

-- Behind a client that epoll refused, whose descriptor the accept loop has closed: the next
-- connection that gets the same number is closed while it comes in, by the destructor of the client
-- that stayed behind, whether or not epoll accepts the number then; and a client stands under the
-- number again.
pub stale_client_closes :
    (p : Pool) (fd : ℤ) (accepted : Bool)
    → InSync p
    → ltb_ℤ fd (pos 0) ≡ false
    → client_at fd p ≡ none
    → ((pool_add_client (pool_add_client p fd false).0 fd accepted).0.closed_fds
        ≡ fd ∷ p.closed_fds)
      × (client_at fd (pool_add_client (pool_add_client p fd false).0 fd accepted).0
          ≡ some (fresh_client fd))
stale_client_closes p fd accepted s valid free =
    let stale = (pool_add_client p fd false).0 in
    let (_, taken, _, _) = pool_add_client_refused p fd s valid free in
    let first = add_client_first p fd false valid free in
    let again = refused_again stale fd accepted valid taken in
    let (closed, kept) =
      closed_before (record (with_client stale fd) { closed_fds = fd ∷ stale.closed_fds }) fd
        accepted in
    let (before, _) = closed_before (with_client p fd) fd false in
    (
      ap (λ (o : Outcome). o.0.closed_fds) again
          ∙ closed
          ∙ ap (λ (l : List ℤ). fd ∷ l) (ap (λ (o : Outcome). o.0.closed_fds) first ∙ before),
      ap (λ (o : Outcome). client_at fd o.0) again ∙ kept ∙ present stale fd,
    )

add_fd-keeps :
    (p : Pool) (fd : ℤ) (accepted : Bool)
    → ((add_fd p fd accepted).0.router ≡ p.router) × ((add_fd p fd accepted).0.sent ≡ p.sent)
unfolding add_fd
add_fd-keeps p fd accepted = ground arith

-- A new client changes neither the router nor what was sent.
pub pool_add_client-keeps :
    (p : Pool) (fd : ℤ) (accepted : Bool)
    → ltb_ℤ fd (pos 0) ≡ false
    → client_at fd p ≡ none
    → ((pool_add_client p fd accepted).0.router ≡ p.router)
      × ((pool_add_client p fd accepted).0.sent ≡ p.sent)
pool_add_client-keeps p fd accepted valid free =
    subst (λ (o : Outcome). (o.0.router ≡ p.router) × (o.0.sent ≡ p.sent))
      (sym (add_client_first p fd accepted valid free))
      (add_fd-keeps (with_client p fd) fd accepted)
