-- ===== src/Network/Server.antt =====
-- headers/network/Server.hpp and sources/network/Server.cpp, with `start_all` and `stop_all` of
-- sources/network/PoolManager.cpp. The answers of the system calls are arguments, and so are the
-- values that the accept thread reads from `_running`, which `stop` sets from another thread.
pub mod Starting
pub mod Cycle
pub mod Accepting
use fion.Prelude.{
  ℕ, zero, suc, Bool, true, false, not, Option, none, some, List, [], ◌∷◌, ◌++◌, if◌then◌else◌, map,
}
use fion.Prelude.Results.{Exception}
use fion.Prelude.Int.{ℤ, pos, ltb_ℤ}
use fion.Text.{Bytes}
use fion.Routing.{Router}
use fion.Network.ConnectionPool.{empty_pool}
use fion.Network.Listener.{
  Listener, new_listener, BindAnswers, bind, listen, accept_client, close_listener,
}
use fion.Network.Pool.Events.{Pool}
use fion.Network.Pool.Lifecycle.{Lifecycle, new_lifecycle, run_pool, begin_stop_pool, end_stop_pool}
use fion.Network.PoolManager.{PoolManager, new_manager, add_pool, distribute_client}

-- The threads of the pools stand beside the manager, in the order of the pools; with the descriptors
-- that the accept loop passed to `close`, the last one first.
pub record Server : Type 0 where
  pub listener : Listener
  pub manager : PoolManager
  pub lifecycles : List Lifecycle
  pub router : Router
  pub running : Bool
  pub accept_thread : Bool
  pub closed_clients : List ℤ

abbrev pub new_server : Router → Server
new_server router = record {
  listener = new_listener;
  manager = new_manager;
  lifecycles = [];
  router = router;
  running = false;
  accept_thread = false;
  closed_clients = [];
}

abbrev pub new_pool : Router → Pool
new_pool router = record {
  router = router;
  connections = empty_pool;
  watched = [];
  closed_fds = [];
  sent = [];
}

-- What the system calls of `start` give.
pub record StartAnswers : Type 0 where
  pub bind_answers : BindAnswers
  pub listens : Bool

abbrev pub StartOutcome : Type 0
StartOutcome = Server × Option Exception

-- The loop that makes the pools.
unfoldable pub add_pools : ℕ → Router → PoolManager → PoolManager
add_pools zero router m = m
add_pools (suc n) router m = add_pools n router (add_pool m (new_pool router))

unfoldable pub add_lifecycles : ℕ → List Lifecycle → List Lifecycle
add_lifecycles zero l = l
add_lifecycles (suc n) l = add_lifecycles n (l ++ (new_lifecycle ∷ []))

unfoldable pub start_all : List Lifecycle → List Lifecycle
start_all l = map run_pool l

-- Where every `join` returns.
unfoldable pub stop_all : List Lifecycle → List Lifecycle
stop_all l = map (λ c. end_stop_pool (begin_stop_pool c)) l

-- From the loop over the threads on.
unfoldable pub launch : Server → ℕ → Server
launch s num_threads = record s {
  manager = add_pools num_threads s.router s.manager;
  lifecycles = start_all (add_lifecycles num_threads s.lifecycles);
  accept_thread = true;
}

unfoldable pub after_listen : Server → Listener × Option Exception → ℕ → StartOutcome
after_listen s (l, thrown) num_threads =
    let listening = record s { listener = l } in
    elim thrown [ none ↦ (launch listening num_threads, none) | some e ↦ (listening, some e) ]

unfoldable pub after_bind : Server → Listener × Option Exception → Bool → ℕ → StartOutcome
after_bind s (l, thrown) listens num_threads = elim thrown [
  | none ↦ after_listen s (listen l listens) num_threads
  | some e ↦ (record s { listener = l }, some e)
]

-- `start`: the flag is set before anything else.
unfoldable pub start_server : Server → Bytes → StartAnswers → ℕ → StartOutcome
start_server s host a num_threads =
    let started =
      after_bind (record s { running = true }) (bind s.listener host a.bind_answers) a.listens
        num_threads in
    if s.running then (s, none) else started

-- `stop`, where every `join` returns; the destructor calls it too.
unfoldable pub stop_server : Server → Server
stop_server s =
    if s.running
    then record s {
      running = false;
      listener = close_listener s.listener;
      accept_thread = false;
      lifecycles = stop_all s.lifecycles;
    }
    else s

-- A turn of the accept loop: what `_running` is before it, what `accept` gives if it is called, and
-- whether epoll accepts the descriptor.
pub record AcceptTurn : Type 0 where
  pub goes_on : Bool
  pub accepted : ℤ
  pub registered : Bool

abbrev settle_client : Server → ℤ → PoolManager × Option Exception → Server
settle_client s fd (m, none) = record s { manager = m }
settle_client s fd (m, some e) = record s { manager = m; closed_clients = fd ∷ s.closed_clients }

-- The body of the loop: an exception is logged, and the descriptor is closed.
unfoldable pub accept_turn : Server → AcceptTurn → Server
accept_turn s t =
    let fd = accept_client s.listener t.accepted in
    let settled = settle_client s fd (distribute_client s.manager fd t.registered) in
    if not (ltb_ℤ fd (pos 0)) then settled else s

unfoldable pub accept_loop : List AcceptTurn → Server → Server
accept_loop [] s = s
accept_loop (t ∷ rest) s =
    let later = accept_loop rest (accept_turn s t) in if t.goes_on then later else s
