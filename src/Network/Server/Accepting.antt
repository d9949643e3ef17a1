-- ===== src/Network/Server/Accepting.antt =====
-- `Server::accept_loop`: what becomes of the pools.
use native.Mathlib.Nat.{mod-lt}
use fion.Prelude.{
  ℕ, zero, suc, ◌+◌, ◌%◌, ◌<◌, true, false, Option, none, some, List, [], ◌∷◌, ◌≡◌, refl, sym, ◌∙◌,
  arith, ◌==◌, length, get_elem?, Bool-cases, inl, inr, ◌⊎◌, subst, on_true, on_false, some-eq, All,
  All-snoc, All-get,
}
use fion.Prelude.Results.{Exception}
use fion.Prelude.Int.{ℤ, pos, ltb_ℤ}
use fion.Network.Listener.{accept_client}
use fion.Network.Pool.Events.{Pool, is_watched}
use fion.Network.Pool.Watched.{InSync}
use fion.Network.Pool.Settled.{client_at}
use fion.Network.Pool.Adding.{pool_add_client_accepted}
use fion.Network.PoolManager.{PoolManager, new_manager, add_pool, distribute_client}
use fion.Network.PoolManager.Turns.{get_elem?_lt, distribute_client_lem}
use fion.Network.Server.{
  Server, AcceptTurn, settle_client, accept_turn, accept_loop, new_server, new_pool, StartAnswers,
  add_pools, start_server,
}
use fion.Network.Server.Cycle.{length-add_pools, started_manager}
use fion.Network.ConnectionPool.{find_client}
use fion.Routing.{Router}
use fion.Text.{Bytes}

-- There is a pool whose turn it is, and every pool is in sync.
pub record IsServing (m : PoolManager) : Type 0 where
  pub has_next : m.next_pool_index < length m.pools
  pub in_sync : (j : ℕ) (p : Pool) → get_elem? m.pools j ≡ some p → InSync p

-- The descriptor of a turn has no client in any pool, and epoll accepts it; or there is none.
abbrev pub IsFresh : Server → AcceptTurn → Type 0
IsFresh s t =
    (ltb_ℤ (accept_client s.listener t.accepted) (pos 0) ≡ true)
    ⊎ ((t.registered ≡ true)
        × ((j : ℕ) (p : Pool)
            → get_elem? s.manager.pools j ≡ some p
            → client_at (accept_client s.listener t.accepted) p ≡ none))

-- Every descriptor is fresh when its turn comes.
abbrev pub AreFresh : List AcceptTurn → Server → Type 0
AreFresh [] s = Unit {0}
AreFresh (t ∷ rest) s = IsFresh s t × AreFresh rest (accept_turn s t)

get_elem?-lt : (ps : List Pool) (i : ℕ) (p : Pool) → get_elem? ps i ≡ some p → i < length ps
get_elem?-lt [] i p h = cc h
get_elem?-lt (q ∷ ps) zero p h = omega arith
get_elem?-lt (q ∷ ps) (suc i) p h = omega (arith, get_elem?-lt ps i p h)

distributed-IsServing :
    (m : PoolManager) (fd : ℤ)
    → IsServing m
    → ltb_ℤ fd (pos 0) ≡ false
    → ((j : ℕ) (p : Pool) → get_elem? m.pools j ≡ some p → client_at fd p ≡ none)
    → ((distribute_client m fd true).1 ≡ none) × IsServing (distribute_client m fd true).0
distributed-IsServing m fd s valid free =
    let (p, found, thrown, pools, next) = distribute_client_lem m fd true s.has_next in
    let (quiet, added, _, _) =
      pool_add_client_accepted p fd (s.in_sync m.next_pool_index p found) valid
        (free m.next_pool_index p found) in
    let after = (distribute_client m fd true).0 in
    let place = (m.next_pool_index + 1) % length m.pools in
    let (old, there) =
      get_elem?_lt m.pools place (mod-lt (m.next_pool_index + 1) (omega (arith, s.has_next))) in
    (
      thrown ∙ quiet,
      record {
        has_next = elim (Bool-cases (place == m.next_pool_index)) [
          | inl same ↦
              subst (λ (i : ℕ). i < length after.pools) (sym next)
                (get_elem?-lt after.pools place _ (pools place ∙ on_true _ _ same))
          | inr other ↦
              subst (λ (i : ℕ). i < length after.pools) (sym next)
                (get_elem?-lt after.pools place _ (pools place ∙ on_false _ _ other ∙ there))
        ];
        in_sync = λ j q here. elim (Bool-cases (j == m.next_pool_index)) [
          | inl same ↦ subst InSync (some-eq (sym (on_true _ _ same) ∙ sym (pools j) ∙ here)) added
          | inr other ↦ s.in_sync j q (sym (on_false _ _ other) ∙ sym (pools j) ∙ here)
        ];
      },
    )

settled_quietly :
    (s : Server) (fd : ℤ) (r : PoolManager × Option Exception)
    → r.1 ≡ none
    → settle_client s fd r ≡ record s { manager = r.0 }
settled_quietly s fd (m, none) h = refl
settled_quietly s fd (m, some e) h = cc h

-- A server after some turns: the pools can be served, and nothing else of it has changed.
abbrev pub Served : Server → Server → Type 0
Served s f = IsServing f.manager × (f.closed_clients ≡ s.closed_clients) × (f.listener ≡ s.listener)

turn-Served :
    (s : Server) (t : AcceptTurn) → IsServing s.manager → IsFresh s t → Served s (accept_turn s t)
unfolding accept_turn
turn-Served s t ready fresh =
    let fd = accept_client s.listener t.accepted in
    elim (Bool-cases (ltb_ℤ fd (pos 0))) [
      | inl absent ↦ rw absent (ready, refl, refl)
      | inr valid ↦ elim fresh [
        | inl absent ↦ absurd (cc (absent, valid))
        | inr (registered, free) ↦
            let (quiet, after) = distributed-IsServing s.manager fd ready valid free in
            rw (valid, registered)
              (subst (λ (f : Server). Served s f)
                (sym (settled_quietly s fd (distribute_client s.manager fd true) quiet))
                (after, refl, refl))
      ]
    ]

-- The accept loop of a server with a pool whose turn it is and with all pools in sync, where epoll
-- accepts every descriptor that comes in, and none of them has a client in a pool when it comes: the
-- pools are in sync behind any turns, and the loop closes nothing.
pub accept_loop-Served :
    (turns : List AcceptTurn) (s : Server)
    → IsServing s.manager
    → AreFresh turns s
    → Served s (accept_loop turns s)
unfolding accept_loop
accept_loop-Served [] s ready fresh = (ready, refl, refl)
accept_loop-Served (t ∷ rest) s ready (fresh, later) = elim (Bool-cases t.goes_on) [
  | inr ends ↦ rw ends (ready, refl, refl)
  | inl more ↦
      let (next, closed, listener) = turn-Served s t ready fresh in
      let (after, closed_after, listener_after) =
        accept_loop-Served rest (accept_turn s t) next later in
      subst (λ (f : Server). Served s f) (sym (on_true _ _ more))
        (after, closed_after ∙ closed, listener_after ∙ listener)
]

pub new_pool-InSync : (router : Router) → InSync (new_pool router)
unfolding is_watched find_client
new_pool-InSync router = record {
  unique = tt;
  once = tt;
  agree = λ fd. refl;
  owned = λ fd c h. absurd (cc h);
}

added-All :
    (n : ℕ) (router : Router) (m : PoolManager)
    → All InSync m.pools
    → All InSync (add_pools n router m).pools
      × ((add_pools n router m).next_pool_index ≡ m.next_pool_index)
unfolding add_pools add_pool
added-All zero router m all = (all, refl)
added-All (suc n) router m all =
    added-All n router (add_pool m (new_pool router))
      (All-snoc InSync m.pools all (new_pool-InSync router))

-- A new server whose `start` with at least one thread returns: there is a pool whose turn it is, every
-- pool is in sync, and so they are behind any turns of the accept loop in which epoll accepts every
-- descriptor and none has a client in a pool when it comes; the loop closes nothing.
pub start_server-Served :
    (router : Router) (host : Bytes) (a : StartAnswers) (n : ℕ) (turns : List AcceptTurn)
    → (start_server (new_server router) host a (suc n)).1 ≡ none
    → AreFresh turns (start_server (new_server router) host a (suc n)).0
    → IsServing (start_server (new_server router) host a (suc n)).0.manager
      × Served
          (start_server (new_server router) host a (suc n)).0
          (accept_loop turns (start_server (new_server router) host a (suc n)).0)
start_server-Served router host a n turns quiet fresh =
    let ready : IsServing (start_server (new_server router) host a (suc n)).0.manager =
      subst IsServing (sym (started_manager (new_server router) host a (suc n) refl quiet)) (
        let (all, next) = added-All (suc n) router new_manager tt in
        record {
          has_next = omega (arith, next, length-add_pools (suc n) router new_manager);
          in_sync =
              λ j p found. All-get InSync (add_pools (suc n) router new_manager).pools j all found;
        }) in
    (
      ready,
      accept_loop-Served turns (start_server (new_server router) host a (suc n)).0 ready fresh,
    )
