-- ===== src/Network/Server/Cycle.antt =====
-- `Server::start` and `Server::stop`: what a start that returns makes, and what the next stop leaves.
use fion.Prelude.{All}
use fion.Network.Pool.Lifecycle.{Lifecycle, no_thread, spawned}
use fion.Prelude.{
  ℕ, zero, suc, ◌+◌, true, false, none, [], ◌∷◌, ◌≡◌, refl, sym, ap, ◌∙◌, arith, length,
  length-append, inl, inr, ◌⊎◌, Bool-cases, subst,
}
use fion.Text.{Bytes}
use fion.Routing.{Router}
use fion.Network.PoolManager.{PoolManager, add_pool}
use fion.Network.Server.{
  Server, new_pool, StartAnswers, StartOutcome, add_pools, launch, start_server, stop_server,
}
use fion.Network.Server.Starting.{start_cases, refused_again}

pub length-add_pools :
    (n : ℕ) (router : Router) (m : PoolManager)
    → length (add_pools n router m).pools ≡ length m.pools + n
unfolding add_pools add_pool
length-add_pools zero router m = omega arith
length-add_pools (suc n) router m = omega (
  arith,
  length-add_pools n router (add_pool m (new_pool router)),
  length-append m.pools (new_pool router ∷ []),
)

-- What a start that returns leaves, and what the next stop makes of it.
abbrev pub RunsAndStops : Server → StartAnswers → ℕ → Server → Type 0
RunsAndStops s a n f =
    (f.running ≡ true)
    × (f.accept_thread ≡ true)
    × (f.listener.is_listening ≡ true)
    × (f.listener.listen_fd ≡ a.bind_answers.socket_fd)
    × (length f.manager.pools ≡ length s.manager.pools + n)
    × (length f.lifecycles ≡ length s.lifecycles + n)
    × All (λ (l : Lifecycle). l.thread ≡ spawned) f.lifecycles
    × ((stop_server f).running ≡ false)
    × ((stop_server f).accept_thread ≡ false)
    × ((stop_server f).listener.is_listening ≡ false)
    × ((stop_server f).listener.closed_fds ≡ a.bind_answers.socket_fd ∷ s.listener.closed_fds)
    × ((stop_server f).manager.pools ≡ f.manager.pools)
    × All (λ (l : Lifecycle). l.thread ≡ no_thread) (stop_server f).lifecycles

pub started_manager :
    (s : Server) (host : Bytes) (a : StartAnswers) (n : ℕ)
    → s.running ≡ false
    → (start_server s host a n).1 ≡ none
    → (start_server s host a n).0.manager ≡ add_pools n s.router s.manager
unfolding launch
started_manager s host a n idle quiet = elim (start_cases s host a n idle) [
  | inl (e, l, same) ↦ absurd (cc (sym quiet ∙ ap (λ (r : StartOutcome). r.1) same))
  | inr (held, same) ↦ ap (λ (r : StartOutcome). r.0.manager) same
]

-- What a start does to the pools, whether it returns or throws.
abbrev pub KeepsPools : Server → ℕ → Server → Type 0
KeepsPools s n f =
    (f.router ≡ s.router) × ((f.manager ≡ s.manager) ⊎ (f.manager ≡ add_pools n s.router s.manager))

pub start_server-KeepsPools :
    (s : Server) (host : Bytes) (a : StartAnswers) (n : ℕ)
    → KeepsPools s n (start_server s host a n).0
unfolding launch
start_server-KeepsPools s host a n = elim (Bool-cases s.running) [
  | inl up ↦
      subst (λ (r : StartOutcome). KeepsPools s n r.0) (sym (refused_again s host a n up))
        (refl, inl refl)
  | inr idle ↦ elim (start_cases s host a n idle) [
    | inl (e, l, same) ↦
        subst (λ (r : StartOutcome). KeepsPools s n r.0) (sym same) (refl, inl refl)
    | inr (held, same) ↦
        subst (λ (r : StartOutcome). KeepsPools s n r.0) (sym same) (refl, inr refl)
  ]
]
