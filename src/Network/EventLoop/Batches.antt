-- ===== src/Network/EventLoop/Batches.antt =====
-- The loop of a pool: every batch is handled in full, and the pool stays in sync.
use fion.Prelude.{ℕ, Option, none, List, [], ◌∷◌, ◌≡◌, refl, ◌∙◌, foldl}
use fion.Prelude.Int.{ℤ}
use fion.Text.{Bytes}
use fion.Routing.{RegexMatch}
use fion.Network.EventLoop.{EventLoop, dispatch}
use fion.Network.Pool.Events.{Pool, Outcome, handle_client_event}
use fion.Network.Pool.Watched.{InSync}
use fion.Network.Pool.Settled.{handle_client_event-Settled}

-- An event of the poller, with what `recv` and `send` give if the pool calls them.
pub record Arrival : Type 0 where
  pub fd : ℤ
  pub events : ℕ
  pub received : Option Bytes
  pub send_result : ℤ

module _ (regex_match : RegexMatch) where
  -- The callback that the constructor of `Pool` sets.
  abbrev pub pool_callback : Pool → Arrival → Outcome
  pool_callback p a = handle_client_event regex_match p a.fd a.events a.received a.send_result

  -- The state when every event of a batch is handled.
  abbrev pub handle_all : List Arrival → Pool → Pool
  handle_all batch p = foldl (λ q a. (pool_callback q a).0) p batch

  going_on :
      (a : Arrival) (rest : List Arrival) (p : Pool)
      → (pool_callback p a).1 ≡ none
      → dispatch pool_callback (a ∷ rest) p ≡ dispatch pool_callback rest (pool_callback p a).0
  unfolding dispatch
  going_on a rest p h = rw (h, dispatch) refl

  pub handled :
      (p : Pool) (a : Arrival)
      → InSync p
      → ((pool_callback p a).1 ≡ none) × InSync (pool_callback p a).0
  handled p a s =
      let t = handle_client_event-Settled regex_match a.fd p a.events a.received a.send_result s in
      (t.0, t.1)

  pub batch_handled :
      (batch : List Arrival) (p : Pool)
      → InSync p
      → (dispatch pool_callback batch p ≡ (handle_all batch p, none)) × InSync (handle_all batch p)
  unfolding dispatch
  batch_handled [] p s = (refl, s)
  batch_handled (a ∷ rest) p s =
      let (quiet, next) = handled p a s in
      let (same, after) = batch_handled rest (pool_callback p a).0 next in
      (going_on a rest p quiet ∙ same, after)
