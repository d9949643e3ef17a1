-- ===== src/Network/PoolManager.antt =====
-- headers/network/PoolManager.hpp and sources/network/PoolManager.cpp: the pools take turns.
pub mod Turns
use fion.Prelude.{
  ℕ, zero, suc, ◌+◌, ◌%◌, Bool, true, false, not, Option, none, some, List, [], ◌∷◌, ◌++◌, length,
  get_elem?,
}
use fion.Prelude.Results.{Exception}
use fion.Prelude.Int.{ℤ}
use fion.Text.{codes}
use fion.Network.Pool.Events.{Pool, Outcome, pool_add_client}

pub record PoolManager : Type 0 where
  pub pools : List Pool
  pub next_pool_index : ℕ

abbrev pub new_manager : PoolManager
new_manager = record { pools = []; next_pool_index = 0 }

unfoldable pub add_pool : PoolManager → Pool → PoolManager
add_pool m pool = record m { pools = m.pools ++ (pool ∷ []) }

-- `get_pool`: the position of the pool, `none` for a null pointer.
unfoldable pub get_pool : PoolManager → PoolManager × Option ℕ
get_pool m = elim m.pools [
  | [] ↦ (m, none)
  | _ ∷ _ ↦ (
    record m { next_pool_index = (m.next_pool_index + 1) % length m.pools },
    some (m.next_pool_index % length m.pools),
  )
]

-- The pool at a position is changed where it stands.
unfoldable pub put_at : ℕ → Pool → List Pool → List Pool
put_at i q [] = []
put_at zero q (p ∷ ps) = q ∷ ps
put_at (suc i) q (p ∷ ps) = p ∷ put_at i q ps

-- The call of `addClient` on the pool at a position.
unfoldable pub add_at : PoolManager → ℕ → ℤ → Bool → PoolManager × Option Exception
add_at m i fd accepted = elim (get_elem? m.pools i) [
  | none ↦ (m, none)
  | some p ↦
      let (q, thrown) = pool_add_client p fd accepted in
      (record m { pools = put_at i q m.pools }, thrown)
]

unfoldable pub distribute_client : PoolManager → ℤ → Bool → PoolManager × Option Exception
distribute_client m fd accepted =
    let (chosen, place) = get_pool m in
    elim place [
      | none ↦
          (chosen, some (Exception.runtime_error (codes "No pools available to distribute client")))
      | some i ↦ add_at chosen i fd accepted
    ]
