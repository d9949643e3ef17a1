-- ===== src/Network/PoolManager/Turns.antt =====
-- The pools are selected one after the other.
use native.Mathlib.Nat.{mod-eq_of_lt, mod-add-mod, add-mod_right}
use fion.Prelude.{
  ℕ, zero, suc, ◌+◌, ◌-◌, ◌<◌, ◌%◌, Bool, Option, some, List, [], ◌∷◌, ◌≡◌, refl, ap, ◌∙◌, arith,
  ◌==◌, if◌then◌else◌, ltb, Bool-cases, inl, inr, length, get_elem?,
}
use fion.Prelude.Results.{Exception}
use fion.Prelude.Int.{ℤ}
use fion.Network.Pool.Events.{Pool, pool_add_client}
use fion.Network.PoolManager.{PoolManager, get_pool, put_at, add_at, distribute_client}

-- The manager after some calls of `get_pool`.
abbrev pub after_calls : ℕ → PoolManager → PoolManager
after_calls zero m = m
after_calls (suc k) m = after_calls k (get_pool m).0

selected :
    (ps : List Pool) (i : ℕ)
    → 0 < length ps
    → get_pool (record { pools = ps; next_pool_index = i })
      ≡ (record { pools = ps; next_pool_index = (i + 1) % length ps }, some (i % length ps))
unfolding get_pool
selected [] i h = absurd (omega arith)
selected (p ∷ ps) i h = refl

nth :
    (k : ℕ) (ps : List Pool) (i : ℕ)
    → 0 < length ps
    → (get_pool (after_calls k (record { pools = ps; next_pool_index = i }))).1
      ≡ some ((i + k) % length ps)
nth zero ps i h =
    ap (λ (r : PoolManager × Option ℕ). r.1) (selected ps i h)
    ∙ ap (λ (j : ℕ). some (j % length ps)) (omega arith)
nth (suc k) ps i h =
    ap (λ (r : PoolManager × Option ℕ). (get_pool (after_calls k r.0)).1) (selected ps i h)
    ∙ nth k ps ((i + 1) % length ps) h
    ∙ ap (λ (j : ℕ). some j) (mod-add-mod (i + 1) (length ps) k)
    ∙ ap (λ (j : ℕ). some (j % length ps)) (omega arith)

-- When there are pools, the call of `get_pool` behind k others selects the pool k places behind the
-- next one, and begins again behind the last pool.
pub get_pool_nth :
    (m : PoolManager) (k : ℕ)
    → 0 < length m.pools
    → (get_pool (after_calls k m)).1 ≡ some ((m.next_pool_index + k) % length m.pools)
get_pool_nth m k h = nth k m.pools m.next_pool_index h

-- When the next index is that of a pool: of as many calls of `get_pool` as there are pools, one
-- selects any given pool.
pub get_pool_fair :
    (m : PoolManager) (j : ℕ)
    → m.next_pool_index < length m.pools
    → j < length m.pools
    → (k : ℕ) × (k < length m.pools) × ((get_pool (after_calls k m)).1 ≡ some j)
get_pool_fair m j next h = elim (Bool-cases (ltb j m.next_pool_index)) [
  | inl before ↦ (
    j + length m.pools - m.next_pool_index,
    ground arith,
    get_pool_nth m (j + length m.pools - m.next_pool_index) (omega arith)
        ∙ ap (λ (i : ℕ). some (i % length m.pools)) {y = j + length m.pools} (ground arith)
        ∙ ap (λ (i : ℕ). some i) (add-mod_right j (length m.pools) ∙ mod-eq_of_lt h),
  )
  | inr behind ↦ (
    j - m.next_pool_index,
    ground arith,
    get_pool_nth m (j - m.next_pool_index) (omega arith)
        ∙ ap (λ (i : ℕ). some (i % length m.pools)) {y = j} (ground arith)
        ∙ ap (λ (i : ℕ). some i) (mod-eq_of_lt h),
  )
]

get_elem?-put_at :
    (i j : ℕ) (q p : Pool) (ps : List Pool)
    → get_elem? ps i ≡ some p
    → get_elem? (put_at i q ps) j ≡ (if j == i then some q else get_elem? ps j)
unfolding put_at
get_elem?-put_at i j q p [] h = cc h
get_elem?-put_at zero zero q p (x ∷ ps) h = refl
get_elem?-put_at zero (suc j) q p (x ∷ ps) h = ground arith
get_elem?-put_at (suc i) zero q p (x ∷ ps) h = ground arith
get_elem?-put_at (suc i) (suc j) q p (x ∷ ps) h = get_elem?-put_at i j q p ps h ∙ ground arith

pub get_elem?_lt : (ps : List Pool) (i : ℕ) → i < length ps → (p : Pool) × (get_elem? ps i ≡ some p)
get_elem?_lt [] i h = absurd (omega arith)
get_elem?_lt (x ∷ ps) zero h = (x, refl)
get_elem?_lt (x ∷ ps) (suc i) h = get_elem?_lt ps i (omega arith)

added_at :
    (ps : List Pool) (next i : ℕ) (fd : ℤ) (accepted : Bool) (p : Pool)
    → get_elem? ps i ≡ some p
    → add_at (record { pools = ps; next_pool_index = next }) i fd accepted ≡ (
      record { pools = put_at i (pool_add_client p fd accepted).0 ps; next_pool_index = next },
      (pool_add_client p fd accepted).1,
    )
unfolding add_at
added_at ps next i fd accepted p found = rw (found, add_at) refl

called :
    (m chosen : PoolManager) (i : ℕ) (fd : ℤ) (accepted : Bool)
    → get_pool m ≡ (chosen, some i)
    → distribute_client m fd accepted ≡ add_at chosen i fd accepted
unfolding distribute_client
called m chosen i fd accepted e =
    rw (e, distribute_client) (ap (λ (r : PoolManager × Option ℕ). add_at r.0 i fd accepted) e)

distributed :
    (ps : List Pool) (i : ℕ) (fd : ℤ) (accepted : Bool) (p : Pool)
    → 0 < length ps
    → get_elem? ps (i % length ps) ≡ some p
    → distribute_client (record { pools = ps; next_pool_index = i }) fd accepted ≡ (
      record {
        pools = put_at (i % length ps) (pool_add_client p fd accepted).0 ps;
        next_pool_index = (i + 1) % length ps;
      },
      (pool_add_client p fd accepted).1,
    )
distributed ps i fd accepted p h found =
    called _ _ (i % length ps) fd accepted (selected ps i h)
    ∙ added_at ps ((i + 1) % length ps) (i % length ps) fd accepted p found

-- When the next index is that of a pool, `distribute_client` is `addClient` on this pool,
-- exception included; every other pool stays as it is, and the turn passes on.
pub distribute_client_lem :
    (m : PoolManager) (fd : ℤ) (accepted : Bool)
    → m.next_pool_index < length m.pools
    → (p : Pool) × (get_elem? m.pools m.next_pool_index ≡ some p)
      × ((distribute_client m fd accepted).1 ≡ (pool_add_client p fd accepted).1)
      × ((j : ℕ)
          → get_elem? (distribute_client m fd accepted).0.pools j ≡ (
              if j == m.next_pool_index
              then some (pool_add_client p fd accepted).0
              else get_elem? m.pools j))
      × ((distribute_client m fd accepted).0.next_pool_index
          ≡ (m.next_pool_index + 1) % length m.pools)
distribute_client_lem m fd accepted h =
    let i = m.next_pool_index in
    let (p, found) = get_elem?_lt m.pools i h in
    let place : i % length m.pools ≡ i = mod-eq_of_lt h in
    let at : get_elem? m.pools (i % length m.pools) ≡ some p =
      ap (get_elem? m.pools) place ∙ found in
    let done = distributed m.pools i fd accepted p (omega arith) at in
    (
      p,
      found,
      ap (λ (r : PoolManager × Option Exception). r.1) done,
      λ j.
          ap (λ (r : PoolManager × Option Exception). get_elem? r.0.pools j) done
          ∙ get_elem?-put_at (i % length m.pools) j (pool_add_client p fd accepted).0 p m.pools at
          ∙ ap
              (λ (k : ℕ).
                if j == k then some (pool_add_client p fd accepted).0 else get_elem? m.pools j)
              place,
      ap (λ (r : PoolManager × Option Exception). r.0.next_pool_index) done,
    )
