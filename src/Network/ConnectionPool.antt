-- ===== src/Network/ConnectionPool.antt =====
-- headers/network/ConnectionPool.hpp and sources/network/ConnectionPool.cpp: the clients of a pool
-- by their descriptors. A client that leaves the map closes its descriptor.
pub mod Laws
use fion.Prelude.{
  ℕ, Bool, true, false, Option, none, some, List, [], ◌∷◌, ◌++◌, ◌==◌, if◌then◌else◌, length,
}
use fion.Prelude.Results.{Result, ok, err, ◌>>=◌}
use fion.Prelude.Int.{ℤ, pos, negsuc, eq_ℤ}
use fion.Network.Client.{Client, new_client, destroy_client}

-- `std::unordered_map<int, std::unique_ptr<Client>>`
pub record ConnectionPool : Type 0 where
  pub clients : List (ℤ × Client)

abbrev pub empty_pool : ConnectionPool
empty_pool = record { clients = [] }

unfoldable pub find_client : ℤ → List (ℤ × Client) → Option Client
find_client fd [] = none
find_client fd ((k, c) ∷ rest) = if eq_ℤ fd k then some c else find_client fd rest

-- Puts a client at a key, in the place of the one that is there.
unfoldable pub put_client : ℤ → Client → List (ℤ × Client) → List (ℤ × Client)
put_client fd c [] = (fd, c) ∷ []
put_client fd c ((k, d) ∷ rest) =
    let later = put_client fd c rest in if eq_ℤ fd k then (k, c) ∷ rest else (k, d) ∷ later

unfoldable pub drop_client : ℤ → List (ℤ × Client) → List (ℤ × Client)
drop_client fd [] = []
drop_client fd ((k, d) ∷ rest) =
    let later = drop_client fd rest in if eq_ℤ fd k then rest else (k, d) ∷ later

-- What the destructor of the client at a key closes, when there is one.
unfoldable pub closed_at : ℤ → List (ℤ × Client) → List ℤ
closed_at fd clients = elim (find_client fd clients) [ none ↦ [] | some c ↦ destroy_client c ]

-- `addClient`: the pool and the descriptors that it closes. The client is made before it takes the
-- place of one that is there.
unfoldable pub add_client : ConnectionPool → ℤ → Result (ConnectionPool × List ℤ)
add_client p fd = new_client fd >>= λ c.
    ok (record { clients = put_client fd c p.clients }, closed_at fd p.clients)

-- `removeClient`: the pool and the descriptors that it closes.
unfoldable pub remove_client : ConnectionPool → ℤ → ConnectionPool × List ℤ
remove_client p fd = (record { clients = drop_client fd p.clients }, closed_at fd p.clients)

unfoldable pub get_client : ConnectionPool → ℤ → Option Client
get_client p fd = find_client fd p.clients

-- What changes a client through the pointer that `getClient` returned.
unfoldable pub set_client : ConnectionPool → ℤ → Client → ConnectionPool
set_client p fd c = record { clients = put_client fd c p.clients }

abbrev pub pool_size : ConnectionPool → ℕ
pool_size p = length p.clients
