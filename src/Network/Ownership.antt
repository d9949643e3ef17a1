-- ===== src/Network/Ownership.antt =====
-- The moves of `Client`, `Listener` and `Poller`: which descriptors are closed, by the move and by the
-- two destructors behind it.
use fion.Prelude.{
  List, [], ◌∷◌, ◌++◌, ◌≡◌, refl, ap, append-nil, Bool-cases, inl, inr, if◌then◌else◌,
}
use fion.Prelude.Int.{ℤ, pos, ltb_ℤ}
use fion.Network.Client.{Client, destroy_client, move_client, move_assign, get_request_data}
use fion.Network.Listener.{Listener, close_listener, move_listener, assign_listener}
use fion.Network.Poller.{Poller, destroy_poller, move_poller, assign_poller, moves_close_once}

-- What an object with this descriptor closes in the end.
abbrev pub held : ℤ → List ℤ
held fd = if ltb_ℤ fd (pos 0) then [] else fd ∷ []

client_moves :
    (c d : Client)
    → (destroy_client (move_client c).0 ++ destroy_client (move_client c).1 ≡ held c.fd)
      × ((move_assign c d).2
            ++ (destroy_client (move_assign c d).0 ++ destroy_client (move_assign c d).1)
          ≡ held c.fd ++ held d.fd)
      × (get_request_data (move_client c).0 ≡ [])
      × (get_request_data (move_assign c d).0 ≡ get_request_data c)
unfolding destroy_client move_client move_assign
client_moves c d = (
  append-nil (held c.fd),
  ap (λ (l : List ℤ). held c.fd ++ l) (append-nil (held d.fd)),
  refl,
  refl,
)

listener_moves :
    (l m : Listener)
    → ((close_listener (move_listener l).0).closed_fds
          ++ (close_listener (move_listener l).1).closed_fds
        ≡ held l.listen_fd ++ l.closed_fds)
      × ((close_listener (assign_listener l m).0).closed_fds
          ≡ held m.listen_fd ++ (held l.listen_fd ++ l.closed_fds))
      × ((close_listener (assign_listener l m).1).closed_fds ≡ m.closed_fds)
unfolding close_listener move_listener assign_listener
listener_moves l m = elim (Bool-cases (ltb_ℤ l.listen_fd (pos 0))) [
  | inl none_here ↦ elim (Bool-cases (ltb_ℤ m.listen_fd (pos 0))) [
    | inl none_there ↦ rw (none_here, none_there) (refl, refl, refl)
    | inr there ↦ rw (none_here, there) (refl, refl, refl)
  ]
  | inr here ↦ elim (Bool-cases (ltb_ℤ m.listen_fd (pos 0))) [
    | inl none_there ↦ rw (here, none_there) (refl, refl, refl)
    | inr there ↦ rw (here, there) (refl, refl, refl)
  ]
]

-- A client, a listener or a poller that is moved to a new object, or to another one of its class: the
-- move and the destructors of the two objects close the descriptors that the two held, each once, and
-- nothing else. Of a client the bytes that were read do not move: the new object has none, and the
-- one that is assigned to keeps those of its own connection for the descriptor that it takes over.
pub moves_keep_descriptors :
    (c d : Client) (l m : Listener) (p q : Poller)
    → (destroy_client (move_client c).0 ++ destroy_client (move_client c).1 ≡ held c.fd)
      × ((move_assign c d).2
            ++ (destroy_client (move_assign c d).0 ++ destroy_client (move_assign c d).1)
          ≡ held c.fd ++ held d.fd)
      × (get_request_data (move_client c).0 ≡ [])
      × (get_request_data (move_assign c d).0 ≡ get_request_data c)
      × ((close_listener (move_listener l).0).closed_fds
            ++ (close_listener (move_listener l).1).closed_fds
          ≡ held l.listen_fd ++ l.closed_fds)
      × ((close_listener (assign_listener l m).0).closed_fds
          ≡ held m.listen_fd ++ (held l.listen_fd ++ l.closed_fds))
      × ((close_listener (assign_listener l m).1).closed_fds ≡ m.closed_fds)
      × (destroy_poller (move_poller q).0 ++ destroy_poller (move_poller q).1 ≡ destroy_poller q)
      × ((assign_poller p q).2
            ++ (destroy_poller (assign_poller p q).0 ++ destroy_poller (assign_poller p q).1)
          ≡ destroy_poller p ++ destroy_poller q)
moves_keep_descriptors c d l m p q =
    let (moved, assigned, empty, kept) = client_moves c d in
    let (l_moved, l_assigned, l_other) = listener_moves l m in
    let (p_moved, p_assigned) = moves_close_once p q in
    (moved, assigned, empty, kept, l_moved, l_assigned, l_other, p_moved, p_assigned)
