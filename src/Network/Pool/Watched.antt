-- ===== src/Network/Pool/Watched.antt =====
-- The poller watches the descriptors of the clients of the pool, and no other.
use fion.Prelude.{
  Bool, true, false, Option, none, some, List, [], ◌∷◌, ◌++◌, ◌≡◌, refl, ap, ◌∙◌, arith,
  if◌then◌else◌, Bool-cases, inl, inr,
}
use fion.Prelude.Int.{ℤ, pos, ltb_ℤ, eq_ℤ}
use fion.Prelude.IntLaws.{eq_ℤ_iff}
use fion.Text.{Bytes}
use fion.Network.Client.{Client, destroy_client}
use fion.Network.ConnectionPool.{find_client, drop_client, closed_at, remove_client, set_client}
use fion.Network.ConnectionPool.Laws.{
  AreUnique, find_client-put_client, find_client-drop_client, put_client-AreUnique,
  drop_client-AreUnique,
}
use fion.Network.Pool.Events.{
  Pool, is_watched, unwatch, Outcome, remove_fd, forget_client, close_connection, update_client,
}

abbrev pub WatchedOnce : List ℤ → Type 0
WatchedOnce [] = Unit {0}
WatchedOnce (k ∷ rest) = (is_watched k rest ≡ false) × WatchedOnce rest

pub is_watched-unwatch :
    (j k : ℤ) (l : List ℤ)
    → WatchedOnce l
    → is_watched j (unwatch k l) ≡ (if eq_ℤ j k then false else is_watched j l)
unfolding is_watched unwatch
is_watched-unwatch j k [] w = ground arith
is_watched-unwatch j k (i ∷ l) w =
    ground (arith, eq_ℤ_iff j k, eq_ℤ_iff j i, eq_ℤ_iff k i, is_watched-unwatch j k l w.1, w.0)

unwatch-WatchedOnce : (k : ℤ) (l : List ℤ) → WatchedOnce l → WatchedOnce (unwatch k l)
unfolding is_watched unwatch
unwatch-WatchedOnce k [] w = tt
unwatch-WatchedOnce k (i ∷ l) w = elim (Bool-cases (eq_ℤ k i)) [
  | inl same ↦ rw same w.1
  | inr differs ↦
      rw differs (is_watched-unwatch i k l w.1 ∙ ground (arith, w.0), unwatch-WatchedOnce k l w.1)
]

abbrev pub is_present : Option Client → Bool
is_present none = false
is_present (some _) = true

-- The state of a pool between two calls: one client and one registration for a descriptor at most,
-- the descriptors with a registration are those with a client, and each client holds the
-- descriptor that it stands under, which is not negative.
pub record InSync (p : Pool) : Type 0 where
  pub unique : AreUnique p.connections.clients
  pub once : WatchedOnce p.watched
  pub agree : (fd : ℤ) → is_watched fd p.watched ≡ is_present (find_client fd p.connections.clients)
  pub owned :
      (fd : ℤ) (c : Client)
      → find_client fd p.connections.clients ≡ some c
      → (c.fd ≡ fd) × (ltb_ℤ fd (pos 0) ≡ false)

pub update_client-InSync :
    (p : Pool) (fd : ℤ) (old c : Client) (sent : List (ℤ × Bytes))
    → InSync p
    → find_client fd p.connections.clients ≡ some old
    → c.fd ≡ fd
    → InSync (update_client p fd c sent)
unfolding set_client
update_client-InSync p fd old c sent s found same = record {
  unique = put_client-AreUnique fd c p.connections.clients s.unique;
  once = s.once;
  agree = λ j.
      ground (
        arith,
        s.agree j,
        find_client-put_client j fd c p.connections.clients,
        eq_ℤ_iff j fd,
        found,
      );
  owned = λ j d h. ground (
    arith,
    s.owned j d,
    s.owned fd old found,
    find_client-put_client j fd c p.connections.clients,
    eq_ℤ_iff j fd,
    found,
    h,
    same,
  );
}

-- The pool when a client has left it.
abbrev pub without : Pool → ℤ → Pool
without p fd = record p {
  connections = record { clients = drop_client fd p.connections.clients };
  watched = unwatch fd p.watched;
  closed_fds = fd ∷ p.closed_fds;
}

closes_own :
    (c : Client) (fd : ℤ) → c.fd ≡ fd → ltb_ℤ fd (pos 0) ≡ false → destroy_client c ≡ fd ∷ []
unfolding destroy_client
closes_own c fd e h = rw (e, h) refl

pub closed_one :
    (fd : ℤ) (l : List (ℤ × Client)) (c : Client)
    → find_client fd l ≡ some c
    → c.fd ≡ fd
    → ltb_ℤ fd (pos 0) ≡ false
    → closed_at fd l ≡ fd ∷ []
unfolding closed_at
closed_one fd l c found e h = rw (found, closed_at) (closes_own c fd e h)

removed :
    (p : Pool) (fd : ℤ)
    → is_watched fd p.watched ≡ true
    → remove_fd p fd ≡ (record p { watched = unwatch fd p.watched }, none)
unfolding remove_fd
removed p fd h = rw h refl

-- A client that is there leaves the pool, its descriptor is closed, and nothing is thrown.
pub close_connection_lem :
    (p : Pool) (fd : ℤ) (c : Client)
    → InSync p
    → find_client fd p.connections.clients ≡ some c
    → close_connection p fd ≡ (without p fd, none)
unfolding forget_client remove_client
close_connection_lem p fd c s found =
    let own = s.owned fd c found in
    ap (λ (o : Outcome). forget_client o fd) (removed p fd (s.agree fd ∙ ap is_present found))
    ∙ ap
        (λ (l : List ℤ). (
          record p {
            connections = record { clients = drop_client fd p.connections.clients };
            watched = unwatch fd p.watched;
            closed_fds = l ++ p.closed_fds;
          },
          none,
        ))
        (closed_one fd p.connections.clients c found own.0 own.1)

pub without-InSync : (p : Pool) (fd : ℤ) → InSync p → InSync (without p fd)
without-InSync p fd s = record {
  unique = drop_client-AreUnique fd p.connections.clients s.unique;
  once = unwatch-WatchedOnce fd p.watched s.once;
  agree = λ j. ground (
    arith,
    s.agree j,
    is_watched-unwatch j fd p.watched s.once,
    find_client-drop_client j fd p.connections.clients s.unique,
  );
  owned = λ j d h.
      ground (arith, s.owned j d, find_client-drop_client j fd p.connections.clients s.unique, h);
}
