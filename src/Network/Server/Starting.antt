-- ===== src/Network/Server/Starting.antt =====
-- `Server::start`: how it can end, and what a start that throws leaves.
use fion.Prelude.{
  ℕ, Bool, true, false, Option, none, some, ◌≡◌, ◌≢◌, refl, sym, ap, ◌∙◌, arith, inl, inr, ◌⊎◌,
  Bool-cases, subst,
}
use fion.Prelude.Results.{Exception}
use fion.Prelude.Int.{pos, ltb_ℤ}
use fion.Text.{Bytes, codes}
use fion.Network.Listener.{Listener, BindAnswers, bind, listen}
use fion.Network.Listener.Descriptor.{bind-BindEnd}
use fion.Network.Server.{
  Server, StartAnswers, StartOutcome, launch, after_listen, after_bind, start_server,
}

-- How a start can end: with its message and nothing but the listener changed, or with a socket that
-- listens and with its threads.
abbrev pub StartEnd : Server → StartAnswers → ℕ → StartOutcome → Type 0
StartEnd s a n r =
    ((e : Exception) × (l : Listener) × (r ≡ (record s { listener = l; running = true }, some e)))
    ⊎ ((ltb_ℤ a.bind_answers.socket_fd (pos 0) ≡ false)
        × (r ≡ (
          launch
              (record s {
                listener = record s.listener {
                  listen_fd = a.bind_answers.socket_fd;
                  is_listening = true;
                };
                running = true;
              })
              n,
          none,
        )))

listen_cases :
    (l : Listener) (b : Bool)
    → ((e : Exception) × (listen l b ≡ (l, some e)))
      ⊎ (listen l b ≡ (record l { is_listening = true }, none))
unfolding listen
listen_cases l b = elim (Bool-cases (ltb_ℤ l.listen_fd (pos 0))) [
  | inl unbound ↦ inl (Exception.runtime_error (codes "Socket not bound"), ground (arith, unbound))
  | inr bound ↦ elim (Bool-cases b) [
    | inl works ↦ inr (ground (arith, bound, works))
    | inr fails ↦
        inl (Exception.runtime_error (codes "Failed to listen: "), ground (arith, bound, fails))
  ]
]

pair_cases :
    (r : Listener × Option Exception)
    → ((e : Exception) × (k : Listener) × (r ≡ (k, some e))) ⊎ (r ≡ (r.0, none))
pair_cases (l, none) = inr refl
pair_cases (l, some e) = inl (e, l, refl)

without_socket :
    (l : Listener) (host : Bytes) (a : BindAnswers)
    → ltb_ℤ a.socket_fd (pos 0) ≡ true
    → (e : Exception) × ((bind l host a).1 ≡ some e)
unfolding bind
without_socket l host a absent =
    (Exception.runtime_error (codes "Failed to create socket: "), rw absent refl)

has_socket :
    (l : Listener) (host : Bytes) (a : BindAnswers) (k : Listener)
    → bind l host a ≡ (k, none)
    → ltb_ℤ a.socket_fd (pos 0) ≡ false
has_socket l host a k h = elim (Bool-cases (ltb_ℤ a.socket_fd (pos 0))) [
  | inr held ↦ held
  | inl absent ↦
      let (e, thrown) = without_socket l host a absent in
      absurd (cc (sym thrown ∙ ap (λ (r : Listener × Option Exception). r.1) h))
]

bind_cases :
    (l : Listener) (host : Bytes) (a : BindAnswers)
    → ((e : Exception) × (k : Listener) × (bind l host a ≡ (k, some e)))
      ⊎ ((ltb_ℤ a.socket_fd (pos 0) ≡ false)
          × (bind l host a ≡ (record l { listen_fd = a.socket_fd }, none)))
bind_cases l host a = elim (pair_cases (bind l host a)) [
  | inl thrown ↦ inl thrown
  | inr quiet ↦
      let held = has_socket l host a (bind l host a).0 quiet in
      elim (bind-BindEnd l host a held) [
        | inl (_, left) ↦ inr (held, quiet ∙ ap (λ (k : Listener). (k, none)) left)
        | inr (thrown, _) ↦ absurd (thrown (ap (λ (r : Listener × Option Exception). r.1) quiet))
      ]
]

pub start_cases :
    (s : Server) (host : Bytes) (a : StartAnswers) (n : ℕ)
    → s.running ≡ false
    → StartEnd s a n (start_server s host a n)
unfolding start_server after_bind after_listen
start_cases s host a n idle = elim (bind_cases s.listener host a.bind_answers) [
  | inl (e, k, thrown) ↦ rw (idle, thrown) (inl (e, k, refl))
  | inr (held, bound) ↦
      elim (listen_cases (record s.listener { listen_fd = a.bind_answers.socket_fd }) a.listens) [
        | inl (e, thrown) ↦ rw (idle, bound, thrown) (inl (e, _, refl))
        | inr listening ↦ rw (idle, bound, listening) (inr (held, refl))
      ]
]

pub refused_again :
    (s : Server) (host : Bytes) (a : StartAnswers) (n : ℕ)
    → s.running ≡ true
    → start_server s host a n ≡ (s, none)
unfolding start_server
refused_again s host a n h = rw h refl

-- What a start that throws leaves: no pool, no thread, and a flag with which the next start does nothing.
abbrev pub StaysDown : Server → StartOutcome → Bytes → StartAnswers → ℕ → Type 0
StaysDown s r host a n =
    (r.0.running ≡ true)
    × (r.0.manager ≡ s.manager)
    × (r.0.lifecycles ≡ s.lifecycles)
    × (r.0.accept_thread ≡ s.accept_thread)
    × (start_server r.0 host a n ≡ (r.0, none))

-- A server that does not run, and a `start` that throws: there are no new pools and no accept thread,
-- but the flag says that it runs, so that every later `start`, with any address, returns without an
-- exception and without doing anything.
pub start_server_throws :
    (s : Server) (host : Bytes) (a : StartAnswers) (n : ℕ)
    → (later_host : Bytes) (later : StartAnswers) (later_n : ℕ) → s.running ≡ false
    → (start_server s host a n).1 ≢ none
    → StaysDown s (start_server s host a n) later_host later later_n
start_server_throws s host a n later_host later later_n idle thrown =
    elim (start_cases s host a n idle) [
      | inl (e, l, same) ↦
          let left : Server = record s { listener = l; running = true } in
          subst (λ (r : StartOutcome). StaysDown s r later_host later later_n) (sym same)
            (refl, refl, refl, refl, refused_again left later_host later later_n refl)
      | inr (_, same) ↦ absurd (thrown (ap (λ (r : StartOutcome). r.1) same))
    ]
