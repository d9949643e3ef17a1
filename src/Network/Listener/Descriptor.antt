-- ===== src/Network/Listener/Descriptor.antt =====
-- How often the descriptor of the listening socket is closed.
use fion.Prelude.{
  Bool, true, false, not, ◌||◌, Option, none, ◌∷◌, ◌≡◌, ◌≢◌, refl, ap, ◌∙◌, if◌then◌else◌, inl, inr,
  ◌⊎◌,
}
use fion.Prelude.Results.{Exception}
use fion.Prelude.Int.{ℤ, pos, ltb_ℤ}
use fion.Text.{Bytes, codes, equal, is_empty}
use fion.Network.Listener.{Listener, BindAnswers, fail_bind, bind, close_listener}

-- How `bind` can end once there is a socket.
abbrev pub BindEnd : Listener → ℤ → Listener × Option Exception → Type 0
BindEnd l fd r =
    ((r.1 ≡ none) × (r.0 ≡ record l { listen_fd = fd }))
    ⊎ ((r.1 ≢ none) × (r.0 ≡ record l { listen_fd = fd; closed_fds = fd ∷ l.closed_fds }))

failed :
    (l : Listener) (fd : ℤ) (message : Bytes)
    → BindEnd l fd (fail_bind (record l { listen_fd = fd }) message)
failed l fd message = inr ((λ e. cc e), refl)

either : {A : Type 0} (P : A → Type 0) (b : Bool) {x y : A} → P x → P y → P (if b then x else y)
either P true h k = h
either P false h k = k

pub bind-BindEnd :
    (l : Listener) (host : Bytes) (a : BindAnswers)
    → ltb_ℤ a.socket_fd (pos 0) ≡ false
    → BindEnd l a.socket_fd (bind l host a)
unfolding bind
bind-BindEnd l host a opened = rw opened (
    either (BindEnd l a.socket_fd) (not a.reuse_set) (failed l a.socket_fd _) (
      either (BindEnd l a.socket_fd) (not a.non_blocking) (failed l a.socket_fd _) (
        either (BindEnd l a.socket_fd)
          (not (equal host (codes "0.0.0.0") || is_empty host || a.valid_address))
          (failed l a.socket_fd _)
          (either (BindEnd l a.socket_fd) (not a.bound) (failed l a.socket_fd _)
            (inl (refl, refl))))))

closes :
    (l : Listener)
    → ltb_ℤ l.listen_fd (pos 0) ≡ false
    → (close_listener l).closed_fds ≡ l.listen_fd ∷ l.closed_fds
unfolding close_listener
closes l h = rw h refl

-- Once `bind` has its socket: if it returns, the next `close` closes the descriptor, once; if it throws,
-- it has closed the descriptor itself, and the next `close`, which is that of the destructor at the
-- latest, closes the same number again.
pub bind_then_close :
    (l : Listener) (host : Bytes) (a : BindAnswers)
    → ltb_ℤ a.socket_fd (pos 0) ≡ false
    → (((bind l host a).1 ≡ none)
        × ((close_listener (bind l host a).0).closed_fds ≡ a.socket_fd ∷ l.closed_fds))
      ⊎ (((bind l host a).1 ≢ none)
          × ((close_listener (bind l host a).0).closed_fds
              ≡ a.socket_fd ∷ (a.socket_fd ∷ l.closed_fds)))
bind_then_close l host a opened = elim (bind-BindEnd l host a opened) [
  | inl (quiet, left) ↦ inl (
    quiet,
    ap (λ (k : Listener). (close_listener k).closed_fds) left
        ∙ closes (record l { listen_fd = a.socket_fd }) opened,
  )
  | inr (thrown, left) ↦ inr (
    thrown,
    ap (λ (k : Listener). (close_listener k).closed_fds) left
        ∙ closes (record l { listen_fd = a.socket_fd; closed_fds = a.socket_fd ∷ l.closed_fds })
            opened,
  )
]
