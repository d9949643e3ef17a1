-- ===== src/Network/Poller.antt =====
-- headers/network/Poller.hpp, and what the two versions of sources/network/Poller.cpp share: the
-- descriptor of the kernel's instance, which is `_kqueue_fd` in one and `_epoll_fd` in the other.
pub mod Epoll
pub mod Kqueue
use fion.Prelude.{
  ℕ, Bool, Option, none, some, List, [], ◌∷◌, ◌++◌, ◌≡◌, refl, ap, ◌∙◌, if◌then◌else◌, Bool-cases,
  inl, inr,
}
use fion.Prelude.Results.{Exception}
use fion.Prelude.Int.{ℤ, pos, negsuc, ltb_ℤ}
use fion.Text.{Bytes}

pub record PollerEventData : Type 0 where
  pub fd : ℤ
  pub events : ℕ

pub record Poller : Type 0 where
  pub instance_fd : ℤ

-- The constructor, with what `kqueue` or `epoll_create1` gives and the message of the version.
unfoldable pub new_poller : Bytes → ℤ → Poller × Option Exception
new_poller message created =
    let p : Poller = record { instance_fd = created } in
    if ltb_ℤ created (pos 0) then (p, some (Exception.runtime_error message)) else (p, none)

-- The descriptors that the destructor closes.
unfoldable pub destroy_poller : Poller → List ℤ
destroy_poller p = if ltb_ℤ p.instance_fd (pos 0) then [] else p.instance_fd ∷ []

-- The new poller, and what is left in the other one.
unfoldable pub move_poller : Poller → Poller × Poller
move_poller other = (record { instance_fd = other.instance_fd }, record { instance_fd = negsuc 0 })

-- `operator=` for two pollers that differ: this one, the other one, and what was closed.
unfoldable pub assign_poller : Poller → Poller → Poller × Poller × List ℤ
assign_poller p other = (
  record { instance_fd = other.instance_fd },
  record { instance_fd = negsuc 0 },
  if ltb_ℤ p.instance_fd (pos 0) then [] else p.instance_fd ∷ [],
)

-- Two pollers, of which one is moved to the other or to a new one, close what they held between them,
-- in any order of the two destructors, and each number as often as it was held.
pub moves_close_once :
    (p other : Poller)
    → (destroy_poller (move_poller other).0 ++ destroy_poller (move_poller other).1
        ≡ destroy_poller other)
      × ((assign_poller p other).2
            ++ (destroy_poller (assign_poller p other).0
                ++ destroy_poller (assign_poller p other).1)
          ≡ destroy_poller p ++ destroy_poller other)
unfolding destroy_poller move_poller assign_poller
moves_close_once p other = elim (Bool-cases (ltb_ℤ other.instance_fd (pos 0))) [
  | inl absent ↦ rw absent (refl, refl)
  | inr held ↦ rw held (refl, refl)
]
