-- ===== src/Network/Poller/Epoll/Interest.antt =====
-- The descriptors that the model of a pool keeps describe those that the kernel watches, over any
-- `epoll_ctl` that does what its manual says.
use fion.Prelude.{ℕ, Bool, true, false, not, Option, none, some, List, ◌≡◌, if◌then◌else◌, arith}
use fion.Prelude.Int.{ℤ, pos, ltb_ℤ, eq_ℤ}
use fion.Prelude.IntLaws.{eq_ℤ_iff}
use fion.Network.Poller.{Poller}
use fion.Network.Poller.Epoll.{
  ControlOp, epoll_ctl_add, epoll_ctl_mod, epoll_ctl_del, EpollApi, epoll_add_fd, epoll_modify_fd,
  epoll_remove_fd,
}
use fion.Network.Pool.Events.{Pool, is_watched, add_fd, remove_fd}
use fion.Network.Pool.Watched.{WatchedOnce, is_watched-unwatch}

abbrev pub is_some : Option ℕ → Bool
is_some none = false
is_some (some n) = true

-- What the manual of `epoll_ctl` says of the calls on the instance `q`.
pub record EpollLaws {Kernel : Type 0} (api : EpollApi Kernel) (q : ℤ) : Type 0 where
  pub refused :
      (k : Kernel) (op : ControlOp) (fd : ℤ) (events : ℕ)
      → ltb_ℤ (api.epoll_ctl k q op fd events).1 (pos 0) ≡ true
      → (api.epoll_ctl k q op fd events).0 ≡ k
  pub added_twice :
      (k : Kernel) (fd : ℤ) (events : ℕ)
      → is_some (api.interest k q fd) ≡ true
      → ltb_ℤ (api.epoll_ctl k q epoll_ctl_add fd events).1 (pos 0) ≡ true
  pub added :
      (k : Kernel) (fd j : ℤ) (events : ℕ)
      → ltb_ℤ (api.epoll_ctl k q epoll_ctl_add fd events).1 (pos 0) ≡ false
      → api.interest (api.epoll_ctl k q epoll_ctl_add fd events).0 q j
        ≡ (if eq_ℤ j fd then some events else api.interest k q j)
  pub removable :
      (k : Kernel) (fd : ℤ)
      → ltb_ℤ (api.epoll_ctl k q epoll_ctl_del fd 0).1 (pos 0) ≡ not (is_some (api.interest k q fd))
  pub removed :
      (k : Kernel) (fd j : ℤ)
      → is_some (api.interest k q fd) ≡ true
      → api.interest (api.epoll_ctl k q epoll_ctl_del fd 0).0 q j
        ≡ (if eq_ℤ j fd then none else api.interest k q j)
  pub modifiable :
      (k : Kernel) (fd : ℤ) (events : ℕ)
      → is_some (api.interest k q fd) ≡ false
      → ltb_ℤ (api.epoll_ctl k q epoll_ctl_mod fd events).1 (pos 0) ≡ true
  pub modified :
      (k : Kernel) (fd j : ℤ) (events : ℕ)
      → ltb_ℤ (api.epoll_ctl k q epoll_ctl_mod fd events).1 (pos 0) ≡ false
      → api.interest (api.epoll_ctl k q epoll_ctl_mod fd events).0 q j
        ≡ (if eq_ℤ j fd then some events else api.interest k q j)

module _ {Kernel : Type 0} (api : EpollApi Kernel) (poller : Poller)
    (laws : EpollLaws api poller.instance_fd) where
  -- The kernel watches the descriptors of the list, and no other.
  abbrev pub Describes : List ℤ → Kernel → Type 0
  Describes l k = (j : ℤ) → is_watched j l ≡ is_some (api.interest k poller.instance_fd j)

  abbrev pub refuses : Kernel → ℤ → ℕ → Bool
  refuses k fd events = ltb_ℤ (api.epoll_ctl k poller.instance_fd epoll_ctl_add fd events).1 (pos 0)

  added-Describes :
      (k : Kernel) (p : Pool) (fd : ℤ) (events : ℕ)
      → Describes p.watched k
      → ((epoll_add_fd api poller k fd events).1 ≡ (add_fd p fd (not (refuses k fd events))).1)
        × Describes
            (add_fd p fd (not (refuses k fd events))).0.watched
            (epoll_add_fd api poller k fd events).0
  unfolding epoll_add_fd add_fd is_watched
  added-Describes k p fd events same = (
    ground (arith, same fd, laws.added_twice k fd events),
    λ j. ground (
      arith,
      same fd,
      same j,
      laws.added_twice k fd events,
      laws.refused k epoll_ctl_add fd events,
      laws.added k fd j events,
    ),
  )

  removed-Describes :
      (k : Kernel) (p : Pool) (fd : ℤ)
      → WatchedOnce p.watched
      → Describes p.watched k
      → ((epoll_remove_fd api poller k fd).1 ≡ (remove_fd p fd).1)
        × Describes (remove_fd p fd).0.watched (epoll_remove_fd api poller k fd).0
  unfolding epoll_remove_fd remove_fd
  removed-Describes k p fd once same = (
    ground (arith, same fd, laws.removable k fd),
    λ j. ground (
      arith,
      same fd,
      same j,
      laws.removable k fd,
      laws.refused k epoll_ctl_del fd 0,
      laws.removed k fd j,
      is_watched-unwatch j fd p.watched once,
    ),
  )

  modified-Describes :
      (k : Kernel) (l : List ℤ) (fd : ℤ) (events : ℕ)
      → Describes l k
      → Describes l (epoll_modify_fd api poller k fd events).0
  unfolding epoll_modify_fd
  modified-Describes k l fd events same = λ j. ground (
    arith,
    same fd,
    same j,
    laws.modifiable k fd events,
    laws.refused k epoll_ctl_mod fd events,
    laws.modified k fd j events,
    eq_ℤ_iff j fd,
  )

  -- Over an `epoll_ctl` that does what its manual says, from a kernel that watches the descriptors of
  -- the pool's list, once each, and no other: `addFD` and `removeFD` of the poller throw when the
  -- pool's model of them does, with the same message, and after each of them, and after `modify_fd`,
  -- the kernel watches the descriptors of the list that the model has then.
  pub poller_refines :
      (k : Kernel) (p : Pool) (fd : ℤ) (events : ℕ)
      → WatchedOnce p.watched
      → Describes p.watched k
      → ((epoll_add_fd api poller k fd events).1 ≡ (add_fd p fd (not (refuses k fd events))).1)
        × Describes
            (add_fd p fd (not (refuses k fd events))).0.watched
            (epoll_add_fd api poller k fd events).0
        × ((epoll_remove_fd api poller k fd).1 ≡ (remove_fd p fd).1)
        × Describes (remove_fd p fd).0.watched (epoll_remove_fd api poller k fd).0
        × Describes p.watched (epoll_modify_fd api poller k fd events).0
  poller_refines k p fd events once same =
      let (add_throws, added) = added-Describes k p fd events same in
      let (remove_throws, removed) = removed-Describes k p fd once same in
      (add_throws, added, remove_throws, removed, modified-Describes k p.watched fd events same)
