-- ===== src/Network/Poller/Epoll.antt =====
-- sources/network/Poller.cpp, the version for Linux. `epoll_ctl` is a parameter; the answer of
-- `epoll_wait` is an argument, and the text of `errno` behind a message is left out.
pub mod Interest
use fion.Prelude.{ℕ, zero, suc, Bool, Option, none, some, List, [], ◌∷◌, if◌then◌else◌}
use fion.Prelude.Results.{Exception}
use fion.Prelude.Int.{ℤ, pos, negsuc, ltb_ℤ}
use fion.Text.{Bytes, codes}
use fion.Network.EventLoop.{Poll, polled, failed}
use fion.Network.Poller.{Poller, PollerEventData}

pub data ControlOp : Type 0 where
  epoll_ctl_add epoll_ctl_mod epoll_ctl_del : ControlOp

-- The calls of the kernel on the instance, the descriptor, and the events, and for a proof what an
-- instance watches a descriptor for.
pub record EpollApi (Kernel : Type 0) : Type 0 where
  pub epoll_ctl : Kernel → ℤ → ControlOp → ℤ → ℕ → Kernel × ℤ
  pub interest : Kernel → ℤ → ℤ → Option ℕ

-- An `epoll_event`: its `data.fd` and its `events`.
pub record EpollEvent : Type 0 where
  pub data_fd : ℤ
  pub events : ℕ

-- What `epoll_wait` gives: its result, whether `errno` is `EINTR`, and the array that it filled.
pub record WaitAnswer : Type 0 where
  pub num_events : ℤ
  pub interrupted : Bool
  pub buffer : List EpollEvent

-- A negative result is an exception.
abbrev pub or_throw : {Kernel : Type 0} → Bytes → Kernel × ℤ → Kernel × Option Exception
or_throw message (k, result) =
    (k, if ltb_ℤ result (pos 0) then some (Exception.runtime_error message) else none)

module _ {Kernel : Type 0} (api : EpollApi Kernel) where
  unfoldable pub epoll_add_fd : Poller → Kernel → ℤ → ℕ → Kernel × Option Exception
  epoll_add_fd p k fd events =
      or_throw (codes "Failed to add fd to epoll: ")
        (api.epoll_ctl k p.instance_fd epoll_ctl_add fd events)

  unfoldable pub epoll_modify_fd : Poller → Kernel → ℤ → ℕ → Kernel × Option Exception
  epoll_modify_fd p k fd events =
      or_throw (codes "Failed to modify fd in epoll: ")
        (api.epoll_ctl k p.instance_fd epoll_ctl_mod fd events)

  unfoldable pub epoll_remove_fd : Poller → Kernel → ℤ → Kernel × Option Exception
  epoll_remove_fd p k fd =
      or_throw (codes "Failed to remove fd from epoll: ")
        (api.epoll_ctl k p.instance_fd epoll_ctl_del fd 0)

-- The loop over `num_events` elements of the array.
unfoldable pub collect : ℕ → List EpollEvent → List PollerEventData
collect zero events = []
collect (suc n) [] = []
collect (suc n) (e ∷ events) = record { fd = e.data_fd; events = e.events } ∷ collect n events

abbrev pub collect_answer : WaitAnswer → ℤ → Poll PollerEventData
collect_answer a (pos n) = polled (collect n a.buffer)
collect_answer a (negsuc n) =
    if a.interrupted
    then polled []
    else failed (Exception.runtime_error (codes "epoll_wait failed: "))

unfoldable pub epoll_poll : WaitAnswer → Poll PollerEventData
epoll_poll a = collect_answer a a.num_events
