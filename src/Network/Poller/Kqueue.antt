-- ===== src/Network/Poller/Kqueue.antt =====
-- sources/network/Poller.cpp, the version for macOS and BSD. `kevent` on a list of changes is a
-- parameter; its answer when it waits is an argument.
pub mod Laws
pub mod Changes
pub mod Reports
use Prim.Native.Nat.{bit_and}
use fion.Prelude.{
  ℕ, zero, suc, ◌+◌, ◌*◌, ◌/◌, ◌%◌, Bool, true, false, not, ltb, Option, none, some, List, [], ◌∷◌,
  ◌++◌, ◌==◌, if◌then◌else◌,
}
use fion.Prelude.Results.{Exception}
use fion.Prelude.Int.{ℤ, pos, negsuc, ltb_ℤ, to_int}
use fion.Text.{codes}
use fion.Network.EventLoop.{Poll, polled, failed}
use fion.Network.Poller.{Poller, PollerEventData}

pub data PollerEvent : Type 0 where
  read write error hangup edge_triggered : PollerEvent

-- The bits of the enumeration in this version.
unfoldable pub flag : PollerEvent → ℕ
flag PollerEvent.read = 1
flag PollerEvent.write = 2
flag PollerEvent.error = 4
flag PollerEvent.hangup = 8
flag PollerEvent.edge_triggered = 16

abbrev pub has_flag : ℕ → ℕ → Bool
has_flag bits mask = not (bit_and bits mask == 0)

pub data Filter : Type 0 where
  evfilt_read evfilt_write evfilt_other : Filter

-- The flags of a change: `EV_DELETE`, and `EV_ADD | EV_ENABLE`.
pub data Action : Type 0 where
  ev_delete ev_add_enable : Action

-- What `EV_SET` writes.
pub record Change : Type 0 where
  pub ident : ℤ
  pub filter : Filter
  pub action : Action

-- The call that changes what a queue watches, without room for errors, and for a proof whether a
-- queue watches a descriptor with a filter.
pub record KqueueApi (Kernel : Type 0) : Type 0 where
  pub kevent : Kernel → ℤ → List Change → Kernel × ℤ
  pub registered : Kernel → ℤ → ℤ → Filter → Bool

-- The filters that the events ask for.
unfoldable pub additions : ℤ → ℕ → List Change
additions fd events =
    (if has_flag events (flag PollerEvent.read)
      then record { ident = fd; filter = evfilt_read; action = ev_add_enable } ∷ []
      else [])
    ++ (if has_flag events (flag PollerEvent.write)
        then record { ident = fd; filter = evfilt_write; action = ev_add_enable } ∷ []
        else [])

unfoldable pub deletions : ℤ → List Change
deletions fd =
    record { ident = fd; filter = evfilt_read; action = ev_delete }
    ∷ (record { ident = fd; filter = evfilt_write; action = ev_delete } ∷ [])

module _ {Kernel : Type 0} (api : KqueueApi Kernel) where
  abbrev add_changes : Poller → Kernel → List Change → Kernel × Option Exception
  add_changes p k [] = (k, none)
  add_changes p k (c ∷ rest) =
      let (changed, result) = api.kevent k p.instance_fd (c ∷ rest) in
      (
        changed,
        if ltb_ℤ result (pos 0)
            then some (Exception.runtime_error (codes "Failed to add fd to kqueue: "))
            else none,
      )

  -- Without a change there is no call.
  unfoldable pub kqueue_add_fd : Poller → Kernel → ℤ → ℕ → Kernel × Option Exception
  kqueue_add_fd p k fd events = add_changes p k (additions fd events)

  -- The result of the call is ignored.
  unfoldable pub kqueue_modify_fd : Poller → Kernel → ℤ → ℕ → Kernel
  kqueue_modify_fd p k fd events =
      (api.kevent k p.instance_fd (deletions fd ++ additions fd events)).0

  -- The result of the call is ignored.
  unfoldable pub kqueue_remove_fd : Poller → Kernel → ℤ → Kernel
  kqueue_remove_fd p k fd = (api.kevent k p.instance_fd (deletions fd)).0

-- A `kevent` that is reported: `ident` is a machine word, `flags` a set of bits.
pub record Kevent : Type 0 where
  pub ident : ℕ
  pub filter : Filter
  pub flags : ℕ

-- What `kevent` gives: its result, whether `errno` is `EINTR`, and the array that it filled.
pub record KeventAnswer : Type 0 where
  pub num_events : ℤ
  pub interrupted : Bool
  pub buffer : List Kevent

abbrev pub ev_error : ℕ
ev_error = 0x4000

abbrev pub ev_eof : ℕ
ev_eof = 0x8000

abbrev pub is_read : Filter → Bool
is_read evfilt_read = true
is_read evfilt_write = false
is_read evfilt_other = false

abbrev pub is_write : Filter → Bool
is_write evfilt_read = false
is_write evfilt_write = true
is_write evfilt_other = false

-- The bits are set one after another in a field that is 0 before.
unfoldable pub translate : Kevent → PollerEventData
translate e = record {
  fd = to_int e.ident;
  events =
      (if is_read e.filter then flag PollerEvent.read else 0)
      + (if is_write e.filter then flag PollerEvent.write else 0)
      + (if has_flag e.flags ev_error then flag PollerEvent.error else 0)
      + (if has_flag e.flags ev_eof then flag PollerEvent.hangup else 0);
}

unfoldable pub translate_all : ℕ → List Kevent → List PollerEventData
translate_all zero events = []
translate_all (suc n) [] = []
translate_all (suc n) (e ∷ events) = translate e ∷ translate_all n events

abbrev pub translate_answer : KeventAnswer → ℤ → Poll PollerEventData
translate_answer a (pos n) = polled (translate_all n a.buffer)
translate_answer a (negsuc n) =
    if a.interrupted then polled [] else failed (Exception.runtime_error (codes "kevent failed: "))

unfoldable pub kqueue_poll : KeventAnswer → Poll PollerEventData
kqueue_poll a = translate_answer a a.num_events

-- A `timespec`.
pub record Timespec : Type 0 where
  pub tv_sec : ℕ
  pub tv_nsec : ℕ

-- How long `poll` waits: a null pointer waits for ever.
unfoldable pub timeout_of : ℤ → Option Timespec
timeout_of (negsuc n) = none
timeout_of (pos ms) = some (record { tv_sec = ms / 1000; tv_nsec = (ms % 1000) * 1000000 })
