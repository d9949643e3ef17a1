-- ===== src/Tests/Polling.antt =====
-- The theorems of the poller at small kernels that do what the manuals say.
use fion.Prelude.{
  ℕ, Bool, true, false, not, ◌&&◌, Option, none, some, List, [], ◌∷◌, ◌≡◌, refl, arith,
  if◌then◌else◌, Bool-cases, inl, inr,
}
use fion.Prelude.Int.{ℤ, pos, negsuc, ltb_ℤ, eq_ℤ}
use fion.Prelude.IntLaws.{eq_ℤ_iff}
use fion.Network.Poller.{Poller}
use fion.Network.Poller.Epoll.{
  ControlOp, epoll_ctl_add, epoll_ctl_mod, epoll_ctl_del, EpollApi, epoll_add_fd, epoll_modify_fd,
  epoll_remove_fd,
}
use fion.Network.Poller.Epoll.Interest.{is_some, EpollLaws, Describes, refuses, poller_refines}
use fion.Network.Poller.Kqueue.{
  Filter, evfilt_read, evfilt_write, evfilt_other, Action, ev_delete, ev_add_enable, Change,
  KqueueApi, Kevent, KeventAnswer, kqueue_modify_fd,
}
use fion.Network.Poller.Kqueue.Laws.{eq_filter, add_change, KqueueLaws}
use fion.Network.Poller.Kqueue.Changes.{kqueue_modify_fd_lem}
use fion.Network.Pool.Events.{Pool, is_watched, add_fd, remove_fd}
use fion.Network.ConnectionPool.{empty_pool}

-- An instance of epoll as the events that it watches descriptors for.
abbrev Watches : Type 0
Watches = ℤ → Option ℕ

abbrev watch : Watches → ℤ → Option ℕ → Watches
watch k fd o = λ j. if eq_ℤ j fd then o else k j

abbrev control : Watches → ControlOp → ℤ → ℕ → Watches × ℤ
control k epoll_ctl_add fd events =
    if is_some (k fd) then (k, negsuc 0) else (watch k fd (some events), pos 0)
control k epoll_ctl_mod fd events =
    if is_some (k fd) then (watch k fd (some events), pos 0) else (k, negsuc 0)
control k epoll_ctl_del fd events =
    if is_some (k fd) then (watch k fd none, pos 0) else (k, negsuc 0)

abbrev toy_epoll : EpollApi Watches
toy_epoll = record {
  epoll_ctl = λ k q op fd events. control k op fd events;
  interest = λ k q fd. k fd;
}

toy_refused :
    (k : Watches) (op : ControlOp) (fd : ℤ) (events : ℕ)
    → ltb_ℤ (control k op fd events).1 (pos 0) ≡ true
    → (control k op fd events).0 ≡ k
toy_refused k epoll_ctl_add fd events h = ground (arith, h)
toy_refused k epoll_ctl_mod fd events h = ground (arith, h)
toy_refused k epoll_ctl_del fd events h = ground (arith, h)

toy_epoll-laws : EpollLaws toy_epoll (pos 3)
toy_epoll-laws = record {
  refused = toy_refused;
  added_twice = λ k fd events h. ground (arith, h);
  added = λ k fd j events h. ground (arith, h);
  removable = λ k fd. ground arith;
  removed = λ k fd j h. ground (arith, h);
  modifiable = λ k fd events h. ground (arith, h);
  modified = λ k fd j events h. ground (arith, h);
}

abbrev watching_four : Pool
watching_four = record {
  router = record { routes = [] };
  connections = empty_pool;
  watched = pos 4 ∷ [];
  closed_fds = [];
  sent = [];
}

abbrev kernel_four : Watches
kernel_four j = if eq_ℤ j (pos 4) then some 1 else none

abbrev poller_three : Poller
poller_three = record { instance_fd = pos 3 }

four-described : Describes toy_epoll poller_three toy_epoll-laws watching_four.watched kernel_four
unfolding is_watched
four-described j = ground arith

poller_refines_example :
    ((epoll_add_fd toy_epoll poller_three kernel_four (pos 5) 1).1
      ≡ (add_fd watching_four
          (pos 5)
          (not (refuses toy_epoll poller_three toy_epoll-laws kernel_four (pos 5) 1))).1)
    × Describes toy_epoll poller_three toy_epoll-laws
        (add_fd watching_four
          (pos 5)
          (not (refuses toy_epoll poller_three toy_epoll-laws kernel_four (pos 5) 1))).0.watched
        (epoll_add_fd toy_epoll poller_three kernel_four (pos 5) 1).0
    × ((epoll_remove_fd toy_epoll poller_three kernel_four (pos 5)).1
        ≡ (remove_fd watching_four (pos 5)).1)
    × Describes toy_epoll poller_three toy_epoll-laws
        (remove_fd watching_four (pos 5)).0.watched
        (epoll_remove_fd toy_epoll poller_three kernel_four (pos 5)).0
    × Describes toy_epoll poller_three toy_epoll-laws watching_four.watched
        (epoll_modify_fd toy_epoll poller_three kernel_four (pos 5) 1).0
unfolding is_watched
poller_refines_example =
    poller_refines toy_epoll poller_three toy_epoll-laws kernel_four watching_four (pos 5) 1
      (refl, tt) four-described

-- A queue as the filters that it watches descriptors with.
abbrev Filters : Type 0
Filters = ℤ → Filter → Bool

abbrev put : Filters → ℤ → Filter → Bool → Filters
put k fd f b = λ j g. if eq_ℤ j fd && eq_filter g f then b else k j g

abbrev change_by : Action → Filters → ℤ → Filter → Filters × ℤ
change_by ev_add_enable k fd f = (put k fd f true, pos 0)
change_by ev_delete k fd f = if k fd f then (put k fd f false, pos 0) else (k, negsuc 0)

abbrev change_one : Filters → Change → Filters × ℤ
change_one k c = change_by c.action k c.ident c.filter

abbrev change_all : Filters → List Change → Filters × ℤ
change_all k [] = (k, pos 0)
change_all k (c ∷ rest) =
    let (next, result) = change_one k c in
    let later = change_all next rest in if ltb_ℤ result (pos 0) then (k, negsuc 0) else later

abbrev toy_kqueue : KqueueApi Filters
toy_kqueue = record {
  kevent = λ k q changes. change_all k changes;
  registered = λ k q fd f. k fd f;
}

abbrev after : Filters → Filters × ℤ → List Change → Filters × ℤ
after k (next, result) rest =
    let later = change_all next rest in if ltb_ℤ result (pos 0) then (k, negsuc 0) else later

toy_in_order :
    (k : Filters) (r : Filters × ℤ) (rest : List Change)
    → after k r rest
      ≡ (if ltb_ℤ (after k r []).1 (pos 0) then (k, negsuc 0) else change_all (after k r []).0 rest)
toy_in_order k (next, result) rest = elim (Bool-cases (ltb_ℤ result (pos 0))) [
  | inl fails ↦ rw fails refl
  | inr works ↦ rw works refl
]

same_descriptor : (fd : ℤ) → eq_ℤ fd fd ≡ true
same_descriptor fd = (eq_ℤ_iff fd fd).1 refl

toy_kqueue-laws : KqueueLaws toy_kqueue (pos 3)
toy_kqueue-laws = record {
  no_change = λ k. refl;
  in_order = λ k c rest. toy_in_order k (change_one k c) rest;
  absent = λ k fd f h. ground (arith, h);
  present = λ k fd f h. ground (arith, h);
  deleted = λ k fd f g h. ground (arith, h, same_descriptor fd);
  added = λ k fd f g h. ground (arith, h, same_descriptor fd);
}

toy_accepts :
    (m : Filters) (f : Filter)
    → ltb_ℤ (toy_kqueue.kevent m (pos 3) (add_change (pos 4) f ∷ [])).1 (pos 0) ≡ false
toy_accepts m f = refl

-- The descriptor 4 is watched for reading only, and shall be watched for both.
abbrev reads_four : Filters
reads_four j evfilt_read = eq_ℤ j (pos 4)
reads_four j evfilt_write = false
reads_four j evfilt_other = false

kqueue_modify_fd_lem_example :
    (kqueue_modify_fd toy_kqueue poller_three reads_four (pos 4) 3 (pos 4) evfilt_read ≡ false)
    × (kqueue_modify_fd toy_kqueue poller_three reads_four (pos 4) 3 (pos 4) evfilt_write ≡ false)
kqueue_modify_fd_lem_example =
    kqueue_modify_fd_lem toy_kqueue poller_three toy_kqueue-laws reads_four (pos 4) 3 toy_accepts

-- A client sends its last bytes and closes: one event, with `EV_EOF`.
abbrev last_bytes : Kevent
last_bytes = record { ident = 4; filter = evfilt_read; flags = 0x8000 }

abbrev one_event : KeventAnswer
one_event = record { num_events = pos 1; interrupted = false; buffer = last_bytes ∷ [] }
