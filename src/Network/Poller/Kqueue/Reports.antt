-- ===== src/Network/Poller/Kqueue/Reports.antt =====
-- What the kqueue version reports: the events of `poll` and how long it waits.
use fion.Prelude.{ℕ, ◌+◌, ◌*◌, ◌/◌, ◌%◌, ◌<◌, Bool, none, some, ◌≡◌, refl, if◌then◌else◌, arith}
use fion.Prelude.Int.{pos, negsuc}
use fion.Network.Poller.Kqueue.{Timespec, timeout_of}

abbrev bits : Bool → Bool → Bool → Bool → ℕ
bits r w e h =
    (if r then 1 else 0) + (if w then 2 else 0) + (if e then 4 else 0) + (if h then 8 else 0)

-- How long `poll` waits: a negative number of milliseconds waits for ever; any other is split into
-- seconds and fewer than 10^9 nanoseconds, which together are that number of milliseconds.
pub timeout_of_lem :
    (ms n : ℕ)
    → (timeout_of (negsuc n) ≡ none)
      × ((t : Timespec) × (timeout_of (pos ms) ≡ some t)
          × (t.tv_nsec < 1000000000)
          × (t.tv_sec * 1000000000 + t.tv_nsec ≡ ms * 1000000))
unfolding timeout_of
timeout_of_lem ms n = (
  refl,
  (record { tv_sec = ms / 1000; tv_nsec = (ms % 1000) * 1000000 }, refl, omega arith, omega arith),
)
