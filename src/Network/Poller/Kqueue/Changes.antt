-- ===== src/Network/Poller/Kqueue/Changes.antt =====
-- What the kqueue version does to the filters of a descriptor, over any `kevent` that applies its
-- changes in order and stops at the first one that fails.
use fion.Prelude.{
  ℕ, Bool, true, false, ◌&&◌, List, [], ◌∷◌, ◌++◌, ◌≡◌, ap, ◌∙◌, if◌then◌else◌, on_true, on_false,
  Bool-cases, inl, inr,
}
use fion.Prelude.Int.{ℤ, pos, ltb_ℤ}
use fion.Network.Poller.{Poller}
use fion.Network.Poller.Kqueue.{
  PollerEvent, flag, has_flag, Filter, evfilt_read, evfilt_write, Change, KqueueApi, additions,
  deletions, kqueue_modify_fd, kqueue_remove_fd,
}
use fion.Network.Poller.Kqueue.Laws.{delete_change, add_change, KqueueLaws}

module _ {Kernel : Type 0} (api : KqueueApi Kernel) (p : Poller)
    (laws : KqueueLaws api p.instance_fd) where
  abbrev run_one : Kernel → Change → Kernel
  run_one k c = (api.kevent k p.instance_fd (c ∷ [])).0

  abbrev run_changes : Kernel → List Change → Kernel
  run_changes k changes = (api.kevent k p.instance_fd changes).0

  abbrev seen : Kernel → ℤ → Filter → Bool
  seen k fd f = api.registered k p.instance_fd fd f

  abbrev fails : Kernel → Change → Bool
  fails k c = ltb_ℤ (api.kevent k p.instance_fd (c ∷ [])).1 (pos 0)

  goes_on :
      (k : Kernel) (c : Change) (rest : List Change)
      → fails k c ≡ false
      → run_changes k (c ∷ rest) ≡ run_changes (run_one k c) rest
  goes_on k c rest h = ap (λ (r : Kernel × ℤ). r.0) (laws.in_order k c rest ∙ on_false _ _ h)

  stops :
      (k : Kernel) (c : Change) (rest : List Change)
      → fails k c ≡ true
      → run_changes k (c ∷ rest) ≡ k
  stops k c rest h = ap (λ (r : Kernel × ℤ). r.0) (laws.in_order k c rest ∙ on_true _ _ h)

  -- The filters of a descriptor after the two deletions and what follows them.
  after_deletions :
      (k : Kernel) (fd : ℤ) (rest : List Change)
      → seen k fd evfilt_read ≡ true
      → seen k fd evfilt_write ≡ true
      → (m : Kernel) × (run_changes k (deletions fd ++ rest) ≡ run_changes m rest)
        × (seen m fd evfilt_read ≡ false)
        × (seen m fd evfilt_write ≡ false)
  unfolding deletions
  after_deletions k fd rest reads writes =
      let first = run_one k (delete_change fd evfilt_read) in
      let still = laws.deleted k fd evfilt_read evfilt_write reads ∙ writes in
      (
        run_one first (delete_change fd evfilt_write),
        goes_on k (delete_change fd evfilt_read) (delete_change fd evfilt_write ∷ rest)
              (laws.present k fd evfilt_read reads)
            ∙ goes_on first (delete_change fd evfilt_write) rest
                (laws.present first fd evfilt_write still),
        laws.deleted first fd evfilt_write evfilt_read still
            ∙ laws.deleted k fd evfilt_read evfilt_read reads,
        laws.deleted first fd evfilt_write evfilt_write still,
      )

  -- The first deletion that fails is the last change.
  stopped_at_read :
      (k : Kernel) (fd : ℤ) (rest : List Change)
      → seen k fd evfilt_read ≡ false
      → run_changes k (deletions fd ++ rest) ≡ k
  unfolding deletions
  stopped_at_read k fd rest h =
      stops k (delete_change fd evfilt_read) (delete_change fd evfilt_write ∷ rest)
        (laws.absent k fd evfilt_read h)

  stopped_at_write :
      (k : Kernel) (fd : ℤ) (rest : List Change)
      → seen k fd evfilt_read ≡ true
      → seen k fd evfilt_write ≡ false
      → run_changes k (deletions fd ++ rest) ≡ run_one k (delete_change fd evfilt_read)
  unfolding deletions
  stopped_at_write k fd rest reads writes =
      let first = run_one k (delete_change fd evfilt_read) in
      goes_on k (delete_change fd evfilt_read) (delete_change fd evfilt_write ∷ rest)
        (laws.present k fd evfilt_read reads)
      ∙ stops first (delete_change fd evfilt_write) rest (
          laws.absent first fd evfilt_write
            (laws.deleted k fd evfilt_read evfilt_write reads ∙ writes))

  -- The filters of a descriptor without any, when the events' filters are added.
  after_additions :
      (k : Kernel) (fd : ℤ) (events : ℕ)
      → seen k fd evfilt_read ≡ false
      → seen k fd evfilt_write ≡ false
      → ((m : Kernel) (f : Filter) → fails m (add_change fd f) ≡ false)
      → (seen (run_changes k (additions fd events)) fd evfilt_read
          ≡ has_flag events (flag PollerEvent.read))
        × (seen (run_changes k (additions fd events)) fd evfilt_write
            ≡ has_flag events (flag PollerEvent.write))
  unfolding additions
  after_additions k fd events reads writes accepts =
      let first = run_one k (add_change fd evfilt_read) in
      let read_too = laws.added k fd evfilt_read evfilt_read (accepts k evfilt_read) in
      let write_left = laws.added k fd evfilt_read evfilt_write (accepts k evfilt_read) ∙ writes in
      let none_run = ap (λ (r : Kernel × ℤ). r.0) (laws.no_change k) in
      elim (Bool-cases (has_flag events (flag PollerEvent.read))) [
        | inl r ↦ elim (Bool-cases (has_flag events (flag PollerEvent.write))) [
          | inl w ↦
              let same =
                goes_on k (add_change fd evfilt_read) (add_change fd evfilt_write ∷ [])
                  (accepts k evfilt_read) in
              rw (r, w, additions)
                (
                  ap (λ (m : Kernel). seen m fd evfilt_read) same
                      ∙ laws.added first fd evfilt_write evfilt_read (accepts first evfilt_write)
                      ∙ read_too,
                  ap (λ (m : Kernel). seen m fd evfilt_write) same
                      ∙ laws.added first fd evfilt_write evfilt_write (accepts first evfilt_write),
                )
          | inr w ↦ rw (r, w, additions) (read_too, write_left)
        ]
        | inr r ↦ elim (Bool-cases (has_flag events (flag PollerEvent.write))) [
          | inl w ↦
              rw (r, w, additions)
                (
                  laws.added k fd evfilt_write evfilt_read (accepts k evfilt_write) ∙ reads,
                  laws.added k fd evfilt_write evfilt_write (accepts k evfilt_write),
                )
          | inr w ↦
              rw (r, w, additions)
                (
                  ap (λ (m : Kernel). seen m fd evfilt_read) none_run ∙ reads,
                  ap (λ (m : Kernel). seen m fd evfilt_write) none_run ∙ writes,
                )
        ]
      ]

  -- `modify_fd` of the kqueue version, where `kevent` stops at the first change that fails and accepts
  -- every addition for the descriptor: a descriptor with both filters has those that the events ask
  -- for; one that is watched for reading only loses its filter and gets none; and one that is not
  -- watched for reading stays as it is, whatever the events ask for.
  pub kqueue_modify_fd_lem :
      (k : Kernel) (fd : ℤ) (events : ℕ)
      → ((m : Kernel) (f : Filter) → fails m (add_change fd f) ≡ false)
      → (seen (kqueue_modify_fd api p k fd events) fd evfilt_read ≡ (
          seen k fd evfilt_read
          && (seen k fd evfilt_write && has_flag events (flag PollerEvent.read))))
        × (seen (kqueue_modify_fd api p k fd events) fd evfilt_write ≡ (
            if seen k fd evfilt_read
            then seen k fd evfilt_write && has_flag events (flag PollerEvent.write)
            else seen k fd evfilt_write))
  unfolding kqueue_modify_fd
  kqueue_modify_fd_lem k fd events accepts = elim (Bool-cases (seen k fd evfilt_read)) [
    | inr r ↦
        let same = stopped_at_read k fd (additions fd events) r in
        rw r (
          ap (λ (m : Kernel). seen m fd evfilt_read) same ∙ r,
          ap (λ (m : Kernel). seen m fd evfilt_write) same,
        )
    | inl r ↦ elim (Bool-cases (seen k fd evfilt_write)) [
      | inr w ↦
          let same = stopped_at_write k fd (additions fd events) r w in
          rw (r, w)
            (
              ap (λ (m : Kernel). seen m fd evfilt_read) same
                  ∙ laws.deleted k fd evfilt_read evfilt_read r,
              ap (λ (m : Kernel). seen m fd evfilt_write) same
                  ∙ laws.deleted k fd evfilt_read evfilt_write r
                  ∙ w,
            )
      | inl w ↦
          let (m, same, no_read, no_write) = after_deletions k fd (additions fd events) r w in
          let (reads, writes) = after_additions m fd events no_read no_write accepts in
          rw (r, w)
            (
              ap (λ (m : Kernel). seen m fd evfilt_read) same ∙ reads,
              ap (λ (m : Kernel). seen m fd evfilt_write) same ∙ writes,
            )
    ]
  ]

  -- `removeFD` of the kqueue version, where `kevent` stops at the first change that fails: a descriptor
  -- that is watched for reading loses all its filters; any other one keeps what it has, so that one
  -- that is watched for writing only stays watched.
  pub kqueue_remove_fd_lem :
      (k : Kernel) (fd : ℤ)
      → (seen (kqueue_remove_fd api p k fd) fd evfilt_read ≡ false)
        × (seen (kqueue_remove_fd api p k fd) fd evfilt_write
            ≡ (if seen k fd evfilt_read then false else seen k fd evfilt_write))
  unfolding kqueue_remove_fd deletions
  kqueue_remove_fd_lem k fd = elim (Bool-cases (seen k fd evfilt_read)) [
    | inr r ↦
        let same = stopped_at_read k fd [] r in
        rw r (
          ap (λ (m : Kernel). seen m fd evfilt_read) same ∙ r,
          ap (λ (m : Kernel). seen m fd evfilt_write) same,
        )
    | inl r ↦ elim (Bool-cases (seen k fd evfilt_write)) [
      | inr w ↦
          let same = stopped_at_write k fd [] r w in
          rw r (
            ap (λ (m : Kernel). seen m fd evfilt_read) same
                ∙ laws.deleted k fd evfilt_read evfilt_read r,
            ap (λ (m : Kernel). seen m fd evfilt_write) same
                ∙ laws.deleted k fd evfilt_read evfilt_write r
                ∙ w,
          )
      | inl w ↦
          let (m, same, no_read, no_write) = after_deletions k fd [] r w in
          let none_run = ap (λ (r : Kernel × ℤ). r.0) (laws.no_change m) in
          rw r (
            ap (λ (m : Kernel). seen m fd evfilt_read) (same ∙ none_run) ∙ no_read,
            ap (λ (m : Kernel). seen m fd evfilt_write) (same ∙ none_run) ∙ no_write,
          )
    ]
  ]
