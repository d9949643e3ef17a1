-- ===== src/Network/Poller/Kqueue/Laws.antt =====
-- What the manual of `kevent` says of a list of changes.
use fion.Prelude.{Bool, true, false, List, [], ◌∷◌, ◌≡◌, if◌then◌else◌}
use fion.Prelude.Int.{ℤ, pos, negsuc, ltb_ℤ}
use fion.Network.Poller.Kqueue.{
  Filter, evfilt_read, evfilt_write, evfilt_other, ev_delete, ev_add_enable, Change, KqueueApi,
}

abbrev pub eq_filter : Filter → Filter → Bool
eq_filter evfilt_read evfilt_read = true
eq_filter evfilt_read evfilt_write = false
eq_filter evfilt_read evfilt_other = false
eq_filter evfilt_write evfilt_read = false
eq_filter evfilt_write evfilt_write = true
eq_filter evfilt_write evfilt_other = false
eq_filter evfilt_other evfilt_read = false
eq_filter evfilt_other evfilt_write = false
eq_filter evfilt_other evfilt_other = true

abbrev pub delete_change : ℤ → Filter → Change
delete_change fd f = record { ident = fd; filter = f; action = ev_delete }

abbrev pub add_change : ℤ → Filter → Change
add_change fd f = record { ident = fd; filter = f; action = ev_add_enable }

-- What the manual of `kevent` says of changes to the queue `q`, when there is no room for errors.
pub record KqueueLaws {Kernel : Type 0} (api : KqueueApi Kernel) (q : ℤ) : Type 0 where
  pub no_change : (k : Kernel) → api.kevent k q [] ≡ (k, pos 0)
  pub in_order :
      (k : Kernel) (c : Change) (rest : List Change)
      → api.kevent k q (c ∷ rest) ≡ (
          if ltb_ℤ (api.kevent k q (c ∷ [])).1 (pos 0)
          then (k, negsuc 0)
          else api.kevent (api.kevent k q (c ∷ [])).0 q rest)
  pub absent :
      (k : Kernel) (fd : ℤ) (f : Filter)
      → api.registered k q fd f ≡ false
      → ltb_ℤ (api.kevent k q (delete_change fd f ∷ [])).1 (pos 0) ≡ true
  pub present :
      (k : Kernel) (fd : ℤ) (f : Filter)
      → api.registered k q fd f ≡ true
      → ltb_ℤ (api.kevent k q (delete_change fd f ∷ [])).1 (pos 0) ≡ false
  pub deleted :
      (k : Kernel) (fd : ℤ) (f g : Filter)
      → api.registered k q fd f ≡ true
      → api.registered (api.kevent k q (delete_change fd f ∷ [])).0 q fd g
        ≡ (if eq_filter g f then false else api.registered k q fd g)
  pub added :
      (k : Kernel) (fd : ℤ) (f g : Filter)
      → ltb_ℤ (api.kevent k q (add_change fd f ∷ [])).1 (pos 0) ≡ false
      → api.registered (api.kevent k q (add_change fd f ∷ [])).0 q fd g
        ≡ (if eq_filter g f then true else api.registered k q fd g)
