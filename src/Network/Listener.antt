-- ===== src/Network/Listener.antt =====
-- headers/network/Listener.hpp and sources/network/Listener.cpp: the socket that listens. The
-- answers of the system calls are arguments; the address is passed on to them and left out,
-- and so is the text of `errno` behind a message.
pub mod Descriptor
use fion.Prelude.{
  Bool, true, false, not, ◌||◌, Option, none, some, List, [], ◌∷◌, ◌++◌, if◌then◌else◌,
}
use fion.Prelude.Results.{Exception}
use fion.Prelude.Int.{ℤ, pos, negsuc, ltb_ℤ}
use fion.Text.{Bytes, codes, equal, is_empty}

-- With the descriptors that it passed to `close`, the last one first.
pub record Listener : Type 0 where
  pub listen_fd : ℤ
  pub is_listening : Bool
  pub closed_fds : List ℤ

abbrev pub new_listener : Listener
new_listener = record { listen_fd = negsuc 0; is_listening = false; closed_fds = [] }

-- What the calls in `bind` give: the result of `socket`, and whether the others succeed.
pub record BindAnswers : Type 0 where
  pub socket_fd : ℤ
  pub reuse_set : Bool
  pub non_blocking : Bool
  pub valid_address : Bool
  pub bound : Bool

-- An error path of `bind`: the descriptor is closed and stays in its field.
abbrev pub fail_bind : Listener → Bytes → Listener × Option Exception
fail_bind l message =
    (record l { closed_fds = l.listen_fd ∷ l.closed_fds }, some (Exception.runtime_error message))

unfoldable pub bind : Listener → Bytes → BindAnswers → Listener × Option Exception
bind l host a =
    let opened = record l { listen_fd = a.socket_fd } in
    if ltb_ℤ a.socket_fd (pos 0)
    then (opened, some (Exception.runtime_error (codes "Failed to create socket: ")))
    else if not a.reuse_set
    then fail_bind opened (codes "Failed to set SO_REUSEADDR: ")
    else if not a.non_blocking
    then fail_bind opened (codes "Failed to set non-blocking: ")
    else if not (equal host (codes "0.0.0.0") || is_empty host || a.valid_address)
    then fail_bind opened (codes "Invalid address: " ++ host)
    else if not a.bound
    then fail_bind opened (codes "Failed to bind to ")
    else (opened, none)

unfoldable pub listen : Listener → Bool → Listener × Option Exception
listen l succeeds =
    if ltb_ℤ l.listen_fd (pos 0)
    then (l, some (Exception.runtime_error (codes "Socket not bound")))
    else if not succeeds
    then (l, some (Exception.runtime_error (codes "Failed to listen: ")))
    else (record l { is_listening = true }, none)

-- `acceptClient` with what `accept` gives if it is called.
unfoldable pub accept_client : Listener → ℤ → ℤ
accept_client l accepted = if not l.is_listening then negsuc 0 else accepted

-- `close`, which the destructor calls too.
unfoldable pub close_listener : Listener → Listener
close_listener l = if ltb_ℤ l.listen_fd (pos 0) then l else record l {
  listen_fd = negsuc 0;
  is_listening = false;
  closed_fds = l.listen_fd ∷ l.closed_fds;
}

-- The new listener, and what is left in the other one.
unfoldable pub move_listener : Listener → Listener × Listener
move_listener other = (
  record { listen_fd = other.listen_fd; is_listening = other.is_listening; closed_fds = [] },
  record other { listen_fd = negsuc 0; is_listening = false },
)

-- `operator=` for two listeners that differ: this one, and the other one.
unfoldable pub assign_listener : Listener → Listener → Listener × Listener
assign_listener l other = (
  record (close_listener l) { listen_fd = other.listen_fd; is_listening = other.is_listening },
  record other { listen_fd = negsuc 0; is_listening = false },
)
