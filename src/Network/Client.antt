-- ===== src/Network/Client.antt =====
-- headers/network/Client.hpp and sources/network/Client.cpp: one connection.
pub mod LengthLine
pub mod Ready
pub mod Beginnings
use fion.Prelude.{
  ℕ, zero, suc, ◌+◌, ◌-◌, Bool, true, false, ◌||◌, ◌&&◌, not, Option, none, some, List, [], ◌∷◌,
  ◌++◌, ltb, leb, ◌==◌, if◌then◌else◌, length,
}
use fion.Prelude.Results.{Exception, Result, ok, err}
use fion.Prelude.Int.{ℤ, pos, negsuc, ltb_ℤ}
use fion.Text.{Bytes, codes, is_empty, find_text, find_text_from, substr, substr_from, stoull}
use fion.Http.Response.{Response, to_raw_response}
use fion.Network.Buffer.{Buffer, new_buffer, append, clear_buffer, get_data}

pub data ClientState : Type 0 where
  reading_request processing writing_response closed : ClientState

pub record Client : Type 0 where
  pub fd : ℤ
  pub request_buffer : Buffer
  pub response_buffer : Buffer
  pub state : ClientState

-- `Client::Client`
unfoldable pub new_client : ℤ → Result Client
new_client fd =
    if ltb_ℤ fd (pos 0)
    then err (Exception.invalid_argument (codes "Invalid file descriptor"))
    else ok (record {
      fd = fd;
      request_buffer = new_buffer;
      response_buffer = new_buffer;
      state = ClientState.reading_request;
    })

-- `Client::~Client`: the descriptors that it closes.
unfoldable pub destroy_client : Client → List ℤ
destroy_client c = if ltb_ℤ c.fd (pos 0) then [] else c.fd ∷ []

-- The move constructor: the new client and what is left of the other one.
unfoldable pub move_client : Client → Client × Client
move_client other = (
  record {
    fd = other.fd;
    request_buffer = new_buffer;
    response_buffer = new_buffer;
    state = other.state;
  },
  record other { fd = negsuc 0 },
)

-- The move assignment of another client: this one, what is left of the other one, and the
-- descriptors that it closes.
unfoldable pub move_assign : Client → Client → Client × Client × List ℤ
move_assign this other = (
  record this { fd = other.fd; state = other.state },
  record other { fd = negsuc 0 },
  destroy_client this,
)

-- `readRequest` with what `recv` gives: the bytes that it read, none at the end of the stream, or
-- `none` for an error. The result is that of `recv`.
unfoldable pub read_request : Client → Option Bytes → Client × ℤ
read_request c none = (c, negsuc 0)
read_request c (some []) = (c, pos 0)
read_request c (some (b ∷ bytes)) =
    (record c { request_buffer = append c.request_buffer (b ∷ bytes) }, pos (length (b ∷ bytes)))

-- `writeResponse` with the result of `send`, which is called on all bytes of the buffer.
unfoldable pub write_response : Client → ℤ → Client × ℤ
write_response c sent =
    if is_empty (get_data c.response_buffer)
    then (c, pos 0)
    else if ltb_ℤ (pos 0) sent
    then (record c { response_buffer = clear_buffer c.response_buffer }, sent)
    else (c, sent)

unfoldable pub prepare_response : Client → Response → Client
prepare_response c response = record c {
  response_buffer = append (clear_buffer c.response_buffer) (to_raw_response response);
}

abbrev pub set_state : Client → ClientState → Client
set_state c state = record c { state = state }

abbrev pub clear_request_buffer : Client → Client
clear_request_buffer c = record c { request_buffer = clear_buffer c.request_buffer }

abbrev pub clear_response_buffer : Client → Client
clear_response_buffer c = record c { response_buffer = clear_buffer c.response_buffer }

abbrev pub get_request_data : Client → Bytes
get_request_data c = get_data c.request_buffer

-- How many blanks the text begins with: what the loop of `is_request_ready` passes over.
unfoldable pub count_blanks : Bytes → ℕ
count_blanks [] = 0
count_blanks (c ∷ s) =
    let rest = count_blanks s in if (c == b' ') || (c == b'\t') then suc rest else 0

unfoldable pub content_length_name : Bytes
content_length_name = codes "Content-Length:"

-- The comparison at the end: a length that is no number counts as ready.
unfoldable pub body_complete : Bytes → ℕ → Result ℕ → Bool
body_complete str headers_end (err e) = true
body_complete str headers_end (ok content_length) =
    leb content_length (length str - (headers_end + 4))

-- From the position of the value on.
unfoldable pub check_length : Bytes → ℕ → ℕ → Bool
check_length str headers_end value_start = elim (find_text_from (codes "\r\n") str value_start) [
  | none ↦ false
  | some value_end ↦
      body_complete str headers_end (stoull (substr str value_start (value_end - value_start)))
]

-- `is_request_ready` on the text of the request buffer.
unfoldable pub is_text_ready : Bytes → Bool
is_text_ready str = elim (find_text (codes "\r\n\r\n") str) [
  | none ↦ false
  | some headers_end ↦ elim (find_text content_length_name str) [
    | none ↦ true
    | some content_length_pos ↦
        check_length str headers_end
          (content_length_pos + 15 + count_blanks (substr_from str (content_length_pos + 15)))
  ]
]

unfoldable pub is_request_ready : Client → Bool
is_request_ready c =
    if is_empty (get_request_data c) then false else is_text_ready (get_request_data c)
