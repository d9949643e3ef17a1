-- ===== src/Network/Buffer.antt =====
-- headers/network/Buffer.hpp: the bytes that a client has read or is to write.
use fion.Prelude.{ℕ, Bool, ◌++◌, [], length}
use fion.Text.{Bytes, is_empty}

pub record Buffer : Type 0 where
  pub bytes : Bytes

abbrev pub new_buffer : Buffer
new_buffer = record { bytes = [] }

abbrev pub append : Buffer → Bytes → Buffer
append b bytes = record { bytes = b.bytes ++ bytes }

abbrev pub clear_buffer : Buffer → Buffer
clear_buffer b = record { bytes = [] }

abbrev pub get_data : Buffer → Bytes
get_data b = b.bytes

abbrev pub buffer_size : Buffer → ℕ
buffer_size b = length b.bytes

abbrev pub buffer_empty : Buffer → Bool
buffer_empty b = is_empty b.bytes
