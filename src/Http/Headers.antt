-- ===== src/Http/Headers.antt =====
-- headers/http/Headers.hpp and sources/http/Headers.cpp: the header fields, a map by name.
pub mod Laws
pub mod RoundTrip
pub mod Head
pub mod Unended
pub mod Refines
use fion.Prelude.{
  ℕ, ◌+◌, Bool, true, false, Option, none, some, List, [], ◌∷◌, ◌++◌, ltb, if◌then◌else◌, length,
  take, drop, not, ◌&&◌, ◌==◌,
}
use fion.Prelude.Results.{Exception, Result, ok, err}
use fion.Text.{Bytes, codes, equal, find_text, substr, substr_from, get_lines, is_empty}
use fion.Dict.{Dict, lookup, assign, erase, count, keys}

pub record Headers : Type 0 where
  pub headers : Dict Bytes

abbrev pub empty_headers : Headers
empty_headers = record { headers = [] }

unfoldable pub set : Headers → Bytes → Bytes → Headers
set h key value = record { headers = assign key value h.headers }

-- `find(key) != end()`
unfoldable pub has : Headers → Bytes → Bool
has h key = elim (lookup key h.headers) [ none ↦ false | some v ↦ true ]

unfoldable pub get_optional : Headers → Bytes → Option Bytes
get_optional h key = lookup key h.headers

-- `get(key)` throws where the field is missing, `get(key, defaultValue)` does not.
unfoldable pub get : Headers → Bytes → Result Bytes
get h key = elim (lookup key h.headers) [
  | none ↦ err (Exception.invalid_argument (codes "Header not found: " ++ key))
  | some v ↦ ok v
]

unfoldable pub get_or_default : Headers → Bytes → Bytes → Bytes
get_or_default h key default_value = elim (lookup key h.headers) [
  | none ↦ default_value
  | some v ↦ v
]

unfoldable pub remove : Headers → Bytes → Headers × Bool
remove h key = (record { headers = erase key h.headers }, ltb 0 (count key h.headers))

unfoldable pub clear : Headers → Headers
clear h = record { headers = [] }

unfoldable pub get_keys : Headers → List Bytes
get_keys h = keys h.headers

unfoldable pub size : Headers → ℕ
size h = length h.headers

unfoldable pub empty : Headers → Bool
empty h = is_empty h.headers

-- `if (!value.empty() && value.back() == '\r') value.pop_back();`
unfoldable pub strip_cr : Bytes → Bytes
strip_cr [] = []
strip_cr (c ∷ []) = if c == b'\r' then [] else c ∷ []
strip_cr (c ∷ d ∷ s) = c ∷ strip_cr (d ∷ s)

-- One line of the raw headers; a line with no ": " is passed over.
unfoldable pub parse_line : Headers → Bytes → Headers
parse_line h line = elim (find_text (codes ": ") line) [
  | none ↦ h
  | some pos ↦ set h (substr line 0 pos) (strip_cr (substr_from line (pos + 2)))
]

-- The loop ends at the first line that is "\r".
unfoldable pub parse_lines : Headers → List Bytes → Headers
parse_lines h [] = h
parse_lines h (line ∷ rest) =
    let later = parse_lines (parse_line h line) rest in if equal line (codes "\r") then h else later

unfoldable pub parse_from_raw : Headers → Bytes → Headers
parse_from_raw h raw = parse_lines h (get_lines b'\n' raw)

unfoldable pub print_fields : Dict Bytes → Bytes
print_fields [] = []
print_fields ((key, value) ∷ rest) =
    key ++ (codes ": " ++ (value ++ (codes "\r\n" ++ print_fields rest)))

unfoldable pub to_raw_string : Headers → Bytes
to_raw_string h = print_fields h.headers
