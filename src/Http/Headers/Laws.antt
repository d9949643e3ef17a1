-- ===== src/Http/Headers/Laws.antt =====
-- What each operation of `Headers` does to each query, and to the number of fields.
use fion.Prelude.{
  List, ℕ, ◌+◌, true, false, Option, none, some, [], ◌∷◌, ◌++◌, ◌≡◌, refl, ◌⊎◌, inl, inr, arith,
  if◌then◌else◌, Bool-cases,
}
use fion.Prelude.Results.{Exception, ok, err}
use fion.Text.{find_text, get_lines, Bytes, codes, equal}
use fion.Dict.{lookup}
use fion.Dict.Lookup.{lookup-assign, lookup-erase, count-pos}
use fion.Dict.Size.{length-assign, length-erase_sorted}
use fion.Dict.Sorted.{IsSorted, assign-IsSorted, erase-IsSorted}
use fion.Http.Headers.{
  Headers, set, has, get, get_optional, get_or_default, remove, clear, size, parse_from_raw,
  parse_lines, parse_line,
}

-- The fields are in order and no name stands twice.
abbrev pub IsOrdered : Headers → Type 0
IsOrdered h = IsSorted h.headers

-- The four queries agree: they tell of the same field.
pub queries_agree :
    (h : Headers) (key d : Bytes)
    → ((get_optional h key ≡ none)
        × (has h key ≡ false)
        × (get h key ≡ err (Exception.invalid_argument (codes "Header not found: " ++ key)))
        × (get_or_default h key d ≡ d))
      ⊎ ((v : Bytes) × (get_optional h key ≡ some v)
          × (has h key ≡ true)
          × (get h key ≡ ok v)
          × (get_or_default h key d ≡ v))
unfolding get_optional has get get_or_default
queries_agree h key d = go (lookup key h.headers) refl
  where
    go :
        (o : Option Bytes)
        → lookup key h.headers ≡ o
        → ((lookup key h.headers ≡ none)
            × (has h key ≡ false)
            × (get h key ≡ err (Exception.invalid_argument (codes "Header not found: " ++ key)))
            × (get_or_default h key d ≡ d))
          ⊎ ((v : Bytes) × (lookup key h.headers ≡ some v)
              × (has h key ≡ true)
              × (get h key ≡ ok v)
              × (get_or_default h key d ≡ v))
    go none e = inl (e, rw (e, has), rw (e, get), rw (e, get_or_default))
    go (some v) e = inr (v, e, rw (e, has), rw (e, get), rw (e, get_or_default))

-- After `set` the field has the value, and every other field is as it was.
pub get_optional-set :
    (h : Headers) (key value j : Bytes)
    → get_optional (set h key value) j ≡ (if equal j key then some value else get_optional h j)
unfolding get_optional set
get_optional-set h key value j = lookup-assign key j value h.headers

-- `remove` takes the field away, and tells whether there was one.
pub remove_lem :
    (h : Headers) (key j : Bytes)
    → (get_optional (remove h key).0 j ≡ (if equal j key then none else get_optional h j))
      × ((remove h key).1 ≡ has h key)
unfolding get_optional remove has
remove_lem h key j = (lookup-erase key j h.headers, count-pos key h.headers)

-- When the fields are in order, `set` adds one field exactly if the name is new, and `remove`
-- drops one exactly if it is there.
pub size_lem :
    (h : Headers) (key value : Bytes)
    → IsOrdered h
    → (size (set h key value) ≡ size h + (if has h key then 0 else 1))
      × (size (remove h key).0 + (if has h key then 1 else 0) ≡ size h)
unfolding size set has remove
size_lem h key value s = (
  ground (arith, length-assign key value h.headers s),
  ground (arith, length-erase_sorted key h.headers s),
)

set-IsOrdered : (h : Headers) (key value : Bytes) → IsOrdered h → IsOrdered (set h key value)
unfolding set
set-IsOrdered h key value s = assign-IsSorted key value h.headers s

parse_line-IsOrdered : (h : Headers) (line : Bytes) → IsOrdered h → IsOrdered (parse_line h line)
unfolding parse_line
parse_line-IsOrdered h line s = go (find_text (codes ": ") line) refl
  where
    go : (o : Option ℕ) → find_text (codes ": ") line ≡ o → IsOrdered (parse_line h line)
    go none e = rw (parse_line, e) s
    go (some pos) e = rw (parse_line, e) (set-IsOrdered h _ _ s)

parse_lines-IsOrdered :
    (h : Headers) (lines : List Bytes) → IsOrdered h → IsOrdered (parse_lines h lines)
unfolding parse_lines
parse_lines-IsOrdered h [] s = s
parse_lines-IsOrdered h (line ∷ rest) s = elim (Bool-cases (equal line (codes "\r"))) [
  | inl last ↦ rw last s
  | inr more ↦
      rw more (parse_lines-IsOrdered (parse_line h line) rest (parse_line-IsOrdered h line s))
]

-- When the fields are in order with no name twice, they are so after every operation that changes
-- them.
pub operations-IsOrdered :
    (h : Headers) (key value raw : Bytes)
    → IsOrdered h
    → IsOrdered (set h key value)
      × IsOrdered (remove h key).0
      × IsOrdered (clear h)
      × IsOrdered (parse_from_raw h raw)
unfolding remove clear parse_from_raw
operations-IsOrdered h key value raw s = (
  set-IsOrdered h key value s,
  erase-IsSorted key h.headers s,
  tt,
  parse_lines-IsOrdered h (get_lines b'\n' raw) s,
)
