-- ===== src/Http/Headers/RoundTrip.antt =====
-- Header fields that are printed are read back.
use fion.Prelude.{
  ℕ, false, some, [], ◌∷◌, ◌++◌, ◌≡◌, refl, ap, ◌∙◌, arith, length, drop, append_assoc, take-length,
  drop-length-add, drop-zero, foldl,
}
use fion.Text.{Bytes, codes, equal, find_text, starts_with, get_lines}
use fion.Text.Equal.{equal_iff, equal_refl}
use fion.Text.Find.{Lacks, LacksText, Lacks-append, Lacks-cons, Lacks-nil, find_text-append}
use fion.Text.Lines.{get_lines-append}
use fion.Dict.{Dict, assign}
use fion.Dict.Sorted.{assign_all_lem}
use fion.Http.Headers.{
  Headers, empty_headers, set, strip_cr, parse_line, parse_lines, parse_from_raw, print_fields,
  to_raw_string,
}
use fion.Http.Headers.Laws.{IsOrdered}

-- A field that one line can hold: a name with neither ": " nor a line end, a value with no line
-- end. The value may hold ": ", and may end in a carriage return.
abbrev pub IsField : Bytes → Bytes → Type 0
IsField key value = LacksText (codes ": ") key × Lacks b'\n' key × Lacks b'\n' value

abbrev pub AreFields : Dict Bytes → Type 0
AreFields [] = Unit {0}
AreFields ((key, value) ∷ rest) = IsField key value × AreFields rest

pub strip_cr-append : (s : Bytes) → strip_cr (s ++ (b'\r' ∷ [])) ≡ s
unfolding strip_cr
strip_cr-append [] = refl
strip_cr-append (c ∷ []) = refl
strip_cr-append (c ∷ d ∷ s) = ap (◌∷◌ c) (strip_cr-append (d ∷ s))

-- A byte behind the name makes no ": " of it.
pub lacks_colon :
    (key : Bytes) → LacksText (codes ": ") key → LacksText (codes ": ") (key ++ (b':' ∷ []))
unfolding find_text starts_with
lacks_colon [] h = refl
lacks_colon (x ∷ []) h = ground arith
lacks_colon (x ∷ y ∷ key) h = ground (arith, lacks_colon (y ∷ key))

abbrev pub field_line : Bytes → Bytes → Bytes
field_line key value = key ++ (b':' ∷ b' ' ∷ (value ++ (b'\r' ∷ [])))

find_text-field_line :
    (key value : Bytes)
    → LacksText (codes ": ") key
    → find_text (codes ": ") (field_line key value) ≡ some (length key)
find_text-field_line key value h =
    find_text-append (codes ": ") (b':' ∷ []) b' ' key (value ++ (b'\r' ∷ [])) refl
      (lacks_colon key h)

drop_two : (a b : ℕ) (s : Bytes) → drop 2 (a ∷ b ∷ s) ≡ s
unfolding drop
drop_two a b s = refl

pub parse_line-field_line :
    (h : Headers) (key value : Bytes)
    → LacksText (codes ": ") key
    → parse_line h (field_line key value) ≡ set h key value
unfolding parse_line
parse_line-field_line h key value free =
    rw (find_text-field_line key value free, parse_line)
      (rw (drop-zero, take-length, drop-length-add, drop_two, strip_cr-append))

end_lacks_colon : LacksText (codes ": ") (codes "\r")
unfolding find_text starts_with
end_lacks_colon = refl

pub line_is_no_end :
    (key value : Bytes)
    → LacksText (codes ": ") key
    → equal (field_line key value) (codes "\r") ≡ false
line_is_no_end key value free = ground (
  arith,
  equal_iff (field_line key value) (codes "\r"),
  find_text-field_line key value free,
  end_lacks_colon,
)

pub field_line-Lacks : (key value : Bytes) → IsField key value → Lacks b'\n' (field_line key value)
field_line-Lacks key value f = Lacks-append b'\n' key _ f.1 (
    Lacks-cons b'\n' b':' _ (omega arith) (
      Lacks-cons b'\n' b' ' _ (omega arith) (
        Lacks-append b'\n' value _ f.2
          (Lacks-cons b'\n' b'\r' [] (omega arith) (Lacks-nil b'\n')))))

-- The text of one field, in front of what follows it.
print_fields-cons :
    (key value : Bytes) (rest : Dict Bytes) (tail : Bytes)
    → print_fields ((key, value) ∷ rest) ++ tail
      ≡ field_line key value ++ (b'\n' ∷ (print_fields rest ++ tail))
unfolding print_fields
print_fields-cons key value rest tail = simp append_assoc

-- Printed fields are read one after the other, and the blank line stops the loop.
parse_lines-print_fields :
    (h : Headers) (es : Dict Bytes) (tail : Bytes)
    → AreFields es
    → parse_lines h (get_lines b'\n' (print_fields es ++ (b'\r' ∷ b'\n' ∷ tail)))
      ≡ foldl (λ g e. set g e.0 e.1) h es
unfolding parse_lines print_fields
parse_lines-print_fields h [] tail f =
    rw
      (get_lines-append b'\n' (codes "\r") tail
        (Lacks-cons b'\n' b'\r' [] (omega arith) (Lacks-nil b'\n')))
      (rw (equal_refl (codes "\r")))
parse_lines-print_fields h ((key, value) ∷ es) tail f =
    rw
      (
        print_fields-cons key value es (b'\r' ∷ b'\n' ∷ tail),
        get_lines-append b'\n' (field_line key value) _ (field_line-Lacks key value f.0),
        line_is_no_end key value f.0.0,
        parse_line-field_line h key value f.0.0,
      )
      (parse_lines-print_fields (set h key value) es tail f.1)

pub set_all :
    (d es : Dict Bytes)
    → foldl (λ g e. set g e.0 e.1) (record { headers = d }) es
      ≡ record { headers = foldl (λ m e. assign e.0 e.1 m) d es }
unfolding set
set_all d [] = refl
set_all d (e ∷ es) = set_all (assign e.0 e.1 d) es

-- Fields in order, with no ": " in a name and no line end in a name or a value, printed in front
-- of the blank line and whatever stands behind it, are read back from an empty map: every field
-- with its value and no other.
pub parse_from_raw-to_raw_string :
    (h : Headers) (rest : Bytes)
    → IsOrdered h
    → AreFields h.headers
    → parse_from_raw empty_headers (to_raw_string h ++ (codes "\r\n" ++ rest)) ≡ h
unfolding parse_from_raw to_raw_string
parse_from_raw-to_raw_string h rest s f =
    parse_lines-print_fields empty_headers h.headers rest f
    ∙ set_all [] h.headers
    ∙ ap (λ d. record { headers = d }) (assign_all_lem h.headers s)
