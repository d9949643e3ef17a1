-- ===== src/Http/Headers/Unended.antt =====
-- Header fields as `process_request` cuts them out of a request: without the last line end.
use fion.Prelude.{
  ℕ, false, some, [], ◌∷◌, ◌++◌, ◌≡◌, refl, ap, ◌∙◌, arith, length, drop, append_assoc, take-length,
  drop-length-add, drop-zero, foldl,
}
use fion.Text.{Bytes, codes, equal, find_text, starts_with, get_lines}
use fion.Text.Equal.{equal_iff, equal_refl}
use fion.Text.Find.{
  Lacks, LacksText, Lacks-append, Lacks-cons, Lacks-nil, Lacks-head, Lacks-tail, find_text-append,
}
use fion.Text.Lines.{get_lines-append, get_lines_last, get_lines-nil}
use fion.Dict.{Dict}
use fion.Dict.Sorted.{assign_all_lem}
use fion.Http.Headers.{
  Headers, empty_headers, set, strip_cr, parse_line, parse_lines, parse_from_raw, print_fields,
}
use fion.Http.Headers.Laws.{IsOrdered}
use fion.Http.Headers.RoundTrip.{
  lacks_colon, set_all, field_line, parse_line-field_line, line_is_no_end, field_line-Lacks,
}
use fion.Http.Headers.Head.{AreCleanFields, IsCleanField}

-- A field line without its line end.
abbrev pub bare_line : Bytes → Bytes → Bytes
bare_line key value = key ++ (b':' ∷ b' ' ∷ value)

abbrev pub unended_fields : Dict Bytes → Bytes
unended_fields [] = []
unended_fields ((key, value) ∷ []) = bare_line key value
unended_fields ((key, value) ∷ e ∷ es) =
    bare_line key value ++ (codes "\r\n" ++ unended_fields (e ∷ es))

pub unended_fields-print_fields :
    (e : Bytes × Bytes) (es : Dict Bytes)
    → print_fields (e ∷ es) ≡ unended_fields (e ∷ es) ++ codes "\r\n"
unfolding print_fields
unended_fields-print_fields (key, value) [] = simp append_assoc
unended_fields-print_fields (key, value) (e ∷ es) =
    ap (λ (s : Bytes). key ++ (codes ": " ++ (value ++ (codes "\r\n" ++ s))))
      (unended_fields-print_fields e es)
    ∙ simp append_assoc

drop_two : (a b : ℕ) (s : Bytes) → drop 2 (a ∷ b ∷ s) ≡ s
unfolding drop
drop_two a b s = refl

find_text-bare_line :
    (key value : Bytes)
    → LacksText (codes ": ") key
    → find_text (codes ": ") (bare_line key value) ≡ some (length key)
find_text-bare_line key value h =
    find_text-append (codes ": ") (b':' ∷ []) b' ' key value refl (lacks_colon key h)

parse_line-bare_line :
    (h : Headers) (key value : Bytes)
    → LacksText (codes ": ") key
    → parse_line h (bare_line key value) ≡ set h key (strip_cr value)
unfolding parse_line
parse_line-bare_line h key value free =
    rw (find_text-bare_line key value free, parse_line)
      (rw (drop-zero, take-length, drop-length-add, drop_two))

strip_cr_clean : (s : Bytes) → Lacks b'\r' s → strip_cr s ≡ s
unfolding strip_cr
strip_cr_clean [] h = refl
strip_cr_clean (c ∷ []) h = ground (arith, Lacks-head b'\r' c [] h)
strip_cr_clean (c ∷ d ∷ s) h = ap (◌∷◌ c) (strip_cr_clean (d ∷ s) (Lacks-tail b'\r' c (d ∷ s) h))

end_lacks_colon : LacksText (codes ": ") (codes "\r")
unfolding find_text starts_with
end_lacks_colon = refl

bare_is_no_end :
    (key value : Bytes)
    → LacksText (codes ": ") key
    → equal (bare_line key value) (codes "\r") ≡ false
bare_is_no_end key value free = ground (
  arith,
  equal_iff (bare_line key value) (codes "\r"),
  find_text-bare_line key value free,
  end_lacks_colon,
)

bare_line-Lacks : (key value : Bytes) → IsCleanField key value → Lacks b'\n' (bare_line key value)
bare_line-Lacks key value f =
    Lacks-append b'\n' key _ f.0.1
      (Lacks-cons b'\n' b':' _ (omega arith) (Lacks-cons b'\n' b' ' value (omega arith) f.0.2))

one_line :
    (key value : Bytes)
    → IsCleanField key value
    → get_lines b'\n' (bare_line key value) ≡ bare_line key value ∷ []
one_line [] value f = get_lines_last b'\n' b':' (b' ' ∷ value) (bare_line-Lacks [] value f)
one_line (c ∷ key) value f =
    get_lines_last b'\n' c (bare_line key value) (bare_line-Lacks (c ∷ key) value f)

-- One more field behind the line end.
lines_of_two :
    (key value rest : Bytes)
    → IsCleanField key value
    → get_lines b'\n' (bare_line key value ++ (codes "\r\n" ++ rest))
      ≡ field_line key value ∷ get_lines b'\n' rest
lines_of_two key value rest f =
    ap (get_lines b'\n') regroup
    ∙ get_lines-append b'\n' (field_line key value) rest (field_line-Lacks key value f.0)
  where
    regroup : bare_line key value ++ (codes "\r\n" ++ rest) ≡ field_line key value ++ (b'\n' ∷ rest)
    regroup = simp append_assoc

parse_lines-unended_fields :
    (h : Headers) (es : Dict Bytes)
    → AreCleanFields es
    → parse_lines h (get_lines b'\n' (unended_fields es)) ≡ foldl (λ g e. set g e.0 e.1) h es
unfolding parse_lines
parse_lines-unended_fields h [] f = rw (get_lines-nil b'\n') refl
parse_lines-unended_fields h ((key, value) ∷ []) f =
    rw (one_line key value f.0, bare_is_no_end key value f.0.0.0)
      (parse_line-bare_line h key value f.0.0.0 ∙ ap (set h key) (strip_cr_clean value f.0.2))
parse_lines-unended_fields h ((key, value) ∷ e ∷ es) f =
    rw
      (
        lines_of_two key value (unended_fields (e ∷ es)) f.0,
        line_is_no_end key value f.0.0.0,
        parse_line-field_line h key value f.0.0.0,
      )
      (parse_lines-unended_fields (set h key value) (e ∷ es) f.1)

-- Fields without a line end in their names and values are read back when the last line end is cut
-- off.
pub parse_from_raw-unended_fields :
    (h : Headers)
    → IsOrdered h
    → AreCleanFields h.headers
    → parse_from_raw empty_headers (unended_fields h.headers) ≡ h
unfolding parse_from_raw
parse_from_raw-unended_fields h s f =
    parse_lines-unended_fields empty_headers h.headers f
    ∙ set_all [] h.headers
    ∙ ap (λ d. record { headers = d }) (assign_all_lem h.headers s)

-- A text that begins with a line end holds no fields.
pub parse_from_raw_blank :
    (rest : Bytes) → parse_from_raw empty_headers (codes "\r\n" ++ rest) ≡ empty_headers
unfolding parse_from_raw parse_lines
parse_from_raw_blank rest =
    rw
      (
        get_lines-append b'\n' (codes "\r") rest
            (Lacks-cons b'\n' b'\r' [] (omega arith) (Lacks-nil b'\n')),
        equal_refl (codes "\r"),
      )
      refl
