-- ===== src/Network/Pool/RequestText.antt =====
-- The text of a request, and what `process_request` cuts out of it for the fields.
use mathlib.Core.Path.{ap₂}
use fion.Prelude.{
  ℕ, ◌+◌, ◌-◌, ◌<◌, ◌%◌, [], ◌∷◌, ◌++◌, ◌≡◌, refl, ap, ◌∙◌, arith, length, length-append, take,
  drop, append_assoc, take-length, take_of_length-le, drop-length-add,
}
use fion.Text.{Bytes, substr, u64_mod}
use fion.Text.Crlf.{crlf, head_text}
use fion.Dict.{Dict}
use fion.Http.Headers.{Headers, empty_headers, parse_from_raw, print_fields}
use fion.Http.Headers.Laws.{IsOrdered}
use fion.Http.Headers.Head.{AreCleanFields, field_lines, print_fields-head_text}
use fion.Http.Headers.Unended.{
  unended_fields, unended_fields-print_fields, parse_from_raw-unended_fields, parse_from_raw_blank,
}

-- The text of a request.
abbrev pub request_text : Bytes → Headers → Bytes → Bytes
request_text start h body = start ++ (crlf ++ (print_fields h.headers ++ (crlf ++ body)))

-- The text between the start line and the blank line.
count_between :
    (start fields : ℕ)
    → start + 2 + fields < u64_mod
    → (start + 2 + fields + u64_mod + u64_mod - start - 2) % u64_mod ≡ fields
count_between start fields h = omega arith

count_nothing :
    (start : ℕ) → start < u64_mod → (start + u64_mod + u64_mod - start - 2) % u64_mod ≡ u64_mod - 2
count_nothing start h = omega arith

drop_line_end : (s : Bytes) → drop 2 (crlf ++ s) ≡ s
unfolding drop
drop_line_end s = refl

drop_start : (start s : Bytes) → drop (length start + 2) (start ++ (crlf ++ s)) ≡ s
drop_start start s = drop-length-add 2 start (crlf ++ s) ∙ drop_line_end s

-- A request in the lines that it is of.
pub text_lines :
    (start : Bytes) (h : Headers) (body : Bytes)
    → request_text start h body ≡ head_text (start ∷ field_lines h.headers) ++ (crlf ++ body)
text_lines start h body = rw (print_fields-head_text h.headers) (simp append_assoc)

text_with_fields :
    (start : Bytes) (e : Bytes × Bytes) (es : Dict Bytes) (body : Bytes)
    → request_text start (record { headers = e ∷ es }) body
      ≡ start ++ (crlf ++ (unended_fields (e ∷ es) ++ (crlf ++ (crlf ++ body))))
text_with_fields start e es body =
    ap (λ (s : Bytes). start ++ (crlf ++ (s ++ (crlf ++ body)))) (unended_fields-print_fields e es)
    ∙ ap (λ (s : Bytes). start ++ (crlf ++ s))
        (append_assoc (unended_fields (e ∷ es)) crlf (crlf ++ body))

text_alone :
    (start body : Bytes)
    → request_text start (record { headers = [] }) body ≡ start ++ (crlf ++ (crlf ++ body))
unfolding print_fields
text_alone start body = refl

pub length-request_text :
    (start : Bytes) (h : Headers) (body : Bytes)
    → length (request_text start h body)
      ≡ length start + 2 + length (print_fields h.headers) + 2 + length body
length-request_text start h body = omega (
  arith,
  length-append start (crlf ++ (print_fields h.headers ++ (crlf ++ body))),
  length-append (print_fields h.headers) (crlf ++ body),
)

length_head :
    (start : Bytes) (h : Headers)
    → length (head_text (start ∷ field_lines h.headers))
      ≡ length start + 2 + length (print_fields h.headers)
length_head start h = omega (
  arith,
  length-append start (crlf ++ head_text (field_lines h.headers)),
  ap length (print_fields-head_text h.headers),
)

abbrev CutsFields : Bytes → Headers → Bytes → ℕ → Type 0
CutsFields start h body i =
    (fields_text : Bytes) × (substr (request_text start h body) (length start + 2)
        ((i + u64_mod + u64_mod - length start - 2) % u64_mod)
      ≡ fields_text)
    × (parse_from_raw empty_headers fields_text ≡ h)

-- With no field the count wraps, and what is cut out begins with a line end.
no_fields_part :
    (start body : Bytes) (i : ℕ)
    → length (request_text start (record { headers = [] }) body) < u64_mod
    → i ≡ length start
    → CutsFields start (record { headers = [] }) body i
no_fields_part start body i small e = (
  crlf ++ body,
  ap₂ (λ (s : Bytes) (k : ℕ). take k s)
        (ap (drop (length start + 2)) (text_alone start body) ∙ drop_start start (crlf ++ body))
        (ap (λ (k : ℕ). (k + u64_mod + u64_mod - length start - 2) % u64_mod) e
          ∙ count_nothing (length start)
              (omega (arith, length-request_text start (record { headers = [] }) body)))
      ∙ take_of_length-le (u64_mod - 2) (crlf ++ body) (
          omega (
            arith,
            length-request_text start (record { headers = [] }) body,
            length-append crlf body,
          )),
  parse_from_raw_blank body,
)

some_fields_part :
    (start : Bytes) (e : Bytes × Bytes) (es : Dict Bytes) (body : Bytes) (i : ℕ)
    → IsOrdered (record { headers = e ∷ es })
    → AreCleanFields (e ∷ es)
    → i ≡ length start + 2 + length (unended_fields (e ∷ es))
    → i < u64_mod
    → CutsFields start (record { headers = e ∷ es }) body i
some_fields_part start e es body i s c at small = (
  unended_fields (e ∷ es),
  ap₂ (λ (s : Bytes) (k : ℕ). take k s)
        (ap (drop (length start + 2)) (text_with_fields start e es body)
          ∙ drop_start start (unended_fields (e ∷ es) ++ (crlf ++ (crlf ++ body))))
        (ap (λ (k : ℕ). (k + u64_mod + u64_mod - length start - 2) % u64_mod) at
          ∙ count_between (length start) (length (unended_fields (e ∷ es)))
              (omega (arith, at, small)))
      ∙ take-length (unended_fields (e ∷ es)) (crlf ++ (crlf ++ body)),
  parse_from_raw-unended_fields (record { headers = e ∷ es }) s c,
)

-- The text that is cut out for the fields holds them.
pub fields_part :
    (start : Bytes) (es : Dict Bytes) (body : Bytes) (i : ℕ)
    → IsOrdered (record { headers = es })
    → AreCleanFields es
    → length (request_text start (record { headers = es }) body) < u64_mod
    → i + 2 ≡ length (head_text (start ∷ field_lines es))
    → CutsFields start (record { headers = es }) body i
fields_part start [] body i s c small e =
    no_fields_part start body i small (omega (arith, e, length-append start (crlf ++ [])))
fields_part start (x ∷ es) body i s c small e =
    let cut : i ≡ length start + 2 + length (unended_fields (x ∷ es)) = omega (
      arith,
      e,
      length_head start (record { headers = x ∷ es }),
      ap length (unended_fields-print_fields x es),
      length-append (unended_fields (x ∷ es)) crlf,
    ) in
    some_fields_part start x es body i s c cut (
      omega (
        arith,
        e,
        small,
        length_head start (record { headers = x ∷ es }),
        length-request_text start (record { headers = x ∷ es }) body,
      ))
