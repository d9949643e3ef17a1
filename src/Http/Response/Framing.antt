-- ===== src/Http/Response/Framing.antt =====
-- How a reader takes a printed response apart.
use fion.Prelude.{
  drop-zero, drop-length-add, ℕ, ◌+◌, some, [], ◌∷◌, ◌++◌, ◌≡◌, ◌≢◌, refl, ap, ◌∙◌, arith, length,
  drop, append_assoc, take-length,
}
use fion.Text.{Bytes, substr, substr_from, codes, find_byte, find_text, to_string, is_digit}
use fion.Text.Find.{Lacks, Lacks-append, Lacks-cons}
use fion.Text.Crlf.{
  crlf, crlf_crlf, IsLine, head_text, find_text-crlf, find_text-crlf_crlf, drop_head,
}
use fion.Text.Decimal.{digits-Lacks, to_string-digits}
use fion.Http.Headers.Head.{
  AreCleanFields, AreFields-of_clean, field_lines, print_fields-head_text, field_lines-IsLine,
}
use fion.Http.Version.{Version, version_to_string}
use fion.Http.Status.{StatusCode, code_of, status_code_to_string}
use fion.Http.Headers.{empty_headers, to_raw_string, parse_from_raw}
use fion.Http.Headers.Laws.{IsOrdered}
use fion.Http.Headers.RoundTrip.{parse_from_raw-to_raw_string}
use fion.Http.Response.{Response, status_line, to_raw_response}

version-Lacks : (v : Version) → Lacks b'\r' (version_to_string v)
unfolding version_to_string find_byte
version-Lacks Version.http_0_9 = refl
version-Lacks _ = refl

phrase-Lacks : (s : StatusCode) → Lacks b'\r' (status_code_to_string s)
unfolding status_code_to_string find_byte
phrase-Lacks StatusCode.continue = refl
phrase-Lacks _ = refl

space-Lacks : (s : Bytes) → Lacks b'\r' s → Lacks b'\r' (codes " " ++ s)
space-Lacks s h = Lacks-cons b'\r' b' ' s (omega arith) h

starts_line : (v : Version) (s : Bytes) → version_to_string v ++ (codes " " ++ s) ≢ []
unfolding version_to_string
starts_line Version.http_0_9 s e = cc e
starts_line _ s e = cc e

code-Lacks : (s : StatusCode) → Lacks b'\r' (to_string (code_of s))
code-Lacks s =
    digits-Lacks b'\r' (to_string (code_of s)) (unfold is_digit in refl)
      (to_string-digits (code_of s))

status_line-IsLine : (r : Response) → IsLine (status_line r)
unfolding status_line
status_line-IsLine r = (
  starts_line r.version _,
  Lacks-append b'\r' _ _ (version-Lacks r.version) (
      space-Lacks _ (
        Lacks-append b'\r' _ _ (code-Lacks r.status_code)
          (space-Lacks _ (phrase-Lacks r.status_code)))),
)

-- The response as the head of lines that it is.
to_raw_response-head_text :
    (r : Response)
    → to_raw_response r
      ≡ head_text (status_line r ∷ field_lines r.headers.headers) ++ (crlf ++ r.body)
unfolding to_raw_response to_raw_string
to_raw_response-head_text r = rw (print_fields-head_text r.headers.headers) (simp append_assoc)

drop_two : (s : Bytes) → drop 2 (crlf ++ s) ≡ s
unfolding drop
drop_two s = refl

-- A response whose fields are in order, with no ": " in a name and no line end in a name or a
-- value, is taken apart by its first "\r\n" and its first "\r\n\r\n" as it was put together: the
-- status line, the fields and the body, whatever bytes the body holds.
pub response_framing :
    (r : Response)
    → IsOrdered r.headers
    → AreCleanFields r.headers.headers
    → (i : ℕ) × (find_text crlf (to_raw_response r) ≡ some (length (status_line r)))
      × (substr (to_raw_response r) 0 (length (status_line r)) ≡ status_line r)
      × (parse_from_raw empty_headers (substr_from (to_raw_response r) (length (status_line r) + 2))
          ≡ r.headers)
      × (find_text crlf_crlf (to_raw_response r) ≡ some i)
      × (substr_from (to_raw_response r) (i + 4) ≡ r.body)
unfolding to_raw_response
response_framing r s c =
    let h = head_text (status_line r ∷ field_lines r.headers.headers) in
    let whole = to_raw_response-head_text r in
    let (i, found, e) =
      find_text-crlf_crlf (status_line r) (field_lines r.headers.headers) r.body
        (status_line-IsLine r) (field_lines-IsLine r.headers.headers c) in
    (
      i,
      find_text-crlf (status_line r) _ (status_line-IsLine r).1,
      rw (drop-zero, take-length),
      rw (drop-length-add, drop_two)
          (parse_from_raw-to_raw_string r.headers r.body s (AreFields-of_clean _ c)),
      ap (find_text crlf_crlf) whole ∙ found,
      ap (drop (i + 4)) whole ∙ drop_head h r.body i e,
    )
