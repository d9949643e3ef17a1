-- ===== src/Network/Pool/Respond.antt =====
-- `process_request`: how a request is cut into its start line, its fields and its body.
use fion.Prelude.{
  ℕ, ◌+◌, ◌-◌, ◌<◌, ◌%◌, some, ◌∷◌, ◌++◌, ◌≡◌, refl, ap, ◌∙◌, arith, length, drop, take-length,
  drop-zero,
}
use fion.Text.{Bytes, find_text, substr, substr_from, u64_mod}
use fion.Text.Crlf.{
  crlf, crlf_crlf, IsLine, head_text, find_text-crlf, find_text-crlf_crlf, drop_head,
}
use fion.Http.Headers.{Headers, empty_headers, parse_from_raw, print_fields}
use fion.Http.Headers.Laws.{IsOrdered}
use fion.Http.Headers.Head.{AreCleanFields, field_lines, field_lines-IsLine}
use fion.Routing.{Router, RegexMatch}
use fion.Network.Pool.{answer_parts, answer}
use fion.Network.Pool.RequestText.{request_text, text_lines, fields_part}

module _ (regex_match : RegexMatch) (router : Router) where
  answer_at :
      (text : Bytes) (first_crlf headers_end : ℕ)
      → find_text crlf text ≡ some first_crlf
      → find_text crlf_crlf text ≡ some headers_end
      → answer regex_match router text
        ≡ answer_parts regex_match router
            (substr text 0 first_crlf)
            (substr text
              (first_crlf + 2)
              ((headers_end + u64_mod + u64_mod - first_crlf - 2) % u64_mod))
            (substr_from text (headers_end + 4))
  unfolding answer
  answer_at text first_crlf headers_end e h = rw (e, h, answer) refl

  -- The parts, given the positions of the line ends.
  parts_at :
      (text start fields_text body : Bytes) (first_crlf headers_end : ℕ)
      → find_text crlf text ≡ some first_crlf
      → find_text crlf_crlf text ≡ some headers_end
      → substr text 0 first_crlf ≡ start
      → substr text (first_crlf + 2) ((headers_end + u64_mod + u64_mod - first_crlf - 2) % u64_mod)
        ≡ fields_text
      → substr_from text (headers_end + 4) ≡ body
      → answer regex_match router text ≡ answer_parts regex_match router start fields_text body
  parts_at text start fields_text body first_crlf headers_end e h s f b =
      answer_at text first_crlf headers_end e h ∙ ground (arith, s, f, b)

  cut_start : (start s : Bytes) → substr (start ++ s) 0 (length start) ≡ start
  cut_start start s = rw (drop-zero, take-length) refl

  cut_body :
      (start : Bytes) (h : Headers) (body : Bytes) (i : ℕ)
      → i + 2 ≡ length (head_text (start ∷ field_lines h.headers))
      → substr_from (request_text start h body) (i + 4) ≡ body
  cut_body start h body i e =
      ap (drop (i + 4)) (text_lines start h body)
      ∙ drop_head (head_text (start ∷ field_lines h.headers)) body i e

  -- The texts from which `answer` makes the request: the start line, a text that holds the fields,
  -- and the body.
  pub answer_request :
      (start : Bytes) (h : Headers) (body : Bytes)
      → IsLine start
      → IsOrdered h
      → AreCleanFields h.headers
      → length (request_text start h body) < u64_mod
      → (fields_text : Bytes) × (answer regex_match router (request_text start h body)
          ≡ answer_parts regex_match router start fields_text body)
        × (parse_from_raw empty_headers fields_text ≡ h)
  answer_request start h body line s c small =
      let (i, found, e) =
        find_text-crlf_crlf start (field_lines h.headers) body line
          (field_lines-IsLine h.headers c) in
      let ended = ap (find_text crlf_crlf) (text_lines start h body) ∙ found in
      let first = find_text-crlf start (print_fields h.headers ++ (crlf ++ body)) line.1 in
      let (fields_text, f, p) = fields_part start h.headers body i s c small e in
      (
        fields_text,
        parts_at (request_text start h body) start fields_text body (length start) i first ended
            (cut_start start (crlf ++ (print_fields h.headers ++ (crlf ++ body)))) f
            (cut_body start h body i e),
        p,
      )
