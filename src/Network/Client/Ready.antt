-- ===== src/Network/Client/Ready.antt =====
-- `is_request_ready`: when a request is complete.
use mathlib.Core.Path.{ap₂}
use fion.Prelude.{
  ℕ, ◌+◌, ◌-◌, ◌<◌, true, false, some, List, [], ◌∷◌, ◌++◌, ◌≡◌, refl, sym, ap, ◌∙◌, arith, leb,
  length, length-append, append_assoc, drop-length-add, All,
}
use fion.Text.{
  Bytes, codes, find_byte, find_text, starts_with, is_empty, is_digit, to_string, u64_mod,
  substr_from,
}
use fion.Text.Find.{Lacks-append, LacksText, find_text-append}
use fion.Text.Decimal.{digits-Lacks, to_string-digits}
use fion.Text.Crlf.{crlf, crlf_crlf, IsLine, head_text, find_text-crlf_crlf}
use fion.Network.Client.{
  Client, count_blanks, content_length_name, check_length, is_text_ready, is_request_ready,
  get_request_data,
}
use fion.Network.Client.LengthLine.{
  length_line, request_with_length, split_at_length, blanks_before, check_number, past_name,
}

-- The whole text, given where its head ends.
ready_at :
    (pre post : Bytes) (n headers_end : ℕ)
    → n < u64_mod
    → LacksText content_length_name (pre ++ codes "Content-Length")
    → find_text crlf_crlf (pre ++ (codes "Content-Length: " ++ (to_string n ++ (crlf ++ post))))
      ≡ some headers_end
    → is_text_ready (pre ++ (codes "Content-Length: " ++ (to_string n ++ (crlf ++ post))))
      ≡ leb n (
          length (pre ++ (codes "Content-Length: " ++ (to_string n ++ (crlf ++ post))))
          - (headers_end + 4))
unfolding is_text_ready
ready_at pre post n headers_end small first found =
    rw (found, named, is_text_ready)
      (at_value
        ∙ check_number (pre ++ codes "Content-Length: ") post n headers_end small
        ∙ ap (λ (t : Bytes). leb n (length t - (headers_end + 4)))
            (append_assoc pre (codes "Content-Length: ") behind))
  where
    behind : Bytes
    behind = to_string n ++ (crlf ++ post)

    named :
        find_text content_length_name (pre ++ (codes "Content-Length: " ++ behind))
        ≡ some (length pre)
    named =
        find_text-append content_length_name (codes "Content-Length") b':' pre (b' ' ∷ behind)
          (unfold content_length_name in refl) first

    blanks :
        count_blanks (substr_from (pre ++ (codes "Content-Length: " ++ behind)) (length pre + 15))
        ≡ 1
    blanks =
        ap count_blanks
          (drop-length-add 15 pre (codes "Content-Length: " ++ behind) ∙ past_name behind)
        ∙ blanks_before n (crlf ++ post)

    at_value :
        check_length (pre ++ (codes "Content-Length: " ++ behind)) headers_end (
          length pre
          + 15
          + count_blanks
              (substr_from (pre ++ (codes "Content-Length: " ++ behind)) (length pre + 15)))
        ≡ check_length
            ((pre ++ codes "Content-Length: ") ++ behind)
            headers_end
            (length (pre ++ codes "Content-Length: "))
    at_value =
        ap₂ (λ (t : Bytes) (k : ℕ). check_length t headers_end k)
          (sym (append_assoc pre (codes "Content-Length: ") behind))
          (omega (arith, blanks, length-append pre (codes "Content-Length: ")))

pub All-append {ℓ κ} :
    {A : Type ℓ} (P : A → Type κ) (l m : List A) → All P l → All P m → All P (l ++ m)
All-append P [] m h k = k
All-append P (x ∷ l) m h k = (h.0, All-append P l m h.1 k)

pub length_line-IsLine : (n : ℕ) → IsLine (length_line n)
unfolding find_byte
length_line-IsLine n = (
  (λ e. cc e),
  Lacks-append b'\r' (codes "Content-Length: ") (to_string n) refl
      (digits-Lacks b'\r' (to_string n) (unfold is_digit in refl) (to_string-digits n)),
)

pub is_text_ready-length :
    (start : Bytes) (before after : List Bytes) (n : ℕ) (body : Bytes)
    → IsLine start
    → All IsLine before
    → All IsLine after
    → n < u64_mod
    → LacksText content_length_name (head_text (start ∷ before) ++ codes "Content-Length")
    → is_text_ready (request_with_length (start ∷ before) n after body) ≡ leb n (length body)
is_text_ready-length start before after n body hs hb ha small first =
    let whole = split_at_length (start ∷ before) after n body in
    let (i, found, e) =
      find_text-crlf_crlf start (before ++ (length_line n ∷ after)) body hs
        (All-append IsLine before (length_line n ∷ after) hb (length_line-IsLine n, ha)) in
    ap is_text_ready whole
    ∙ ready_at (head_text (start ∷ before)) (head_text after ++ (crlf ++ body)) n i small first
        (ap (find_text crlf_crlf) (sym whole) ∙ found)
    ∙ ap (λ (t : Bytes). leb n (length t - (i + 4))) (sym whole)
    ∙ ap (leb n) (
        omega (
          arith,
          e,
          length-append (head_text (start ∷ (before ++ (length_line n ∷ after)))) (crlf ++ body),
        ))

not_empty :
    (start : Bytes) (ls : List Bytes) (s : Bytes)
    → IsLine start
    → is_empty (head_text (start ∷ ls) ++ s) ≡ false
not_empty [] ls s h = absurd (h.0 refl)
not_empty (c ∷ start) ls s h = refl

-- A request of a start line, field lines with one "Content-Length: n" that is the first place of
-- that name, n below 2^64, and a blank line is ready exactly when at least n bytes of the body are
-- there.
pub is_request_ready-length :
    (c : Client) (start : Bytes) (before after : List Bytes) (n : ℕ) (body : Bytes)
    → get_request_data c ≡ request_with_length (start ∷ before) n after body
    → IsLine start
    → All IsLine before
    → All IsLine after
    → n < u64_mod
    → LacksText content_length_name (head_text (start ∷ before) ++ codes "Content-Length")
    → is_request_ready c ≡ leb n (length body)
unfolding is_request_ready
is_request_ready-length c start before after n body e hs hb ha small first =
    let ready = is_text_ready-length start before after n body hs hb ha small first in
    let filled =
      ap is_empty e ∙ not_empty start (before ++ (length_line n ∷ after)) (crlf ++ body) hs in
    rw filled (ap is_text_ready e ∙ ready)

pub not_ready : (s : Bytes) → LacksText crlf_crlf s → is_text_ready s ≡ false
unfolding is_text_ready
not_ready s h = rw (h, is_text_ready) refl

ready_alone :
    (s : Bytes) (i : ℕ)
    → find_text crlf_crlf s ≡ some i
    → LacksText content_length_name s
    → is_text_ready s ≡ true
unfolding is_text_ready
ready_alone s i found h = rw (found, h, is_text_ready) refl

-- Without a blank line no request is ready.
pub is_request_ready_head :
    (c : Client) → LacksText crlf_crlf (get_request_data c) → is_request_ready c ≡ false
unfolding is_request_ready
is_request_ready_head c h = ground (arith, not_ready (get_request_data c) h)

nonempty_of_found : (s : Bytes) (i : ℕ) → find_text crlf_crlf s ≡ some i → is_empty s ≡ false
unfolding find_text starts_with
nonempty_of_found [] i f = cc f
nonempty_of_found (x ∷ s) i f = refl

-- With a blank line and no "Content-Length:" anywhere a request is ready.
pub is_request_ready_alone :
    (c : Client) (i : ℕ)
    → find_text crlf_crlf (get_request_data c) ≡ some i
    → LacksText content_length_name (get_request_data c)
    → is_request_ready c ≡ true
unfolding is_request_ready
is_request_ready_alone c i found h = ground (
  arith,
  ready_alone (get_request_data c) i found h,
  nonempty_of_found (get_request_data c) i found,
)
