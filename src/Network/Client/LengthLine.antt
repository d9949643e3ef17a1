-- ===== src/Network/Client/LengthLine.antt =====
-- The text of a request with a field line "Content-Length: n", and how its number is read.
use mathlib.Core.Option
use fion.Prelude.{
  ℕ, ◌+◌, ◌-◌, ◌<◌, true, false, some, List, [], ◌∷◌, ◌++◌, ◌≡◌, refl, sym, ap, ◌∙◌, arith, leb,
  ◌==◌, length, take, drop, append_assoc, take-length, drop-length,
}
use fion.Text.{
  Bytes, codes, find_text, find_text_from, is_digit, all_of, to_string, u64_mod, substr,
}
use fion.Text.Decimal.{stoull-to_string, digits-Lacks, to_string-digits, to_string-cons}
use fion.Text.Crlf.{crlf, head_text, find_text-crlf}
use fion.Network.Client.{count_blanks, body_complete, check_length}

-- The field line of a length.
abbrev pub length_line : ℕ → Bytes
length_line n = codes "Content-Length: " ++ to_string n

-- The text of a request with the lines before and behind that of its length.
abbrev pub request_with_length : List Bytes → ℕ → List Bytes → Bytes → Bytes
request_with_length before n after body =
    head_text (before ++ (length_line n ∷ after)) ++ (crlf ++ body)

head_text-append : (l m : List Bytes) → head_text (l ++ m) ≡ head_text l ++ head_text m
head_text-append [] m = refl
head_text-append (x ∷ l) m = rw (head_text-append l m) (simp append_assoc)

pub split_at_length :
    (before after : List Bytes) (n : ℕ) (body : Bytes)
    → request_with_length before n after body
      ≡ head_text before
        ++ (codes "Content-Length: "
            ++ (to_string n ++ (crlf ++ (head_text after ++ (crlf ++ body)))))
split_at_length before after n body =
    rw (head_text-append before (length_line n ∷ after)) (simp append_assoc)

digit_not_blank :
    (d : ℕ) (t : Bytes)
    → all_of is_digit (d ∷ t) ≡ true
    → (d == b' ' ≡ false) × (d == b'\t' ≡ false)
unfolding all_of is_digit
digit_not_blank d t h = (ground arith, ground arith)

blanks_at_digit :
    (d : ℕ) (t s : Bytes)
    → (d == b' ' ≡ false) × (d == b'\t' ≡ false)
    → count_blanks (b' ' ∷ ((d ∷ t) ++ s)) ≡ 1
unfolding count_blanks
blanks_at_digit d t s h = rw (h.0, h.1) refl

-- One blank stands before the value.
pub blanks_before : (n : ℕ) (s : Bytes) → count_blanks (b' ' ∷ (to_string n ++ s)) ≡ 1
blanks_before n s =
    let (d, t, e) = to_string-cons n in
    ap (λ (v : Bytes). count_blanks (b' ' ∷ (v ++ s))) e
    ∙ blanks_at_digit d t s
        (digit_not_blank d t (ap (all_of is_digit) (sym e) ∙ to_string-digits n))

line_end :
    (pre post : Bytes) (n : ℕ)
    → find_text_from crlf (pre ++ (to_string n ++ (crlf ++ post))) (length pre)
      ≡ some (length pre + length (to_string n))
unfolding find_text_from
line_end pre post n = ap (Option.map (λ i. length pre + i)) (
    ap (find_text crlf) (drop-length pre (to_string n ++ (crlf ++ post)))
    ∙ find_text-crlf (to_string n) post
        (digits-Lacks b'\r' (to_string n) (unfold is_digit in refl) (to_string-digits n)))

value_text :
    (pre post : Bytes) (n : ℕ)
    → substr
        (pre ++ (to_string n ++ post))
        (length pre)
        (length pre + length (to_string n) - length pre)
      ≡ to_string n
value_text pre post n = rw drop-length (
    ap (λ (k : ℕ). take k (to_string n ++ post)) {y = length (to_string n)} (omega arith)
    ∙ take-length (to_string n) post)

-- From the start of the value, the number is read to the end of the line.
pub check_number :
    (pre post : Bytes) (n headers_end : ℕ)
    → n < u64_mod
    → check_length (pre ++ (to_string n ++ (crlf ++ post))) headers_end (length pre)
      ≡ leb n (length (pre ++ (to_string n ++ (crlf ++ post))) - (headers_end + 4))
unfolding check_length body_complete
check_number pre post n headers_end small =
    rw (line_end pre post n, check_length)
      (rw (value_text pre (crlf ++ post) n, stoull-to_string n small) refl)

pub past_name : (s : Bytes) → drop 15 (codes "Content-Length: " ++ s) ≡ b' ' ∷ s
unfolding drop
past_name s = refl
