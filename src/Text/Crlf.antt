-- ===== src/Text/Crlf.antt =====
-- Heads of messages: lines that end in "\r\n", and the blank line behind them.
use fion.Prelude.{
  ℕ, suc, ◌+◌, some, List, [], ◌∷◌, ◌++◌, ◌≡◌, ◌≢◌, refl, ap, ◌∙◌, arith, length, length-append,
  append_assoc, drop, All, drop-length-add,
}
use fion.Text.{Bytes, codes, find_text, starts_with}
use fion.Text.Find.{Lacks, Lacks-head, Lacks-tail}

abbrev pub crlf : Bytes
crlf = codes "\r\n"

abbrev pub crlf_crlf : Bytes
crlf_crlf = codes "\r\n\r\n"

-- A line of a head: not empty, and with no carriage return.
abbrev pub IsLine : Bytes → Type 0
IsLine l = (l ≢ []) × Lacks b'\r' l

abbrev pub head_text : List Bytes → Bytes
head_text [] = []
head_text (l ∷ ls) = l ++ (crlf ++ head_text ls)

-- A search for a text that begins with '\r' passes over what holds none.
pub find_text_skip :
    (p a s : Bytes) {n : ℕ}
    → Lacks b'\r' a
    → find_text (b'\r' ∷ p) s ≡ some n
    → find_text (b'\r' ∷ p) (a ++ s) ≡ some (length a + n)
unfolding find_text starts_with
find_text_skip p [] s {n} h f = f ∙ ap (λ (k : ℕ). some k) {y = 0 + n} (omega arith)
find_text_skip p (x ∷ a) s h f =
    ground (arith, find_text_skip p a s (Lacks-tail b'\r' x a h) f, Lacks-head b'\r' x a h)

find_crlf : (s : Bytes) → find_text crlf (crlf ++ s) ≡ some 0
unfolding find_text starts_with
find_crlf s = refl

find_crlf_crlf : (s : Bytes) → find_text crlf_crlf (crlf_crlf ++ s) ≡ some 0
unfolding find_text starts_with
find_crlf_crlf s = refl

-- One line end in front of a line is no blank line.
find_past_line :
    (c : ℕ) (t : Bytes) {n : ℕ}
    → c ≢ b'\r'
    → find_text crlf_crlf (c ∷ t) ≡ some n
    → find_text crlf_crlf (crlf ++ (c ∷ t)) ≡ some (suc (suc n))
unfolding find_text starts_with
find_past_line c t h f = ground arith

-- The end of the first line.
pub find_text-crlf :
    (l s : Bytes) → Lacks b'\r' l → find_text crlf (l ++ (crlf ++ s)) ≡ some (length l)
find_text-crlf l s h =
    find_text_skip (codes "\n") l (crlf ++ s) h (find_crlf s) ∙ ap (λ (k : ℕ). some k) (omega arith)

-- The blank line ends the head, wherever a later one stands.
pub find_text-crlf_crlf :
    (l : Bytes) (ls : List Bytes) (rest : Bytes)
    → IsLine l
    → All IsLine ls
    → (i : ℕ) × (find_text crlf_crlf (head_text (l ∷ ls) ++ (crlf ++ rest)) ≡ some i)
      × (i + 2 ≡ length (head_text (l ∷ ls)))
find_text-crlf_crlf l [] rest h hs = (
  length l + 0,
  ap (find_text crlf_crlf) (append_assoc l crlf (crlf ++ rest))
      ∙ find_text_skip (codes "\n\r\n") l (crlf_crlf ++ rest) h.1 (find_crlf_crlf rest),
  omega (arith, length-append l crlf),
)
find_text-crlf_crlf l ([] ∷ ms) rest h hs = absurd (hs.0.0 refl)
find_text-crlf_crlf l ((c ∷ m) ∷ ms) rest h hs =
    let (i, f, e) = find_text-crlf_crlf (c ∷ m) ms rest hs.0 hs.1 in
    (
      length l + suc (suc i),
      ap (find_text crlf_crlf) (append_assoc l (crlf ++ head_text ((c ∷ m) ∷ ms)) (crlf ++ rest))
          ∙ find_text_skip (codes "\n\r\n") l (crlf ++ (head_text ((c ∷ m) ∷ ms) ++ (crlf ++ rest)))
              h.1 (find_past_line c _ (Lacks-head b'\r' c m hs.0.1) f),
      omega (arith, length-append l (crlf ++ head_text ((c ∷ m) ∷ ms)), e),
    )

-- What stands behind the blank line.
pub drop_head :
    (h rest : Bytes) (i : ℕ) → i + 2 ≡ length h → drop (i + 4) (h ++ (crlf ++ rest)) ≡ rest
unfolding drop
drop_head h rest i e =
    ap (λ (k : ℕ). drop k (h ++ (crlf ++ rest))) {x = i + 4} {y = length h + 2} (omega (arith, e))
    ∙ drop-length-add 2 h (crlf ++ rest)
