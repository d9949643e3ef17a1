-- ===== src/Text/Lines.antt =====
-- `get_lines` cuts at every delimiter, and only there.
use fion.Prelude.{refl, false, ℕ, List, [], ◌∷◌, ◌++◌, ◌≡◌, arith, Bool-cases, inl, inr, ◌==◌, All}
use fion.Text.{Bytes, get_lines, push_byte}
use fion.Text.Find.{Lacks, Lacks-head, Lacks-tail, Lacks-cons, Lacks-nil}

pub get_lines-nil : (d : ℕ) → get_lines d [] ≡ []
unfolding get_lines
get_lines-nil d = refl

pub get_lines-append :
    (d : ℕ) (l s : Bytes) → Lacks d l → get_lines d (l ++ (d ∷ s)) ≡ l ∷ get_lines d s
unfolding get_lines
get_lines-append d [] s h = ground arith
get_lines-append d (c ∷ l) s h =
    ground (arith, Lacks-head d c l h, get_lines-append d l s (Lacks-tail d c l h))

pub get_lines_last :
    (d : ℕ) (c : ℕ) (l : Bytes) → Lacks d (c ∷ l) → get_lines d (c ∷ l) ≡ (c ∷ l) ∷ []
unfolding get_lines
get_lines_last d c [] h = ground (arith, Lacks-head d c [] h)
get_lines_last d c (x ∷ l) h =
    ground (arith, Lacks-head d c (x ∷ l) h, get_lines_last d x l (Lacks-tail d c (x ∷ l) h))

push_byte-Lacks :
    (d c : ℕ) (ls : List Bytes)
    → (c == d) ≡ false
    → All (Lacks d) ls
    → All (Lacks d) (push_byte c ls)
unfolding push_byte
push_byte-Lacks d c [] m h = (Lacks-cons d c [] (ground arith) (Lacks-nil d), tt)
push_byte-Lacks d c (l ∷ ls) m h = (Lacks-cons d c l (ground arith) h.0, h.1)

-- No line holds the delimiter.
pub get_lines-Lacks : (d : ℕ) (s : Bytes) → All (Lacks d) (get_lines d s)
unfolding get_lines
get_lines-Lacks d [] = tt
get_lines-Lacks d (c ∷ s) = elim (Bool-cases (c == d)) [
  | inl hit ↦ rw hit (Lacks-nil d, get_lines-Lacks d s)
  | inr miss ↦ rw miss (push_byte-Lacks d c (get_lines d s) miss (get_lines-Lacks d s))
]
