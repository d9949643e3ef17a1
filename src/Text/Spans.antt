-- ===== src/Text/Spans.antt =====
-- Runs of bytes that pass a test, and the words of a stream.
use fion.Prelude.{ℕ, Bool, true, false, not, [], ◌∷◌, ◌++◌, ◌≡◌, refl, ◌≢◌, arith}
use fion.Text.{Bytes, take_while, drop_while, all_of, is_space, next_word}

pub take_while_all : (p : ℕ → Bool) (s : Bytes) → all_of p s ≡ true → take_while p s ≡ s
unfolding take_while all_of
take_while_all p [] h = refl
take_while_all p (c ∷ s) h = ground (arith, take_while_all p s)

pub take_while-append :
    (p : ℕ → Bool) (s : Bytes) (c : ℕ) (t : Bytes)
    → all_of p s ≡ true
    → p c ≡ false
    → take_while p (s ++ (c ∷ t)) ≡ s
unfolding take_while all_of
take_while-append p [] c t h k = ground arith
take_while-append p (x ∷ s) c t h k = ground (arith, take_while-append p s c t)

pub drop_while-append :
    (p : ℕ → Bool) (s : Bytes) (c : ℕ) (t : Bytes)
    → all_of p s ≡ true
    → p c ≡ false
    → drop_while p (s ++ (c ∷ t)) ≡ c ∷ t
unfolding drop_while all_of
drop_while-append p [] c t h k = ground arith
drop_while-append p (x ∷ s) c t h k = ground (arith, drop_while-append p s c t)

pub drop_while_all : (p : ℕ → Bool) (s : Bytes) → all_of p s ≡ true → drop_while p s ≡ []
unfolding drop_while all_of
drop_while_all p [] h = refl
drop_while_all p (c ∷ s) h = ground (arith, drop_while_all p s)

-- A text with no white space in it.
abbrev pub IsWord : Bytes → Type 0
IsWord s = (s ≢ []) × (all_of (λ c. not (is_space c)) s ≡ true)

-- A run that a test stops at once is empty.
drop_while_stop : (p : ℕ → Bool) (c : ℕ) (s : Bytes) → p c ≡ false → drop_while p (c ∷ s) ≡ c ∷ s
unfolding drop_while
drop_while_stop p c s h = rw h

head_not_space :
    (c : ℕ) (s : Bytes) → all_of (λ x. not (is_space x)) (c ∷ s) ≡ true → is_space c ≡ false
unfolding all_of
head_not_space c s h = ground arith

pub next_word-append :
    (w : Bytes) (c : ℕ) (t : Bytes)
    → IsWord w
    → is_space c ≡ true
    → next_word (w ++ (c ∷ t)) ≡ (w, c ∷ t)
unfolding next_word
next_word-append [] c t h k = absurd (h.0 refl)
next_word-append (x ∷ w) c t h k = rw (
  drop_while_stop is_space x (w ++ (c ∷ t)) (head_not_space x w h.1),
  take_while-append (λ y. not (is_space y)) (x ∷ w) c t h.1 (rw k),
  drop_while-append (λ y. not (is_space y)) (x ∷ w) c t h.1 (rw k),
)

pub next_word_all : (w : Bytes) → IsWord w → next_word w ≡ (w, [])
unfolding next_word
next_word_all [] h = absurd (h.0 refl)
next_word_all (x ∷ w) h = rw (
  drop_while_stop is_space x w (head_not_space x w h.1),
  take_while_all (λ y. not (is_space y)) (x ∷ w) h.1,
  drop_while_all (λ y. not (is_space y)) (x ∷ w) h.1,
)

pub next_word_skip : (c : ℕ) (s : Bytes) → is_space c ≡ true → next_word (c ∷ s) ≡ next_word s
unfolding next_word drop_while
next_word_skip c s h = rw h
