-- ===== src/Text/Find.antt =====
-- A search splits the text at the first occurrence, or shows that there is none.
use mathlib.Core.Option
use fion.Prelude.{
  take, take-length, drop-length-add, subst, ◌∙◌, append_assoc, ℕ, suc, ◌+◌, ◌≤◌, ◌⊎◌, false, true,
  length-append, none, some, [], ◌∷◌, ◌++◌, ◌≡◌, refl, ap, inl, inr, ◌≢◌, arith, ◌==◌, Bool-cases,
  length, drop, drop-length,
}
use fion.Text.{Bytes, find_byte, find_byte_from, find_text, rfind_byte, starts_with}
use fion.Text.Equal.{starts_with-eq_true, starts_with-append}

-- The byte does not occur; the text does not occur.
abbrev pub Lacks : ℕ → Bytes → Type 0
Lacks c s = find_byte c s ≡ none

abbrev pub LacksText : Bytes → Bytes → Type 0
LacksText p s = find_text p s ≡ none

pub data Cut (c : ℕ) (s : Bytes) : Type 0 where
  absent : Lacks c s → Cut c s
  cut : (a b : Bytes) → s ≡ a ++ (c ∷ b) → Lacks c a → find_byte c s ≡ some (length a) → Cut c s

pub find_byte-Cut : (c : ℕ) (s : Bytes) → Cut c s
unfolding find_byte
find_byte-Cut c [] = absent refl
find_byte-Cut c (x ∷ s) = elim (Bool-cases (x == c)) [
  | inl hit ↦ cut [] s (ground arith) refl (rw hit)
  | inr miss ↦ elim (find_byte-Cut c s) [
    | absent h ↦ absent (rw (miss, h))
    | cut a b e free f ↦ cut (x ∷ a) b (ap (◌∷◌ x) e) (rw (miss, free)) (rw (miss, f))
  ]
]

-- The first occurrence of a byte behind a text that lacks it.
pub find_byte-append :
    (c : ℕ) (a b : Bytes) → Lacks c a → find_byte c (a ++ (c ∷ b)) ≡ some (length a)
unfolding find_byte
find_byte-append c [] b h = ground arith
find_byte-append c (x ∷ a) b h = ground (arith, find_byte-append c a b)

pub Lacks-append : (c : ℕ) (a b : Bytes) → Lacks c a → Lacks c b → Lacks c (a ++ b)
unfolding find_byte
Lacks-append c [] b ha hb = hb
Lacks-append c (x ∷ a) b ha hb = ground (arith, Lacks-append c a b)

pub Lacks-left : (c : ℕ) (a b : Bytes) → Lacks c (a ++ b) → Lacks c a
unfolding find_byte
Lacks-left c [] b h = refl
Lacks-left c (x ∷ a) b h = ground (arith, Lacks-left c a b)

pub Lacks-right : (c : ℕ) (a b : Bytes) → Lacks c (a ++ b) → Lacks c b
unfolding find_byte
Lacks-right c [] b h = h
Lacks-right c (x ∷ a) b h = Lacks-right c a b (ground arith)

pub Lacks-nil : (c : ℕ) → Lacks c []
unfolding find_byte
Lacks-nil c = refl

pub Lacks-cons : (c x : ℕ) (s : Bytes) → x ≢ c → Lacks c s → Lacks c (x ∷ s)
unfolding find_byte
Lacks-cons c x s ne h = ground arith

pub Lacks-head : (c x : ℕ) (s : Bytes) → Lacks c (x ∷ s) → x ≢ c
unfolding find_byte
Lacks-head c x s h = ground arith

pub Lacks-tail : (c x : ℕ) (s : Bytes) → Lacks c (x ∷ s) → Lacks c s
unfolding find_byte
Lacks-tail c x s h = ground arith

pub Lacks-drop : (c n : ℕ) (s : Bytes) → Lacks c s → Lacks c (drop n s)
unfolding drop
Lacks-drop c ℕ.zero s h = h
Lacks-drop c (suc n) [] h = h
Lacks-drop c (suc n) (x ∷ s) h = Lacks-drop c n s (Lacks-tail c x s h)

-- `find(c, pos)` behind a text of length `pos`.
pub find_byte_from-append :
    (c : ℕ) (u s : Bytes)
    → find_byte_from c (u ++ s) (length u) ≡ Option.map (λ i. length u + i) (find_byte c s)
unfolding find_byte_from
find_byte_from-append c u s = rw (drop-length u s)

-- The same for texts.
pub data CutText (p s : Bytes) : Type 0 where
  absent : LacksText p s → CutText p s
  cut : (a b : Bytes) → s ≡ a ++ (p ++ b) → find_text p s ≡ some (length a) → CutText p s

pub find_text-CutText : (p s : Bytes) → CutText p s
unfolding find_text
find_text-CutText p [] = elim (Bool-cases (starts_with p [])) [
  | inl hit ↦ let (t, e) = starts_with-eq_true p [] hit in CutText.cut [] t e (rw hit)
  | inr miss ↦ CutText.absent (rw miss)
]
find_text-CutText p (x ∷ s) = elim (Bool-cases (starts_with p (x ∷ s))) [
  | inl hit ↦ let (t, e) = starts_with-eq_true p (x ∷ s) hit in CutText.cut [] t e (rw hit)
  | inr miss ↦ elim (find_text-CutText p s) [
    | CutText.absent h ↦ CutText.absent (rw (miss, h))
    | CutText.cut a b e f ↦ CutText.cut (x ∷ a) b (ap (◌∷◌ x) e) (rw (miss, f))
  ]
]

starts_with_longer :
    (p t u : Bytes) → length p ≤ length t → starts_with p t ≡ false → starts_with p (t ++ u) ≡ false
unfolding starts_with
starts_with_longer [] t u h e = cc
starts_with_longer (x ∷ p) [] u h e = absurd (omega arith)
starts_with_longer (x ∷ p) (y ∷ t) u h e = ground (arith, starts_with_longer p t u)

find_text_self : (p b : Bytes) → find_text p (p ++ b) ≡ some 0
unfolding find_text starts_with
find_text_self [] [] = refl
find_text_self [] (x ∷ b) = refl
find_text_self (x ∷ p) b = rw (starts_with-append (x ∷ p) b)

found_lacks : (p : Bytes) (x : ℕ) (s : Bytes) → starts_with p (x ∷ s) ≡ true → ¬ LacksText p (x ∷ s)
unfolding find_text
found_lacks p x s hit h = ground arith

lacks_later :
    (p : Bytes) (x : ℕ) (s : Bytes)
    → starts_with p (x ∷ s) ≡ false
    → LacksText p (x ∷ s)
    → LacksText p s
unfolding find_text
lacks_later p x s miss h = ground arith

found_later :
    (p : Bytes) (x : ℕ) (s : Bytes) {n : ℕ}
    → starts_with p (x ∷ s) ≡ false
    → find_text p s ≡ some n
    → find_text p (x ∷ s) ≡ some (suc n)
unfolding find_text
found_later p x s miss h = ground arith

-- The first occurrence of a text `q c` behind a text that, with `q` behind it, lacks it.
pub find_text-append :
    (p q : Bytes) (c : ℕ) (a b : Bytes)
    → p ≡ q ++ (c ∷ [])
    → LacksText p (a ++ q)
    → find_text p (a ++ (q ++ (c ∷ b))) ≡ some (length a)
find_text-append p q c [] b e h =
    subst (λ s. find_text p s ≡ some 0) (ap (λ s. s ++ b) e ∙ append_assoc q (c ∷ []) b)
      (find_text_self p b)
find_text-append p q c (x ∷ a) b e h =
    step (find_text-append p q c a b e) (Bool-cases (starts_with p (x ∷ (a ++ q))))
  where
    enough : length p ≤ length (x ∷ (a ++ q))
    enough = omega (arith, ap length e, length-append q (c ∷ []), length-append a q)

    later : starts_with p (x ∷ (a ++ q)) ≡ false → starts_with p (x ∷ (a ++ (q ++ (c ∷ b)))) ≡ false
    later miss =
        subst (λ s. starts_with p (x ∷ s) ≡ false) (append_assoc a q (c ∷ b))
          (starts_with_longer p (x ∷ (a ++ q)) (c ∷ b) enough miss)

    step :
        (LacksText p (a ++ q) → find_text p (a ++ (q ++ (c ∷ b))) ≡ some (length a))
        → (starts_with p (x ∷ (a ++ q)) ≡ true) ⊎ (starts_with p (x ∷ (a ++ q)) ≡ false)
        → find_text p (x ∷ (a ++ (q ++ (c ∷ b)))) ≡ some (suc (length a))
    step rest (inl hit) = absurd (found_lacks p x (a ++ q) hit h)
    step rest (inr miss) = found_later p x _ (later miss) (rest (lacks_later p x (a ++ q) miss h))

-- The cuts before and behind a found byte, with a text `pre` that the search passed over.
pub take_found :
    (pre a : Bytes) (c : ℕ) (b : Bytes)
    → take (length pre + length a) (pre ++ (a ++ (c ∷ b))) ≡ pre ++ a
take_found pre a c b =
    rw (← length-append pre a, ← append_assoc pre a (c ∷ b)) (take-length (pre ++ a) (c ∷ b))

pub drop_found :
    (pre a : Bytes) (c : ℕ) (b : Bytes)
    → drop (length pre + length a + 1) (pre ++ (a ++ (c ∷ b))) ≡ b
unfolding drop
drop_found pre a c b =
    rw (← length-append pre a, ← append_assoc pre a (c ∷ b)) (drop-length-add 1 (pre ++ a) (c ∷ b))

pub Lacks-take : (c n : ℕ) (s : Bytes) → Lacks c s → Lacks c (take n s)
unfolding take
Lacks-take c ℕ.zero s h = Lacks-nil c
Lacks-take c (suc n) [] h = h
Lacks-take c (suc n) (x ∷ s) h =
    Lacks-cons c x (take n s) (Lacks-head c x s h) (Lacks-take c n s (Lacks-tail c x s h))

pub rfind_byte_absent : (c : ℕ) (s : Bytes) → Lacks c s → rfind_byte c s ≡ none
unfolding rfind_byte
rfind_byte_absent c [] h = refl
rfind_byte_absent c (x ∷ s) h =
    ground (arith, rfind_byte_absent c s (Lacks-tail c x s h), Lacks-head c x s h)

-- The last place of a byte, with a text behind it that lacks it.
pub rfind_byte-append :
    (c : ℕ) (a b : Bytes) → Lacks c b → rfind_byte c (a ++ (c ∷ b)) ≡ some (length a)
unfolding rfind_byte
rfind_byte-append c [] b h = ground (arith, rfind_byte_absent c b h)
rfind_byte-append c (x ∷ a) b h = ground (arith, rfind_byte-append c a b h)
