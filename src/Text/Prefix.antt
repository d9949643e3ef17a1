-- ===== src/Text/Prefix.antt =====
-- Where a text stands in the beginning of another text.
use fion.Prelude.{
  ℕ, ◌+◌, ◌<◌, ◌≤◌, true, none, some, [], ◌∷◌, ◌++◌, ◌≡◌, refl, sym, ◌∙◌, arith, length,
  Option-cases, some-eq, inl, inr,
}
use fion.Text.{Bytes, starts_with, find_text}

starts_with-length : (p s : Bytes) → starts_with p s ≡ true → length p ≤ length s
unfolding starts_with
starts_with-length [] s h = omega arith
starts_with-length (x ∷ p) [] h = cc h
starts_with-length (x ∷ p) (y ∷ s) h = ground (arith, starts_with-length p s)

starts_with-append :
    (p s r : Bytes) → length p ≤ length s → starts_with p (s ++ r) ≡ starts_with p s
unfolding starts_with
starts_with-append [] s r h = refl
starts_with-append (x ∷ p) [] r h = absurd (omega arith)
starts_with-append (x ∷ p) (y ∷ s) r h = ground (arith, starts_with-append p s r)

find_text-length : (p s : Bytes) (j : ℕ) → find_text p s ≡ some j → j + length p ≤ length s
unfolding find_text
find_text-length p [] j h = ground (arith, starts_with-length p [])
find_text-length p (x ∷ s) j h = elim (Option-cases (find_text p s)) [
  | inl missing ↦ ground (arith, h, missing, starts_with-length p (x ∷ s))
  | inr (k, found) ↦
      ground (arith, h, found, starts_with-length p (x ∷ s), find_text-length p s k found)
]

find_text-grow : (p s r : Bytes) (j : ℕ) → find_text p s ≡ some j → find_text p (s ++ r) ≡ some j
unfolding find_text
find_text-grow p [] [] j h = h
find_text-grow p [] (y ∷ r) j h =
    ground (arith, h, starts_with-length p [], starts_with-append p [] (y ∷ r))
find_text-grow p (x ∷ s) r j h = elim (Option-cases (find_text p s)) [
  | inl missing ↦
      ground (arith, h, missing, starts_with-length p (x ∷ s), starts_with-append p (x ∷ s) r)
  | inr (k, found) ↦ ground (
    arith,
    h,
    found,
    find_text-length p s k found,
    starts_with-append p (x ∷ s) r,
    find_text-grow p s r k found,
  )
]

-- A text that is found only behind the end of the beginning is not in the beginning.
pub find_text-early :
    (p s r : Bytes) (i : ℕ)
    → find_text p (s ++ r) ≡ some i
    → length s < i + length p
    → find_text p s ≡ none
find_text-early p s r i h short = elim (Option-cases (find_text p s)) [
  | inl missing ↦ missing
  | inr (j, found) ↦
      let same : i ≡ j = some-eq (sym h ∙ find_text-grow p s r j found) in
      absurd (omega (arith, find_text-length p s j found, same, short))
]

-- What a beginning that is long enough begins with.
pub split_beginning :
    (u body s r : Bytes)
    → u ++ body ≡ s ++ r
    → length u ≤ length s
    → (b : Bytes) × (s ≡ u ++ b) × (body ≡ b ++ r)
split_beginning [] body s r e h = (s, refl, e)
split_beginning (x ∷ u) body [] r e h = absurd (omega arith)
split_beginning (x ∷ u) body (y ∷ s) r e h =
    let (b, same, rest) = split_beginning u body s r (cc e) (omega arith) in (b, cc (e, same), rest)
