-- ===== src/Text/Decimal.antt =====
-- Printed numbers are read back: the digits denote the number, and the readers accept them.
use fion.Prelude.{
  ℕ, zero, suc, ◌+◌, ◌-◌, ◌*◌, ◌/◌, ◌%◌, ◌<◌, Bool, true, false, some, [], ◌∷◌, ◌≡◌, refl, sym, ◌∙◌,
  ap, arith, Bool-cases, inl, inr, ◌==◌, ltb, leb, ltb→lt, foldl, if◌then◌else◌,
}
use fion.Prelude.Results.{Exception, ok, err}
use fion.Prelude.Int.{pos}
use fion.Text.{
  find_byte, codes, Bytes, number_of, digits_onto, to_string, is_digit, is_space, all_of,
  drop_while, scan_digits, scan_sign, scan_number, stoi, stoi_of, in_int_range, stoull, stoull_of,
  u64_mod,
}
use fion.Text.Find.{Lacks}
use fion.Text.Spans.{take_while_all}

abbrev step : ℕ → ℕ → ℕ
step n c = n * 10 + (c - b'0')

foldl_from : (m n : ℕ) (s : Bytes) → m ≡ n → foldl step m s ≡ foldl step n s
foldl_from m n s e = ap (λ (k : ℕ). foldl step k s) e

tenth-lt : (f n : ℕ) → n < suc f → ltb n 10 ≡ false → n / 10 < f
tenth-lt f n h big = ground arith

-- With more fuel than the number, the digits in front of `acc` denote it.
digits_onto-number :
    (f n : ℕ) (acc : Bytes) → n < f → foldl step 0 (digits_onto f n acc) ≡ foldl step n acc
unfolding digits_onto
digits_onto-number zero n acc h = absurd (omega arith)
digits_onto-number (suc f) n acc h = elim (Bool-cases (ltb n 10)) [
  | inl small ↦ rw small (foldl_from (step 0 (b'0' + n)) n acc (omega arith))
  | inr big ↦ rw big (
      digits_onto-number f (n / 10) ((b'0' + n % 10) ∷ acc) (tenth-lt f n h big)
      ∙ foldl_from (step (n / 10) (b'0' + n % 10)) n acc (omega arith))
]

pub number_of-to_string : (n : ℕ) → number_of (to_string n) ≡ n
unfolding to_string
number_of-to_string n = digits_onto-number (suc n) n [] (omega arith)

digit_is_digit : (k : ℕ) → k < 10 → is_digit (b'0' + k) ≡ true
unfolding is_digit
digit_is_digit k h = ground arith

all_of-cons :
    (p : ℕ → Bool) (c : ℕ) (s : Bytes) → p c ≡ true → all_of p s ≡ true → all_of p (c ∷ s) ≡ true
unfolding all_of
all_of-cons p c s h k = rw (h, k)

digits_onto-digits :
    (f n : ℕ) (acc : Bytes)
    → all_of is_digit acc ≡ true
    → all_of is_digit (digits_onto f n acc) ≡ true
unfolding digits_onto
digits_onto-digits zero n acc h = h
digits_onto-digits (suc f) n acc h = elim (Bool-cases (ltb n 10)) [
  | inl small ↦ rw small (all_of-cons is_digit _ acc (digit_is_digit n (ltb→lt n 10 small)) h)
  | inr big ↦ rw big (
      digits_onto-digits f (n / 10) _
        (all_of-cons is_digit _ acc (digit_is_digit (n % 10) (omega arith)) h))
]

pub to_string-digits : (n : ℕ) → all_of is_digit (to_string n) ≡ true
unfolding to_string all_of
to_string-digits n = digits_onto-digits (suc n) n [] refl

digits_onto-cons :
    (f n c : ℕ) (acc : Bytes) → (d : ℕ) × (s : Bytes) × (digits_onto f n (c ∷ acc) ≡ d ∷ s)
unfolding digits_onto
digits_onto-cons zero n c acc = (c, acc, refl)
digits_onto-cons (suc f) n c acc = elim (Bool-cases (ltb n 10)) [
  | inl small ↦ (b'0' + n, c ∷ acc, rw small)
  | inr big ↦
      let (d, s, e) = digits_onto-cons f (n / 10) (b'0' + n % 10) (c ∷ acc) in (d, s, rw big e)
]

-- A printed number has a digit.
pub to_string-cons : (n : ℕ) → (d : ℕ) × (s : Bytes) × (to_string n ≡ d ∷ s)
unfolding to_string digits_onto
to_string-cons n = elim (Bool-cases (ltb n 10)) [
  | inl small ↦ (b'0' + n, [], rw small)
  | inr big ↦ let (d, s, e) = digits_onto-cons n (n / 10) (b'0' + n % 10) [] in (d, s, rw big e)
]

digit_not_space : (c : ℕ) → is_digit c ≡ true → is_space c ≡ false
unfolding is_digit is_space
digit_not_space c h = ground arith

digit_not_sign : (c : ℕ) → is_digit c ≡ true → ((c == b'-') ≡ false) × ((c == b'+') ≡ false)
unfolding is_digit
digit_not_sign c h = (ground arith, ground arith)

all_of-head : (p : ℕ → Bool) (c : ℕ) (s : Bytes) → all_of p (c ∷ s) ≡ true → p c ≡ true
unfolding all_of
all_of-head p c s h = ground arith

scan_sign-digits :
    (c : ℕ) (s : Bytes)
    → all_of is_digit (c ∷ s) ≡ true
    → scan_sign (c ∷ s) ≡ some (false, number_of (c ∷ s))
unfolding scan_sign scan_digits
scan_sign-digits c s h =
    let (not_minus, not_plus) = digit_not_sign c (all_of-head is_digit c s h) in
    rw (not_minus, not_plus, take_while_all is_digit (c ∷ s) h)

drop_while_space : (c : ℕ) (s : Bytes) → is_space c ≡ false → drop_while is_space (c ∷ s) ≡ c ∷ s
unfolding drop_while
drop_while_space c s h = rw h

-- A row of digits is read whole, with no sign.
pub scan_number-digits :
    (c : ℕ) (s : Bytes)
    → all_of is_digit (c ∷ s) ≡ true
    → scan_number (c ∷ s) ≡ some (false, number_of (c ∷ s))
scan_number-digits c s h =
    unfold_scan (c ∷ s)
    ∙ ap scan_sign (drop_while_space c s (digit_not_space c (all_of-head is_digit c s h)))
    ∙ scan_sign-digits c s h
  where
    unfold_scan : (t : Bytes) → scan_number t ≡ scan_sign (drop_while is_space t)
    unfold_scan t = unfold scan_number in refl

pub stoi-digits :
    (c : ℕ) (s : Bytes)
    → all_of is_digit (c ∷ s) ≡ true
    → stoi (c ∷ s) ≡ (
        if ltb (number_of (c ∷ s)) 2147483648
        then ok (pos (number_of (c ∷ s)))
        else err (Exception.out_of_range (codes "stoi")))
unfolding stoi_of in_int_range
stoi-digits c s h = unfold_stoi (c ∷ s) ∙ ap stoi_of (scan_number-digits c s h)
  where
    unfold_stoi : (t : Bytes) → stoi t ≡ stoi_of (scan_number t)
    unfold_stoi t = unfold stoi in refl

pub stoull-digits :
    (c : ℕ) (s : Bytes)
    → all_of is_digit (c ∷ s) ≡ true
    → stoull (c ∷ s) ≡ (
        if leb u64_mod (number_of (c ∷ s))
        then err (Exception.out_of_range (codes "stoull"))
        else ok (number_of (c ∷ s)))
unfolding stoull_of
stoull-digits c s h = unfold_stoull (c ∷ s) ∙ ap stoull_of (scan_number-digits c s h)
  where
    unfold_stoull : (t : Bytes) → stoull t ≡ stoull_of (scan_number t)
    unfold_stoull t = unfold stoull in refl

-- A printed number below 2 ^ 64 is read back.
pub stoull-to_string : (n : ℕ) → n < u64_mod → stoull (to_string n) ≡ ok n
stoull-to_string n h =
    let (d, s, e) = to_string-cons n in
    ap stoull e
    ∙ stoull-digits d s (ap (all_of is_digit) (sym e) ∙ to_string-digits n)
    ∙ ap (λ k. if leb u64_mod k then err (Exception.out_of_range (codes "stoull")) else ok k)
        (ap number_of (sym e) ∙ number_of-to_string n)
    ∙ ground arith

-- A digit is none of the other bytes.
pub digits-Lacks : (c : ℕ) (s : Bytes) → is_digit c ≡ false → all_of is_digit s ≡ true → Lacks c s
unfolding all_of find_byte
digits-Lacks c [] h k = refl
digits-Lacks c (x ∷ s) h k = ground (arith, digits-Lacks c s h)
