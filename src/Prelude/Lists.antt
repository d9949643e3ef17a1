-- ===== src/Prelude/Lists.antt =====
-- Lists measured and cut by native numbers, under the library's names.
use Prim.Native.Nat.{ℕ, zero, suc, ◌+◌, ◌-◌, ◌≤◌, min}
use Prim.Native.Nat.add
use fion.Prelude.Tests.{some-eq}
use mathlib.Core.Path.{◌≡◌, refl, ap, subst}
use mathlib.Core.List.{List, [], ◌∷◌, ◌++◌, map}
use mathlib.Core.Option.{Option, none, some}
use native.Mathlib.Omega.{arith}

module _ {ℓ} {A : Type ℓ} where
  abbrev pub length : List A → ℕ
  length [] = 0
  length (x ∷ xs) = suc (length xs)

  abbrev pub get_elem? : List A → ℕ → Option A
  get_elem? [] i = none
  get_elem? (x ∷ xs) zero = some x
  get_elem? (x ∷ xs) (suc i) = get_elem? xs i

  unfoldable pub take : ℕ → List A → List A
  take zero xs = []
  take (suc n) [] = []
  take (suc n) (x ∷ xs) = x ∷ take n xs

  unfoldable pub drop : ℕ → List A → List A
  drop zero xs = xs
  drop (suc n) [] = []
  drop (suc n) (x ∷ xs) = drop n xs

  pub length-append : (xs ys : List A) → length (xs ++ ys) ≡ length xs + length ys
  length-append [] ys = omega arith
  length-append (x ∷ xs) ys = omega (arith, length-append xs ys)

  pub drop-zero : (xs : List A) → drop 0 xs ≡ xs
  unfolding drop
  drop-zero xs = refl

  pub take-length : (xs ys : List A) → take (length xs) (xs ++ ys) ≡ xs
  unfolding take
  take-length [] ys = refl
  take-length (x ∷ xs) ys = ap (◌∷◌ x) (take-length xs ys)

  pub take_all : (xs : List A) → take (length xs) xs ≡ xs
  unfolding take
  take_all [] = refl
  take_all (x ∷ xs) = ap (◌∷◌ x) (take_all xs)

  pub take_of_length-le : (n : ℕ) (l : List A) → length l ≤ n → take n l ≡ l
  unfolding take
  take_of_length-le (suc k) (c ∷ l) short = ap (λ r. c ∷ r) (take_of_length-le k l (omega arith))
  take_of_length-le (suc k) [] short = refl
  take_of_length-le zero (c ∷ l) short = absurd (omega arith)
  take_of_length-le zero [] short = refl

  pub drop-length : (xs ys : List A) → drop (length xs) (xs ++ ys) ≡ ys
  unfolding drop
  drop-length [] ys = refl
  drop-length (x ∷ xs) ys = drop-length xs ys

  pub drop_all : (xs : List A) → drop (length xs) xs ≡ []
  unfolding drop
  drop_all [] = refl
  drop_all (x ∷ xs) = drop_all xs

  -- The form that a cut behind a found separator has.
  pub drop-length-add : (n : ℕ) (xs ys : List A) → drop (length xs + n) (xs ++ ys) ≡ drop n ys
  unfolding drop
  drop-length-add n [] ys = rw add.zero
  drop-length-add n (x ∷ xs) ys = rw add.suc (drop-length-add n xs ys)

  pub drop-add : (n m : ℕ) (xs : List A) → drop (n + m) xs ≡ drop m (drop n xs)
  unfolding drop
  drop-add zero m xs = rw add.zero
  drop-add (suc n) zero [] = rw add.suc
  drop-add (suc n) (suc m) [] = rw add.suc
  drop-add (suc n) m (x ∷ xs) = rw add.suc (drop-add n m xs)

  pub length-take : (n : ℕ) (xs : List A) → length (take n xs) ≡ min n (length xs)
  unfolding take
  length-take zero xs = omega arith
  length-take (suc n) [] = omega arith
  length-take (suc n) (x ∷ xs) = omega (arith, length-take n xs)

  pub length-drop : (n : ℕ) (xs : List A) → length (drop n xs) ≡ length xs - n
  unfolding drop
  length-drop zero xs = omega arith
  length-drop (suc n) [] = omega arith
  length-drop (suc n) (x ∷ xs) = omega (arith, length-drop n xs)

  pub take-append-drop : (n : ℕ) (xs : List A) → take n xs ++ drop n xs ≡ xs
  unfolding take drop
  take-append-drop zero xs = refl
  take-append-drop (suc n) [] = refl
  take-append-drop (suc n) (x ∷ xs) = ap (◌∷◌ x) (take-append-drop n xs)

  -- The function `f` on every element, from the left (`for (x : xs) acc = f(acc, x)`).
  abbrev pub foldl {κ} : {B : Type κ} → (B → A → B) → B → List A → B
  foldl f b [] = b
  foldl f b (x ∷ xs) = foldl f (f b x) xs

  pub foldl-append {κ} :
      {B : Type κ} (f : B → A → B) (b : B) (xs ys : List A)
      → foldl f b (xs ++ ys) ≡ foldl f (foldl f b xs) ys
  foldl-append f b [] ys = refl
  foldl-append f b (x ∷ xs) ys = foldl-append f (f b x) xs ys

  abbrev pub All {κ} : (A → Type κ) → List A → Type κ
  All P [] = Unit
  All P (x ∷ xs) = P x × All P xs

  pub All-snoc {κ} :
      (P : A → Type κ) (xs : List A) {x : A} → All P xs → P x → All P (xs ++ (x ∷ []))
  All-snoc P [] all here = (here, tt)
  All-snoc P (y ∷ xs) (first, all) here = (first, All-snoc P xs all here)

  pub All-get {κ} :
      (P : A → Type κ) (xs : List A) (i : ℕ) {x : A} → All P xs → get_elem? xs i ≡ some x → P x
  All-get P [] i all found = cc found
  All-get P (y ∷ xs) zero (first, all) found = subst P (some-eq found) first
  All-get P (y ∷ xs) (suc i) (first, all) found = All-get P xs i all found

module _ {ℓ κ} {A : Type ℓ} {B : Type κ} where
  pub All-map {υ} :
      (P : B → Type υ) (f : A → B) → ((x : A) → P (f x)) → (xs : List A) → All P (map f xs)
  All-map P f h [] = tt
  All-map P f h (x ∷ xs) = (h x, All-map P f h xs)

  pub length-map : (f : A → B) (xs : List A) → length (map f xs) ≡ length xs
  length-map f [] = refl
  length-map f (x ∷ xs) = omega (arith, length-map f xs)
