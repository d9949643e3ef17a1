-- ===== src/Prelude/Results.antt =====
-- Outcomes of code that may throw. The constructors of `Exception` are the classes of
-- `std::exception` that the program throws or lets through, each with its `what()`.
use mathlib.Core.Path.{◌≡◌, refl}
use mathlib.Core.List.{List}
use mathlib.Core.Logic.{◌⊎◌, inl, inr}
use Prim.Native.Nat.{ℕ}

pub data Exception : Type 0 where
  invalid_argument out_of_range runtime_error regex_error : List ℕ → Exception

pub data Result {ℓ} (A : Type ℓ) : Type ℓ where
  ok : A → Result A
  err : Exception → Result A

infixl 5 ◌>>=◌
abbrev pub ◌>>=◌ {ℓ κ} : {A : Type ℓ} {B : Type κ} → Result A → (A → Result B) → Result B
ok a >>= f = f a
err e >>= f = err e

-- `try { m } catch (const std::invalid_argument &) { throw std::invalid_argument(message); }`
abbrev pub rethrow_invalid {ℓ} : {A : Type ℓ} → List ℕ → Result A → Result A
rethrow_invalid message (ok a) = ok a
rethrow_invalid message (err (Exception.invalid_argument _)) =
    err (Exception.invalid_argument message)
rethrow_invalid message (err (Exception.out_of_range m)) = err (Exception.out_of_range m)
rethrow_invalid message (err (Exception.runtime_error m)) = err (Exception.runtime_error m)
rethrow_invalid message (err (Exception.regex_error m)) = err (Exception.regex_error m)

pub Result-cases {ℓ} :
    {A : Type ℓ} (m : Result A) → ((a : A) × (m ≡ ok a)) ⊎ ((e : Exception) × (m ≡ err e))
Result-cases (ok a) = inl (a, refl)
Result-cases (err e) = inr (e, refl)

-- A chain that succeeds has a first result, from which the rest succeeds.
pub >>=-eq-ok {ℓ κ} :
    {A : Type ℓ} {B : Type κ} (first : Result A) (rest : A → Result B) {y : B}
    → (first >>= rest) ≡ ok y
    → (x : A) × (first ≡ ok x) × (rest x ≡ ok y)
>>=-eq-ok (err e) rest success = cc success
>>=-eq-ok (ok x) rest success = (x, refl, success)
