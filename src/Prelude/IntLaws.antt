-- ===== src/Prelude/IntLaws.antt =====
-- Equality of the values of `int`.
use fion.Prelude.{ℕ, true, ◌≡◌, ◌↔◌, ap, arith}
use fion.Prelude.Int.{ℤ, pos, negsuc, eq_ℤ}

abbrev magnitude : ℤ → ℕ
magnitude (pos n) = n
magnitude (negsuc n) = n

pub eq_ℤ_iff : (a b : ℤ) → (eq_ℤ a b ≡ true) ↔ (a ≡ b)
eq_ℤ_iff (pos a) (pos b) = (
  (λ h. ap (λ (k : ℕ). pos k) {x = a} {y = b} (ground arith)),
  λ h. ground (arith, ap magnitude h),
)
eq_ℤ_iff (pos a) (negsuc b) = ((λ h. cc h), λ h. cc h)
eq_ℤ_iff (negsuc a) (pos b) = ((λ h. cc h), λ h. cc h)
eq_ℤ_iff (negsuc a) (negsuc b) = (
  (λ h. ap (λ (k : ℕ). negsuc k) {x = a} {y = b} (ground arith)),
  λ h. ground (arith, ap magnitude h),
)
