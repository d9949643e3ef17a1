-- ===== src/Text/Equal.antt =====
-- `==` on texts decides equality, and `starts_with` decides being a prefix.
use fion.Prelude.{true, false, [], ◌∷◌, ◌++◌, ◌≡◌, refl, ◌↔◌, ◌≢◌, arith}
use fion.Text.{Bytes, equal, starts_with}

pub equal_iff : (s t : Bytes) → (equal s t ≡ true) ↔ (s ≡ t)
unfolding equal
equal_iff (x ∷ s) (y ∷ t) = ground (arith, equal_iff s t)
equal_iff _ _ = ground arith

pub equal_refl : (s : Bytes) → equal s s ≡ true
equal_refl s = (equal_iff s s).1 refl

pub equal_ne : (s t : Bytes) → s ≢ t → equal s t ≡ false
equal_ne s t h = ground (arith, equal_iff s t)

pub starts_with-append : (p s : Bytes) → starts_with p (p ++ s) ≡ true
unfolding starts_with
starts_with-append [] s = refl
starts_with-append (x ∷ p) s = ground (arith, starts_with-append p s)

pub starts_with-eq_true : (p s : Bytes) → starts_with p s ≡ true → (t : Bytes) × (s ≡ p ++ t)
unfolding starts_with
starts_with-eq_true [] s h = (s, refl)
starts_with-eq_true (x ∷ p) [] h = cc
starts_with-eq_true (x ∷ p) (y ∷ s) h =
    let (t, e) = starts_with-eq_true p s (ground arith) in (t, ground arith)
