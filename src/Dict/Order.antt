-- ===== src/Dict/Order.antt =====
-- The order of the keys is a strict total order.
use fion.Prelude.{false, [], ◌∷◌, ◌≡◌, refl, arith, Ordering}
use fion.Text.{Bytes, equal}
use fion.Text.Equal.{equal_iff}
use fion.Dict.{compare_bytes}

-- `j` comes before `k`.
abbrev pub Before : Bytes → Bytes → Type 0
Before j k = compare_bytes j k ≡ Ordering.lt

pub compare_bytes-eq : (s t : Bytes) → compare_bytes s t ≡ Ordering.eq → s ≡ t
unfolding compare_bytes
compare_bytes-eq [] [] h = refl
compare_bytes-eq [] (y ∷ t) h = cc
compare_bytes-eq (x ∷ s) [] h = cc
compare_bytes-eq (x ∷ s) (y ∷ t) h = ground (arith, compare_bytes-eq s t)

pub compare_bytes_refl : (s : Bytes) → compare_bytes s s ≡ Ordering.eq
unfolding compare_bytes
compare_bytes_refl [] = refl
compare_bytes_refl (x ∷ s) = ground (arith, compare_bytes_refl s)

pub compare_bytes_flip : (s t : Bytes) → compare_bytes s t ≡ Ordering.gt → Before t s
unfolding compare_bytes
compare_bytes_flip [] [] h = cc
compare_bytes_flip [] (y ∷ t) h = cc
compare_bytes_flip (x ∷ s) [] h = refl
compare_bytes_flip (x ∷ s) (y ∷ t) h = ground (arith, compare_bytes_flip s t)

pub Before-flip : (s t : Bytes) → Before t s → compare_bytes s t ≡ Ordering.gt
unfolding compare_bytes
Before-flip [] [] h = cc
Before-flip [] (y ∷ t) h = cc
Before-flip (x ∷ s) [] h = refl
Before-flip (x ∷ s) (y ∷ t) h = ground (arith, Before-flip s t)

pub Before-trans : (r s t : Bytes) → Before r s → Before s t → Before r t
unfolding compare_bytes
Before-trans [] [] t h k = cc
Before-trans [] (y ∷ s) [] h k = cc
Before-trans [] (y ∷ s) (z ∷ t) h k = refl
Before-trans (x ∷ r) [] t h k = cc
Before-trans (x ∷ r) (y ∷ s) [] h k = cc
Before-trans (x ∷ r) (y ∷ s) (z ∷ t) h k = ground (arith, Before-trans r s t)

pub Before-irrefl : (s : Bytes) → ¬ Before s s
Before-irrefl s h = cc (compare_bytes_refl s)

-- A text does not equal one that comes later.
pub equal_of_Before : (s t : Bytes) → Before s t → equal s t ≡ false
equal_of_Before s t h = ground (arith, equal_iff s t, compare_bytes_refl s)
