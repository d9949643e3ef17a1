-- ===== src/Dict.antt =====
-- `std::map<std::string, V>`: the entries in the order of their keys, as the iteration gives them.
pub mod Order
pub mod Lookup
pub mod Sorted
pub mod Size
use fion.Prelude.{
  ℕ, zero, suc, ◌+◌, Bool, true, false, Option, none, some, List, [], ◌∷◌, map, Ordering, compare,
  ltb, if◌then◌else◌,
}
use fion.Text.{Bytes, equal}

-- `std::less<std::string>`: bytes are compared as unsigned numbers, a prefix comes first.
unfoldable pub compare_bytes : Bytes → Bytes → Ordering
compare_bytes [] [] = Ordering.eq
compare_bytes [] (y ∷ t) = Ordering.lt
compare_bytes (x ∷ s) [] = Ordering.gt
compare_bytes (x ∷ s) (y ∷ t) = elim (compare x y) [
  | Ordering.lt ↦ Ordering.lt
  | Ordering.eq ↦ compare_bytes s t
  | Ordering.gt ↦ Ordering.gt
]

abbrev pub Dict {ℓ} : Type ℓ → Type ℓ
Dict V = List (Bytes × V)

module _ {ℓ} {V : Type ℓ} where
  -- `find(k)` and `at(k)`; `none` for `end()`
  unfoldable pub lookup : Bytes → Dict V → Option V
  lookup k [] = none
  lookup k ((j, w) ∷ m) = if equal k j then some w else lookup k m

  -- `m[k] = v`
  unfoldable pub assign : Bytes → V → Dict V → Dict V
  assign k v [] = (k, v) ∷ []
  assign k v ((j, w) ∷ m) = elim (compare_bytes k j) [
    | Ordering.lt ↦ (k, v) ∷ (j, w) ∷ m
    | Ordering.eq ↦ (j, v) ∷ m
    | Ordering.gt ↦ (j, w) ∷ assign k v m
  ]

  -- `erase(k)`: the entries left, and the number of entries erased
  unfoldable pub erase : Bytes → Dict V → Dict V
  erase k [] = []
  erase k ((j, w) ∷ m) = let rest = erase k m in if equal k j then rest else (j, w) ∷ rest

  unfoldable pub count : Bytes → Dict V → ℕ
  count k [] = 0
  count k ((j, w) ∷ m) = (if equal k j then 1 else 0) + count k m

  unfoldable pub keys : Dict V → List Bytes
  keys [] = []
  keys ((j, w) ∷ m) = j ∷ keys m
