-- ===== src/Dict/Lookup.antt =====
-- The laws of the map's operations, each for every key.
use fion.Prelude.{
  ltb, false, true, ◌+◌, none, some, [], ◌∷◌, ◌≡◌, refl, arith, length, if◌then◌else◌,
}
use fion.Text.{Bytes, equal}
use fion.Text.Equal.{equal_iff}
use fion.Dict.{Dict, lookup, assign, erase, count}
use fion.Dict.Order.{compare_bytes-eq, compare_bytes_refl}

module _ {ℓ} {V : Type ℓ} where
  pub lookup-assign :
      (k j : Bytes) (v : V) (m : Dict V)
      → lookup j (assign k v m) ≡ (if equal j k then some v else lookup j m)
  unfolding lookup assign
  lookup-assign k j v [] = refl
  lookup-assign k j v ((i, w) ∷ m) = ground (
    arith,
    equal_iff j k,
    equal_iff j i,
    compare_bytes-eq k i,
    compare_bytes_refl k,
    lookup-assign k j v m,
  )

  pub lookup-erase :
      (k j : Bytes) (m : Dict V) → lookup j (erase k m) ≡ (if equal j k then none else lookup j m)
  unfolding lookup erase
  lookup-erase k j [] = ground arith
  lookup-erase k j ((i, w) ∷ m) =
      ground (arith, equal_iff j k, equal_iff j i, equal_iff k i, lookup-erase k j m)

  pub count-pos :
      (k : Bytes) (m : Dict V)
      → ltb 0 (count k m) ≡ elim (lookup k m) [ none ↦ false | some v ↦ true ]
  unfolding lookup count
  count-pos k [] = refl
  count-pos k ((j, w) ∷ m) = ground (arith, count-pos k m)

  pub length-erase : (k : Bytes) (m : Dict V) → length (erase k m) + count k m ≡ length m
  unfolding erase count
  length-erase k [] = omega arith
  length-erase k ((j, w) ∷ m) = ground (arith, length-erase k m)
