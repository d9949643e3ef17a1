-- ===== src/Dict/Size.antt =====
-- The number of entries after an assignment and an erasure.
use fion.Prelude.{ℕ, ◌+◌, Option, none, some, [], ◌∷◌, ◌≡◌, refl, arith, length, Ordering}
use fion.Text.{Bytes}
use fion.Text.Equal.{equal_iff}
use fion.Dict.{Dict, compare_bytes, lookup, assign, erase, count}
use fion.Dict.Order.{compare_bytes_refl, compare_bytes-eq, equal_of_Before}
use fion.Dict.Lookup.{length-erase}
use fion.Dict.Sorted.{IsSorted, Behind, lookup-Before}

module _ {ℓ} {V : Type ℓ} where
  abbrev pub is_new : Option V → ℕ
  is_new none = 1
  is_new (some v) = 0

  abbrev pub is_old : Option V → ℕ
  is_old none = 0
  is_old (some v) = 1

  lookup_self : (j k : Bytes) (v : V) (m : Dict V) → k ≡ j → lookup k ((j, v) ∷ m) ≡ some v
  unfolding lookup
  lookup_self j k v m e = ground (arith, equal_iff k j)

  lookup_skip :
      (j k : Bytes) (v : V) (m : Dict V)
      → compare_bytes k j ≡ Ordering.gt
      → lookup k ((j, v) ∷ m) ≡ lookup k m
  unfolding lookup
  lookup_skip j k v m h = ground (arith, equal_iff k j, compare_bytes_refl k)

  pub length-assign :
      (k : Bytes) (v : V) (m : Dict V)
      → IsSorted m
      → length (assign k v m) ≡ length m + is_new (lookup k m)
  unfolding assign
  length-assign k v [] s = unfold lookup in omega arith
  length-assign k v ((j, w) ∷ m) s = ground (
    arith,
    compare_bytes-eq k j,
    lookup_self j k w m,
    lookup_skip j k w m,
    lookup-Before k j w m,
    length-assign k v m s.1,
  )

  count-Behind : (k : Bytes) (m : Dict V) → Behind k m → count k m ≡ 0
  unfolding count
  count-Behind k [] b = refl
  count-Behind k ((j, w) ∷ m) b = ground (arith, equal_of_Before k j b.0, count-Behind k m b.1)

  count_sorted : (k : Bytes) (m : Dict V) → IsSorted m → count k m ≡ is_old (lookup k m)
  unfolding count lookup
  count_sorted k [] s = refl
  count_sorted k ((j, w) ∷ m) s =
      ground (arith, equal_iff k j, count-Behind j m s.0, count_sorted k m s.1)

  pub length-erase_sorted :
      (k : Bytes) (m : Dict V) → IsSorted m → length (erase k m) + is_old (lookup k m) ≡ length m
  length-erase_sorted k m s = omega (arith, length-erase k m, count_sorted k m s)
