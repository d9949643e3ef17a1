-- ===== src/Dict/Sorted.antt =====
-- The keys of a map ascend, so a map is determined by what it looks up.
use fion.Prelude.{
  none, some, [], ◌∷◌, ◌++◌, ◌≡◌, refl, ap, arith, inl, inr, Ordering-cases, subst, sym, ◌∙◌, foldl,
  append-nil, append_assoc,
}
use mathlib.Core.Option.{some-ne-none, some-injective}
use fion.Text.{Bytes}
use fion.Text.Equal.{equal_iff, equal_refl}
use fion.Dict.{Dict, compare_bytes, lookup, assign, erase}
use fion.Dict.Order.{
  Before, compare_bytes-eq, compare_bytes_flip, Before-flip, Before-trans, equal_of_Before,
}

module _ {ℓ} {V : Type ℓ} where
  -- Every key of the map comes behind `j`.
  abbrev pub Behind : Bytes → Dict V → Type 0
  Behind j [] = Unit {0}
  Behind j ((k, v) ∷ m) = Before j k × Behind j m

  abbrev pub IsSorted : Dict V → Type 0
  IsSorted [] = Unit {0}
  IsSorted ((k, v) ∷ m) = Behind k m × IsSorted m

  Behind-trans : (i j : Bytes) (m : Dict V) → Before i j → Behind j m → Behind i m
  Behind-trans i j [] h b = tt
  Behind-trans i j ((k, v) ∷ m) h b = (Before-trans i j k h b.0, Behind-trans i j m h b.1)

  assign-Behind :
      (j k : Bytes) (v : V) (m : Dict V) → Before j k → Behind j m → Behind j (assign k v m)
  unfolding assign
  assign-Behind j k v [] h b = (h, tt)
  assign-Behind j k v ((i, w) ∷ m) h b = ground (arith, assign-Behind j k v m)

  pub assign-IsSorted : (k : Bytes) (v : V) (m : Dict V) → IsSorted m → IsSorted (assign k v m)
  unfolding assign
  assign-IsSorted k v [] s = (tt, tt)
  assign-IsSorted k v ((j, w) ∷ m) s = ground (
    arith,
    assign-IsSorted k v m,
    Behind-trans k j m,
    assign-Behind j k v m,
    compare_bytes_flip k j,
  )

  erase-Behind : (j k : Bytes) (m : Dict V) → Behind j m → Behind j (erase k m)
  unfolding erase
  erase-Behind j k [] b = tt
  erase-Behind j k ((i, w) ∷ m) b = ground (arith, erase-Behind j k m)

  pub erase-IsSorted : (k : Bytes) (m : Dict V) → IsSorted m → IsSorted (erase k m)
  unfolding erase
  erase-IsSorted k [] s = tt
  erase-IsSorted k ((j, w) ∷ m) s = ground (arith, erase-IsSorted k m, erase-Behind j k m)

  -- A key behind all others goes to the end.
  abbrev pub Precede : Dict V → Bytes → Type 0
  Precede [] k = Unit {0}
  Precede ((j, v) ∷ m) k = Before j k × Precede m k

  pub assign_last :
      (k : Bytes) (v : V) (m : Dict V) → Precede m k → assign k v m ≡ m ++ ((k, v) ∷ [])
  unfolding assign
  assign_last k v [] p = refl
  assign_last k v ((j, w) ∷ m) p = ground (arith, Before-flip k j p.0, assign_last k v m p.1)

  -- Behind what is sorted and precedes them, entries assigned in order are appended.
  abbrev assign_all : Dict V → Dict V → Dict V
  assign_all m es = foldl (λ d e. assign e.0 e.1 d) m es

  Precede-append :
      (m : Dict V) (j k : Bytes) (v : V) → Precede m j → Before k j → Precede (m ++ ((k, v) ∷ [])) j
  Precede-append [] j k v p b = (b, tt)
  Precede-append ((i, w) ∷ m) j k v p b = (p.0, Precede-append m j k v p.1 b)

  abbrev PrecedeAll : Dict V → Dict V → Type 0
  PrecedeAll m [] = Unit {0}
  PrecedeAll m ((j, v) ∷ es) = Precede m j × PrecedeAll m es

  PrecedeAll-append :
      (m : Dict V) (k : Bytes) (v : V) (es : Dict V)
      → PrecedeAll m es
      → Behind k es
      → PrecedeAll (m ++ ((k, v) ∷ [])) es
  PrecedeAll-append m k v [] p b = tt
  PrecedeAll-append m k v ((j, w) ∷ es) p b =
      (Precede-append m j k v p.0 b.0, PrecedeAll-append m k v es p.1 b.1)

  assign_all-append : (m es : Dict V) → IsSorted es → PrecedeAll m es → assign_all m es ≡ m ++ es
  assign_all-append m [] s p = sym (append-nil m)
  assign_all-append m ((k, v) ∷ es) s p =
      ap (λ d. assign_all d es) (assign_last k v m p.0)
      ∙ assign_all-append (m ++ ((k, v) ∷ [])) es s.1 (PrecedeAll-append m k v es p.1 s.0)
      ∙ append_assoc m ((k, v) ∷ []) es

  PrecedeAll-nil : (es : Dict V) → PrecedeAll [] es
  PrecedeAll-nil [] = tt
  PrecedeAll-nil (e ∷ es) = (tt, PrecedeAll-nil es)

  -- Assigning the entries of a map one after the other to the empty map rebuilds it.
  pub assign_all_lem : (es : Dict V) → IsSorted es → assign_all [] es ≡ es
  assign_all_lem es s = assign_all-append [] es s (PrecedeAll-nil es)

  pub lookup-Behind : (j : Bytes) (m : Dict V) → Behind j m → lookup j m ≡ none
  unfolding lookup
  lookup-Behind j [] b = refl
  lookup-Behind j ((k, v) ∷ m) b = rw (equal_of_Before j k b.0) (lookup-Behind j m b.1)

  lookup-head : (k : Bytes) (v : V) (m : Dict V) → lookup k ((k, v) ∷ m) ≡ some v
  unfolding lookup
  lookup-head k v m = rw (equal_refl k)

  pub lookup-Before :
      (j k : Bytes) (v : V) (m : Dict V) → Before j k → Behind k m → lookup j ((k, v) ∷ m) ≡ none
  lookup-Before j k v m h b = lookup-Behind j ((k, v) ∷ m) (h, Behind-trans j k m h b)

  lookup-tail :
      (x k : Bytes) (v w : V) (m n : Dict V)
      → Behind k m
      → Behind k n
      → lookup x ((k, v) ∷ m) ≡ lookup x ((k, w) ∷ n)
      → lookup x m ≡ lookup x n
  unfolding lookup
  lookup-tail x k v w m n b c h =
      ground (arith, equal_iff x k, lookup-Behind k m b, lookup-Behind k n c)

  lookup-nil : (k : Bytes) → lookup {V = V} k [] ≡ none
  unfolding lookup
  lookup-nil k = refl

  same_head :
      (j k : Bytes) (v w : V) (m n : Dict V)
      → j ≡ k
      → Behind j m
      → Behind k n
      → ((x : Bytes) → lookup x ((j, v) ∷ m) ≡ lookup x ((k, w) ∷ n))
      → (((x : Bytes) → lookup x m ≡ lookup x n) → m ≡ n)
      → (j, v) ∷ m ≡ (k, w) ∷ n
  same_head j k v w m n e b c h rest = cc (e, value, tails)
    where
      here : (x : Bytes) → lookup x ((k, v) ∷ m) ≡ lookup x ((k, w) ∷ n)
      here x = rw e at (h x)

      value : v ≡ w
      value = some-injective v w (sym (lookup-head k v m) ∙ here k ∙ lookup-head k w n)

      tails : m ≡ n
      tails = rest (λ x. lookup-tail x k v w m n (subst (λ y. Behind y m) e b) c (here x))

  -- Two maps that look up the same are the same.
  pub lookup_ext :
      (m n : Dict V) → IsSorted m → IsSorted n → ((x : Bytes) → lookup x m ≡ lookup x n) → m ≡ n
  lookup_ext [] [] s t h = refl
  lookup_ext [] ((k, w) ∷ n) s t h =
      absurd (some-ne-none w (sym (lookup-head k w n) ∙ sym (h k) ∙ lookup-nil k))
  lookup_ext ((j, v) ∷ m) [] s t h =
      absurd (some-ne-none v (sym (lookup-head j v m) ∙ h j ∙ lookup-nil j))
  lookup_ext ((j, v) ∷ m) ((k, w) ∷ n) s t h = elim (Ordering-cases (compare_bytes j k)) [
    | inl lt ↦
        absurd (some-ne-none v (sym (lookup-head j v m) ∙ h j ∙ lookup-Before j k w n lt t.0))
    | inr (inl eq) ↦
        same_head j k v w m n (compare_bytes-eq j k eq) s.0 t.0 h (lookup_ext m n s.1 t.1)
    | inr (inr gt) ↦ absurd (
        some-ne-none w (
          sym (lookup-head k w n)
          ∙ sym (h k)
          ∙ lookup-Before k j v m (compare_bytes_flip j k gt) s.0))
  ]
