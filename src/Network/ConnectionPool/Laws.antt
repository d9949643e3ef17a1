-- ===== src/Network/ConnectionPool/Laws.antt =====
-- The map of the clients: what a look-up finds after a change.
use fion.Prelude.{
  Bool-cases, inl, inr, none, some, List, [], ◌∷◌, ◌≡◌, refl, ◌∙◌, arith, if◌then◌else◌,
}
use fion.Prelude.Int.{ℤ, eq_ℤ}
use fion.Prelude.IntLaws.{eq_ℤ_iff}
use fion.Network.Client.{Client}
use fion.Network.ConnectionPool.{find_client, put_client, drop_client}

-- Every descriptor has one client at most.
abbrev pub AreUnique : List (ℤ × Client) → Type 0
AreUnique [] = Unit {0}
AreUnique ((k, c) ∷ rest) = (find_client k rest ≡ none) × AreUnique rest

pub find_client-put_client :
    (j k : ℤ) (c : Client) (l : List (ℤ × Client))
    → find_client j (put_client k c l) ≡ (if eq_ℤ j k then some c else find_client j l)
unfolding find_client put_client
find_client-put_client j k c [] = refl
find_client-put_client j k c ((i, d) ∷ l) =
    ground (arith, eq_ℤ_iff j k, eq_ℤ_iff j i, eq_ℤ_iff k i, find_client-put_client j k c l)

pub find_client-drop_client :
    (j k : ℤ) (l : List (ℤ × Client))
    → AreUnique l
    → find_client j (drop_client k l) ≡ (if eq_ℤ j k then none else find_client j l)
unfolding find_client drop_client
find_client-drop_client j k [] u = ground arith
find_client-drop_client j k ((i, d) ∷ l) u =
    ground (arith, eq_ℤ_iff j k, eq_ℤ_iff j i, eq_ℤ_iff k i, find_client-drop_client j k l u.1, u.0)

pub put_client-AreUnique :
    (k : ℤ) (c : Client) (l : List (ℤ × Client)) → AreUnique l → AreUnique (put_client k c l)
unfolding find_client put_client
put_client-AreUnique k c [] u = (refl, tt)
put_client-AreUnique k c ((i, d) ∷ l) u = elim (Bool-cases (eq_ℤ k i)) [
  | inl same ↦ rw same u
  | inr differs ↦ rw differs (
    find_client-put_client i k c l ∙ ground (arith, eq_ℤ_iff k i, eq_ℤ_iff i k, u.0),
    put_client-AreUnique k c l u.1,
  )
]

pub drop_client-AreUnique :
    (k : ℤ) (l : List (ℤ × Client)) → AreUnique l → AreUnique (drop_client k l)
unfolding find_client drop_client
drop_client-AreUnique k [] u = tt
drop_client-AreUnique k ((i, d) ∷ l) u = elim (Bool-cases (eq_ℤ k i)) [
  | inl same ↦ rw same u.1
  | inr differs ↦
      rw differs
        (find_client-drop_client i k l u.1 ∙ ground (arith, u.0), drop_client-AreUnique k l u.1)
]
