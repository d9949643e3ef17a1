-- ===== src/Prelude/Int.antt =====
-- The values of `int`, over the native numbers: what `std::stoi` returns.
use fion.Prelude.Tests.{ltb, leb, ◌==◌}
use Prim.Native.Nat.{ℕ, zero, suc, ◌-◌, ◌%◌}
use mathlib.Core.Bool.{Bool, true, false}

-- `negsuc n` is -(n + 1).
pub data ℤ : Type 0 where
  pos : ℕ → ℤ
  negsuc : ℕ → ℤ

abbrev pub of_sign : Bool → ℕ → ℤ
of_sign false n = pos n
of_sign true zero = pos 0
of_sign true (suc n) = negsuc n

abbrev pub ltb_ℤ : ℤ → ℤ → Bool
ltb_ℤ (pos a) (pos b) = ltb a b
ltb_ℤ (pos a) (negsuc b) = false
ltb_ℤ (negsuc a) (pos b) = true
ltb_ℤ (negsuc a) (negsuc b) = ltb b a

-- `static_cast<std::uint16_t>`
abbrev pub to_uint16 : ℤ → ℕ
to_uint16 (pos n) = n % 65536
to_uint16 (negsuc n) = 65535 - n % 65536

abbrev pub eq_ℤ : ℤ → ℤ → Bool
eq_ℤ (pos a) (pos b) = a == b
eq_ℤ (pos a) (negsuc b) = false
eq_ℤ (negsuc a) (pos b) = false
eq_ℤ (negsuc a) (negsuc b) = a == b

abbrev pub signed : ℕ → ℤ
signed n =
    of_sign (leb 2147483648 n) (elim (leb 2147483648 n) [ true ↦ 4294967296 - n | false ↦ n ])

-- `static_cast<int>` of a machine word.
abbrev pub to_int : ℕ → ℤ
to_int n = signed (n % 4294967296)
