-- ===== src/Text.antt =====
-- What the program uses of `std::string`, `<cctype>`, `<sstream>` and the number conversions:
-- a text is the list of its bytes. A cut whose start lies beyond the end throws in C++; the
-- program cuts only at positions that a search found, or that a test before the call guards.
pub mod Equal
pub mod Find
pub mod Lines
pub mod Spans
pub mod Decimal
pub mod Crlf
pub mod Prefix
use Prim.Native.Char.{code}
use Prim.Native.String.{String}
use fion.Prelude.{
  ℕ, zero, suc, ◌+◌, ◌-◌, ◌*◌, ◌/◌, ◌%◌, Bool, true, false, ◌&&◌, ◌||◌, not, Option, none, some,
  List, [], ◌∷◌, ◌++◌, map, ltb, leb, ◌==◌, if◌then◌else◌, take, drop, length, foldl,
}
use fion.Prelude.Results.{Exception, Result, ok, err}
use fion.Prelude.Int.{ℤ, of_sign}
use mathlib.Core.Option

abbrev pub Bytes : Type 0
Bytes = List ℕ

-- The bytes of a literal; every literal of the program is ASCII.
abbrev pub codes : String → Bytes
codes String.[] = []
codes (String.◌∷◌ c s) = code c ∷ codes s

-- `==` on texts
unfoldable pub equal : Bytes → Bytes → Bool
equal [] [] = true
equal (x ∷ s) (y ∷ t) = x == y && equal s t
equal _ _ = false

-- `empty()`
abbrev pub is_empty {ℓ} : {A : Type ℓ} → List A → Bool
is_empty [] = true
is_empty (x ∷ s) = false

unfoldable pub starts_with : Bytes → Bytes → Bool
starts_with [] s = true
starts_with (x ∷ p) [] = false
starts_with (x ∷ p) (y ∷ s) = x == y && starts_with p s

-- `find(c)`, `none` for `npos`
unfoldable pub find_byte : ℕ → Bytes → Option ℕ
find_byte c [] = none
find_byte c (x ∷ s) = if x == c then some 0 else Option.map suc (find_byte c s)

-- `find(c, pos)`
unfoldable pub find_byte_from : ℕ → Bytes → ℕ → Option ℕ
find_byte_from c s pos = Option.map (λ i. pos + i) (find_byte c (drop pos s))

-- `rfind(c)`
unfoldable pub rfind_byte : ℕ → Bytes → Option ℕ
rfind_byte c [] = none
rfind_byte c (x ∷ s) = elim (rfind_byte c s) [
  | some i ↦ some (suc i)
  | none ↦ if x == c then some 0 else none
]

-- `find(text)`
unfoldable pub find_text : Bytes → Bytes → Option ℕ
find_text p [] = if starts_with p [] then some 0 else none
find_text p (x ∷ s) = if starts_with p (x ∷ s) then some 0 else Option.map suc (find_text p s)

-- `find(text, pos)`
unfoldable pub find_text_from : Bytes → Bytes → ℕ → Option ℕ
find_text_from p s pos = Option.map (λ i. pos + i) (find_text p (drop pos s))

-- `substr(pos, count)` and `substr(pos)`
abbrev pub substr : Bytes → ℕ → ℕ → Bytes
substr s pos count = take count (drop pos s)

abbrev pub substr_from : Bytes → ℕ → Bytes
substr_from s pos = drop pos s

-- What the calls of `std::getline(stream, piece, d)` until the end give: the pieces between the
-- delimiters, without an empty piece behind the last one.
push_byte : ℕ → List Bytes → List Bytes
push_byte c [] = (c ∷ []) ∷ []
push_byte c (l ∷ ls) = (c ∷ l) ∷ ls

unfoldable pub get_lines : ℕ → Bytes → List Bytes
unfolding push_byte
get_lines d [] = []
get_lines d (c ∷ s) = let rest = get_lines d s in if c == d then [] ∷ rest else push_byte c rest

unfoldable pub is_space : ℕ → Bool
is_space c = c == b' ' || (leb 9 c && leb c 13)

unfoldable pub is_digit : ℕ → Bool
is_digit c = leb b'0' c && leb c b'9'

unfoldable pub to_lower : ℕ → ℕ
to_lower c = if leb b'A' c && leb c b'Z' then c + 32 else c

unfoldable pub take_while : (ℕ → Bool) → Bytes → Bytes
take_while p [] = []
take_while p (c ∷ s) = if p c then c ∷ take_while p s else []

unfoldable pub drop_while : (ℕ → Bool) → Bytes → Bytes
drop_while p [] = []
drop_while p (c ∷ s) = if p c then drop_while p s else c ∷ s

unfoldable pub all_of : (ℕ → Bool) → Bytes → Bool
all_of p [] = true
all_of p (c ∷ s) = p c && all_of p s

-- `stream >> word`: the word, empty at the end of the stream, and what is left to read.
unfoldable pub next_word : Bytes → Bytes × Bytes
next_word s =
    let rest = drop_while is_space s in
    (take_while (λ c. not (is_space c)) rest, drop_while (λ c. not (is_space c)) rest)

-- The number that a row of decimal digits denotes.
abbrev pub number_of : Bytes → ℕ
number_of s = foldl (λ n c. n * 10 + (c - b'0')) 0 s

-- The unsigned number written in decimal, as `operator<<` and `std::to_string` print it.
digits_onto : ℕ → ℕ → Bytes → Bytes
digits_onto zero n acc = acc
digits_onto (suc f) n acc =
    let rest = digits_onto f (n / 10) ((b'0' + n % 10) ∷ acc) in
    if ltb n 10 then (b'0' + n) ∷ acc else rest

unfoldable pub to_string : ℕ → Bytes
unfolding digits_onto
to_string n = digits_onto (suc n) n []

-- What `strtol` and `strtoull` read in base 10 behind white space: a sign and the digits' number.
scan_digits : Bool → Bytes → Option (Bool × ℕ)
scan_digits negative [] = none
scan_digits negative (c ∷ s) = some (negative, number_of (c ∷ s))

scan_sign : Bytes → Option (Bool × ℕ)
scan_sign [] = none
scan_sign (c ∷ s) =
    if c == b'-'
    then scan_digits true (take_while is_digit s)
    else if c == b'+'
    then scan_digits false (take_while is_digit s)
    else scan_digits false (take_while is_digit (c ∷ s))

unfoldable pub scan_number : Bytes → Option (Bool × ℕ)
unfolding scan_digits scan_sign take_while drop_while is_digit is_space
scan_number s = scan_sign (drop_while is_space s)

abbrev pub u64_mod : ℕ
u64_mod = 18446744073709551616

in_int_range : Bool → ℕ → Bool
in_int_range negative n = if negative then leb n 2147483648 else ltb n 2147483648

stoi_of : Option (Bool × ℕ) → Result ℤ
stoi_of none = err (Exception.invalid_argument (codes "stoi"))
stoi_of (some (negative, n)) =
    if in_int_range negative n
    then ok (of_sign negative n)
    else err (Exception.out_of_range (codes "stoi"))

unfoldable pub stoi : Bytes → Result ℤ
unfolding stoi_of in_int_range scan_number
stoi s = stoi_of (scan_number s)

stoull_of : Option (Bool × ℕ) → Result ℕ
stoull_of none = err (Exception.invalid_argument (codes "stoull"))
stoull_of (some (negative, n)) =
    if leb u64_mod n
    then err (Exception.out_of_range (codes "stoull"))
    else ok (if negative then (u64_mod - n) % u64_mod else n)

-- A minus sign negates in the unsigned type.
unfoldable pub stoull : Bytes → Result ℕ
unfolding stoull_of scan_number
stoull s = stoull_of (scan_number s)
