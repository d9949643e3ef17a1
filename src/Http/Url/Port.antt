-- ===== src/Http/Url/Port.antt =====
-- `URL::parsePortNumber` and the default ports.
use fion.Prelude.{
  ℕ, ◌<◌, ◌≤◌, true, false, [], ◌∷◌, ◌≡◌, ◌≢◌, ◌↔◌, refl, sym, ap, ◌∙◌, arith, ltb, if◌then◌else◌,
  Bool-cases, inl, inr,
}
use fion.Prelude.Int.{ℤ}
use fion.Prelude.Results.{Result, ok, err}
use fion.Text.{Bytes, is_digit, all_of, number_of, to_string}
use fion.Text.Decimal.{stoi-digits, to_string-cons, to_string-digits, number_of-to_string}
use fion.Http.Url.{
  parse_port_number, catch_port, check_port, invalid_port, default_port_for_scheme, port_or_80,
}

-- On a row of digits: the number if it fits, one of two errors if not.
parse_port_number-digits :
    (c : ℕ) (s : Bytes)
    → all_of is_digit (c ∷ s) ≡ true
    → parse_port_number (c ∷ s) ≡ (
        if ltb (number_of (c ∷ s)) 2147483648
        then check_port (ℤ.pos (number_of (c ∷ s)))
        else err invalid_port)
unfolding parse_port_number catch_port
parse_port_number-digits c s h = rw (h, stoi-digits c s h) (ground arith)

-- What is returned for the number of the digits.
abbrev port_of : ℕ → Result ℕ
port_of v = if ltb v 2147483648 then check_port (ℤ.pos v) else err invalid_port

port_of-eq_ok : (v n : ℕ) → port_of v ≡ ok n → (v ≡ n) × (n ≤ 65535)
unfolding check_port
port_of-eq_ok v n h = ground arith

port_of_small : (v : ℕ) → v ≤ 65535 → port_of v ≡ ok v
unfolding check_port
port_of_small v h = ground arith

not_digits :
    (c : ℕ) (s : Bytes)
    → all_of is_digit (c ∷ s) ≡ false
    → parse_port_number (c ∷ s) ≡ err invalid_port
unfolding parse_port_number
not_digits c s h = rw h

no_port : (n : ℕ) → ¬ (parse_port_number [] ≡ ok n)
unfolding parse_port_number
no_port n e = cc

parse_port_number_sound :
    (s : Bytes) (n : ℕ)
    → parse_port_number s ≡ ok n
    → (s ≢ []) × (all_of is_digit s ≡ true) × (number_of s ≡ n) × (n ≤ 65535)
parse_port_number_sound [] n h = absurd (no_port n h)
parse_port_number_sound (c ∷ s) n h = elim (Bool-cases (all_of is_digit (c ∷ s))) [
  | inl digits ↦
      let (value, bound) =
        port_of-eq_ok (number_of (c ∷ s)) n (sym (parse_port_number-digits c s digits) ∙ h) in
      (λ e. cc e, digits, value, bound)
  | inr other ↦ cc (h, not_digits c s other)
]

parse_port_number_complete :
    (s : Bytes) (n : ℕ)
    → (s ≢ []) × (all_of is_digit s ≡ true) × (number_of s ≡ n) × (n ≤ 65535)
    → parse_port_number s ≡ ok n
parse_port_number_complete [] n (ne, digits, value, bound) = absurd (ne refl)
parse_port_number_complete (c ∷ s) n (ne, digits, value, bound) =
    parse_port_number-digits c s digits ∙ ap port_of value ∙ port_of_small n bound

-- A text is a port exactly when it is a row of one or more digits whose number is at most 65535.
pub parse_port_number_iff :
    (s : Bytes) (n : ℕ)
    → (parse_port_number s ≡ ok n)
      ↔ ((s ≢ []) × (all_of is_digit s ≡ true) × (number_of s ≡ n) × (n ≤ 65535))
parse_port_number_iff s n = (parse_port_number_sound s n, parse_port_number_complete s n)

-- A printed port is read back.
pub parse_port_number-to_string : (n : ℕ) → n ≤ 65535 → parse_port_number (to_string n) ≡ ok n
parse_port_number-to_string n h =
    let (d, s, e) = to_string-cons n in
    parse_port_number_complete (to_string n) n
      (λ z. cc (e, z), to_string-digits n, number_of-to_string n, h)

pub parse_port_number_bound : (s : Bytes) (n : ℕ) → parse_port_number s ≡ ok n → n < 65536
parse_port_number_bound s n h = let (_, _, _, bound) = parse_port_number_sound s n h in omega arith

pub default_port_bound : (s : Bytes) → port_or_80 (default_port_for_scheme s) < 65536
unfolding default_port_for_scheme
default_port_bound s = ground arith
