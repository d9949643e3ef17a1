-- ===== src/Http/Request/Errors.antt =====
-- The only exception that leaves the constructor.
use fion.Prelude.{
  ℕ, Option, none, some, [], ◌∷◌, ◌≡◌, refl, arith, inl, inr, Bool-cases, Option-cases, drop, ◌==◌,
}
use fion.Prelude.Results.{Exception, Result, ok, err, ◌>>=◌, rethrow_invalid}
use fion.Prelude.Int.{ℤ}
use fion.Text.{Bytes, codes, is_empty, stoi, find_byte, rfind_byte, all_of, is_digit}
use fion.Http.Version.{string_to_version}
use fion.Http.Method.{string_to_method}
use fion.Http.Url.{
  Url, parse_url, parse_parts, parse_authority_and_path, parse_authority, parse_host_port,
  parse_host, parse_ipv6, ipv6_port, parse_port_number, catch_port, check_port, starts_with_slash,
}
use fion.Http.Request.{StartLineParts, parse_words, parse_start_line, new_request}

-- The outcome is a value or a `std::invalid_argument`.
abbrev pub OnlyInvalid {ℓ} : {A : Type ℓ} → Result A → Type 0
OnlyInvalid (ok a) = Unit {0}
OnlyInvalid (err (Exception.invalid_argument m)) = Unit {0}
OnlyInvalid (err (Exception.out_of_range m)) = ⊥
OnlyInvalid (err (Exception.runtime_error m)) = ⊥
OnlyInvalid (err (Exception.regex_error m)) = ⊥

OnlyInvalid-bind {ℓ κ} :
    {A : Type ℓ} {B : Type κ} (r : Result A) (f : A → Result B)
    → OnlyInvalid r
    → ((a : A) → OnlyInvalid (f a))
    → OnlyInvalid (r >>= f)
OnlyInvalid-bind (ok a) f h k = k a
OnlyInvalid-bind (err (Exception.invalid_argument m)) f h k = tt
OnlyInvalid-bind (err (Exception.out_of_range m)) f h k = absurd h
OnlyInvalid-bind (err (Exception.runtime_error m)) f h k = absurd h
OnlyInvalid-bind (err (Exception.regex_error m)) f h k = absurd h

catch_port-OnlyInvalid : (r : Result ℤ) → OnlyInvalid (catch_port r)
unfolding catch_port
catch_port-OnlyInvalid (ok n) = tt
catch_port-OnlyInvalid (err e) = tt

check_port-OnlyInvalid : (n : ℤ) → OnlyInvalid (check_port n)
unfolding check_port
check_port-OnlyInvalid n = ground arith

port-OnlyInvalid : (s : Bytes) → OnlyInvalid (parse_port_number s)
unfolding parse_port_number
port-OnlyInvalid s = elim (Bool-cases (is_empty s)) [
  | inl e ↦ rw e tt
  | inr e ↦ rw e (elim (Bool-cases (all_of is_digit s)) [
    | inl d ↦
        rw d
          (OnlyInvalid-bind _ check_port (catch_port-OnlyInvalid (stoi s)) check_port-OnlyInvalid)
    | inr d ↦ rw d tt
  ])
]

port_read : (s : Bytes) (f : ℕ → Url) → OnlyInvalid (parse_port_number s >>= λ n. ok (f n))
port_read s f = OnlyInvalid-bind _ _ (port-OnlyInvalid s) (λ n. tt)

host-OnlyInvalid : (u : Url) (s : Bytes) → OnlyInvalid (parse_host u s)
unfolding parse_host
host-OnlyInvalid u s = elim (Option-cases (rfind_byte b':' s)) [
  | inl e ↦ rw (e, parse_host) tt
  | inr (i, e) ↦ rw (e, parse_host) (port_read _ _)
]

ipv6_port-OnlyInvalid :
    (u : Url) (s : Bytes) (i : ℕ) (o : Option ℕ) → OnlyInvalid (ipv6_port u s i o)
unfolding ipv6_port
ipv6_port-OnlyInvalid u s i none = tt
ipv6_port-OnlyInvalid u s i (some c) = elim (Bool-cases (c == b':')) [
  | inl e ↦ rw e (port_read _ _)
  | inr e ↦ rw e tt
]

ipv6-OnlyInvalid : (u : Url) (s : Bytes) → OnlyInvalid (parse_ipv6 u s)
unfolding parse_ipv6
ipv6-OnlyInvalid u s = elim (Option-cases (find_byte b']' s)) [
  | inl e ↦ rw (e, parse_ipv6) tt
  | inr (i, e) ↦ rw (e, parse_ipv6) (ipv6_port-OnlyInvalid _ s i _)
]

host_port-OnlyInvalid : (u : Url) (s : Bytes) → OnlyInvalid (parse_host_port u s)
unfolding parse_host_port
host_port-OnlyInvalid u [] = tt
host_port-OnlyInvalid u (c ∷ s) = elim (Bool-cases (c == b'[')) [
  | inl e ↦ rw e (ipv6-OnlyInvalid u (c ∷ s))
  | inr e ↦ rw e (host-OnlyInvalid u (c ∷ s))
]

authority-OnlyInvalid : (u : Url) (s : Bytes) (n : ℕ) → OnlyInvalid (parse_authority_and_path u s n)
unfolding parse_authority_and_path parse_authority
authority-OnlyInvalid u s n = elim (Bool-cases (starts_with_slash (drop n s))) [
  | inl e ↦ rw e tt
  | inr e ↦ rw e (host_port-OnlyInvalid _ _)
]

-- `URL::URL` throws `std::invalid_argument` or nothing, whatever text it is given.
pub parse_url-OnlyInvalid : (raw : Bytes) → OnlyInvalid (parse_url raw)
unfolding parse_url parse_parts
parse_url-OnlyInvalid [] = tt
parse_url-OnlyInvalid (c ∷ s) = authority-OnlyInvalid _ _ _

rethrow-OnlyInvalid {ℓ} :
    {A : Type ℓ} (m : Bytes) (r : Result A) → OnlyInvalid r → OnlyInvalid (rethrow_invalid m r)
rethrow-OnlyInvalid m (ok a) h = tt
rethrow-OnlyInvalid m (err (Exception.invalid_argument x)) h = tt
rethrow-OnlyInvalid m (err (Exception.out_of_range x)) h = h
rethrow-OnlyInvalid m (err (Exception.runtime_error x)) h = h
rethrow-OnlyInvalid m (err (Exception.regex_error x)) h = h

method-OnlyInvalid : (s : Bytes) → OnlyInvalid (string_to_method s)
unfolding string_to_method
method-OnlyInvalid s = ground arith

version-OnlyInvalid : (s : Bytes) → OnlyInvalid (string_to_version s)
unfolding string_to_version
version-OnlyInvalid s = ground arith

start_line-OnlyInvalid : (s : Bytes) → OnlyInvalid (parse_start_line s)
unfolding parse_start_line parse_words
start_line-OnlyInvalid s =
    OnlyInvalid-bind _ _ (rethrow-OnlyInvalid _ _ (method-OnlyInvalid _)) λ m.
      OnlyInvalid-bind _ _ (rethrow-OnlyInvalid _ _ (parse_url-OnlyInvalid _))
        λ u. OnlyInvalid-bind _ _ (rethrow-OnlyInvalid _ _ (version-OnlyInvalid _)) λ v. tt

-- A request is refused with one message only, and only for its start line.
pub new_request_error :
    (line raw_headers raw_body : Bytes) (e : Exception)
    → new_request line raw_headers raw_body ≡ err e
    → (e ≡ Exception.invalid_argument (codes "Invalid HTTP Request"))
      × ((x : Exception) × (parse_start_line line ≡ err x))
unfolding new_request
new_request_error line raw_headers raw_body e h =
    go (parse_start_line line) refl (start_line-OnlyInvalid line)
  where
    go :
        (r : Result StartLineParts)
        → parse_start_line line ≡ r
        → OnlyInvalid r
        → (e ≡ Exception.invalid_argument (codes "Invalid HTTP Request"))
          × ((x : Exception) × (parse_start_line line ≡ err x))
    go (ok p) r valid = cc (rw r at h)
    go (err (Exception.invalid_argument m)) r valid =
        (cc (rw r at h), (Exception.invalid_argument m, r))
    go (err (Exception.out_of_range m)) r valid = absurd valid
    go (err (Exception.runtime_error m)) r valid = absurd valid
    go (err (Exception.regex_error m)) r valid = absurd valid
