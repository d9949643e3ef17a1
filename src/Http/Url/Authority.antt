-- ===== src/Http/Url/Authority.antt =====
-- What the readers of a domain and of a port make of the members of a `URL`.
use fion.Prelude.{
  ℕ, ◌+◌, ◌<◌, Option, none, some, [], ◌∷◌, ◌≡◌, refl, inl, inr, arith, ◌==◌, Bool-cases, subst,
  Option-cases,
}
use fion.Prelude.Results.{Result, ok, err, ◌>>=◌, Result-cases}
use fion.Text.{Bytes, find_byte, rfind_byte, substr}
use fion.Text.Find.{Lacks, Lacks-drop, Lacks-take}
use fion.Http.Url.{
  Url, strip_userinfo, parse_host_port, parse_host, parse_ipv6, ipv6_port, parse_port_number,
}
use fion.Http.Url.Port.{parse_port_number_bound, default_port_bound}

-- `v` is `u` with a domain that lacks the slash and a port within bounds.
pub record HostOf (u v : Url) : Type 0 where
  pub same_path : v.path_to_resource ≡ u.path_to_resource
  pub same_params : v.query_parameters ≡ u.query_parameters
  pub bound : v.port < 65536
  pub lacks : Lacks b'/' v.domain_name

abbrev pub Ensures : (Url → Type 0) → Result Url → Type 0
Ensures P (ok v) = P v
Ensures P (err e) = Unit {0}

pub Ensures_ok : (P : Url → Type 0) (r : Result Url) (v : Url) → Ensures P r → r ≡ ok v → P v
Ensures_ok P (ok w) v h e = subst (Ensures P) e h
Ensures_ok P (err x) v h e = cc

-- A port that was read is within bounds, so only the rest of the record is left to show.
port_read :
    (u : Url) (s : Bytes) (f : ℕ → Url)
    → ((port : ℕ) → port < 65536 → HostOf u (f port))
    → Ensures (HostOf u) (parse_port_number s >>= λ port. ok (f port))
port_read u s f h = elim (Result-cases (parse_port_number s)) [
  | inl (port, e) ↦ rw e (h port (parse_port_number_bound s port e))
  | inr (x, e) ↦ rw e tt
]

host_of :
    (u : Url) (domain : Bytes) (port : ℕ)
    → Lacks b'/' domain
    → port < 65536
    → HostOf u (record u { domain_name = domain; port = port })
host_of u domain port free h = record {
  same_path = refl;
  same_params = refl;
  bound = h;
  lacks = free;
}

parse_host-HostOf : (u : Url) (s : Bytes) → Lacks b'/' s → Ensures (HostOf u) (parse_host u s)
unfolding parse_host
parse_host-HostOf u s free = elim (Option-cases (rfind_byte b':' s)) [
  | inl e ↦ rw (e, parse_host) (host_of u s _ free (default_port_bound u.scheme))
  | inr (i, e) ↦
      rw (e, parse_host)
        (port_read u _ (λ port. record u { domain_name = substr s 0 i; port = port })
          (λ port h. host_of u _ port (Lacks-take b'/' i _ (Lacks-drop b'/' 0 s free)) h))
]

ipv6_port-HostOf :
    (u : Url) (s domain : Bytes) (i : ℕ) (o : Option ℕ)
    → Lacks b'/' domain
    → Ensures (HostOf u) (ipv6_port (record u { domain_name = domain }) s i o)
unfolding ipv6_port
ipv6_port-HostOf u s domain i none free = host_of u domain _ free (default_port_bound u.scheme)
ipv6_port-HostOf u s domain i (some c) free = elim (Bool-cases (c == b':')) [
  | inl colon ↦ rw colon (
      port_read u _ (λ port. record u { domain_name = domain; port = port })
        (λ port h. host_of u domain port free h))
  | inr other ↦ rw other (host_of u domain _ free (default_port_bound u.scheme))
]

parse_ipv6-HostOf : (u : Url) (s : Bytes) → Lacks b'/' s → Ensures (HostOf u) (parse_ipv6 u s)
unfolding parse_ipv6
parse_ipv6-HostOf u s free = elim (Option-cases (find_byte b']' s)) [
  | inl e ↦ rw (e, parse_ipv6) tt
  | inr (i, e) ↦
      rw (e, parse_ipv6)
        (ipv6_port-HostOf u s _ i _ (Lacks-take b'/' (i + 1) _ (Lacks-drop b'/' 0 s free)))
]

pub parse_host_port-HostOf :
    (u : Url) (s : Bytes) → Lacks b'/' s → Ensures (HostOf u) (parse_host_port u s)
unfolding parse_host_port
parse_host_port-HostOf u [] free = host_of u [] 0 free (omega arith)
parse_host_port-HostOf u (c ∷ s) free = elim (Bool-cases (c == b'[')) [
  | inl bracket ↦ rw bracket (parse_ipv6-HostOf u (c ∷ s) free)
  | inr name ↦ rw name (parse_host-HostOf u (c ∷ s) free)
]

pub strip_userinfo-Lacks : (c : ℕ) (s : Bytes) → Lacks c s → Lacks c (strip_userinfo s)
unfolding strip_userinfo
strip_userinfo-Lacks c s free = elim (Option-cases (find_byte b'@' s)) [
  | inl e ↦ rw (e, strip_userinfo) free
  | inr (i, e) ↦ rw (e, strip_userinfo) (Lacks-drop c (i + 1) s free)
]
