-- ===== src/Http/Url/Host.antt =====
-- The authority of a printed URL is read as its domain and its port.
use fion.Prelude.{
  ℕ, ◌≤◌, Bool, false, not, ◌&&◌, [], ◌∷◌, ◌++◌, ◌≡◌, ◌≢◌, refl, sym, ap, ◌∙◌, arith, ◌==◌,
  if◌then◌else◌, length, drop, append_assoc, append-nil, take-length, drop-length-add, drop-zero,
  Bool-cases, inl, inr, drop-length,
}
use fion.Prelude.Results.{ok}
use fion.Text.{Bytes, codes, equal, is_empty, is_digit, to_string}
use fion.Text.Equal.{equal_iff}
use fion.Text.Decimal.{to_string-digits, digits-Lacks}
use fion.Text.Find.{
  Lacks, Lacks-append, Lacks-cons, Lacks-nil, Lacks-head, rfind_byte-append, rfind_byte_absent,
}
use fion.Http.Url.{
  Url, parse_host, parse_host_port, parse_authority, parse_authority_and_path, strip_userinfo,
  default_port_for_scheme, port_or_80, starts_with_slash,
}
use fion.Http.Url.Print.{print_domain, is_default_port}
use fion.Http.Url.Parts.{split_path_start_cut}
use fion.Http.Url.Port.{parse_port_number-to_string}

-- A domain that can stand in front of ':' and '/': it has a first byte that is not '[', and none
-- of the bytes that the authority gives a meaning.
pub record IsDomain (domain : Bytes) : Type 0 where
  pub first : ℕ
  pub rest : Bytes
  pub shape : domain ≡ first ∷ rest
  pub no_bracket : (first == b'[') ≡ false
  pub no_slash : Lacks b'/' domain
  pub no_userinfo : Lacks b'@' domain
  pub no_colon : Lacks b':' domain
  pub no_query : Lacks b'?' domain
  pub no_anchor : Lacks b'#' domain

-- The port is shown unless the scheme implies it; then it is the one that the scheme implies.
abbrev pub is_shown : Url → Bool
is_shown u = not (u.port == 0) && not (is_default_port u.scheme u.port)

hidden_port :
    (u : Url)
    → (u.port == 0) ≡ false
    → is_shown u ≡ false
    → port_or_80 (default_port_for_scheme u.scheme) ≡ u.port
unfolding is_default_port default_port_for_scheme equal
hidden_port u p h =
    ground (arith, equal_iff u.scheme (codes "http"), equal_iff u.scheme (codes "https"))

host_by_name :
    (w : Url) (domain t : Bytes)
    → IsDomain domain
    → parse_host_port w (domain ++ t) ≡ parse_host w (domain ++ t)
unfolding parse_host_port
host_by_name w domain t d = rw (d.shape, d.no_bracket)

drop_one : (a : ℕ) (s : Bytes) → drop 1 (a ∷ s) ≡ s
unfolding drop
drop_one a s = refl

host_with_port :
    (w : Url) (domain : Bytes) (n : ℕ)
    → IsDomain domain
    → n ≤ 65535
    → parse_host_port w (domain ++ (b':' ∷ to_string n))
      ≡ ok (record w { domain_name = domain; port = n })
unfolding parse_host
host_with_port w domain n d h =
    host_by_name w domain (b':' ∷ to_string n) d
    ∙ rw
        (
          rfind_byte-append b':' domain (to_string n)
              (digits-Lacks b':' (to_string n) colon (to_string-digits n)),
          parse_host,
        )
        (rw (drop-length-add, drop_one, parse_port_number-to_string n h, drop-zero, take-length))
  where
    colon : is_digit b':' ≡ false
    colon = unfold is_digit in refl

host_alone :
    (w : Url) (domain : Bytes)
    → IsDomain domain
    → parse_host_port w domain
      ≡ ok (record w { domain_name = domain; port = port_or_80 (default_port_for_scheme w.scheme) })
unfolding parse_host
host_alone w domain d =
    ap (parse_host_port w) (sym (append-nil domain))
    ∙ host_by_name w domain [] d
    ∙ ap (parse_host w) (append-nil domain)
    ∙ rw (rfind_byte_absent b':' domain d.no_colon, parse_host)

abbrev pub port_text : Url → Bytes
port_text u = if is_shown u then codes ":" ++ to_string u.port else []

pub print_domain_lem :
    (u : Url) → IsDomain u.domain_name → print_domain u ≡ u.domain_name ++ port_text u
unfolding print_domain
print_domain_lem u d = rw (shown d.shape)
  where
    shown : (u.domain_name ≡ d.first ∷ d.rest) → is_empty u.domain_name ≡ false
    shown e = rw e

-- The authority, shown with or without its port, is read as the domain and the port.
host_printed :
    (u w : Url)
    → IsDomain u.domain_name
    → w.scheme ≡ u.scheme
    → (u.port == 0) ≡ false
    → u.port ≤ 65535
    → parse_host_port w (u.domain_name ++ port_text u)
      ≡ ok (record w { domain_name = u.domain_name; port = u.port })
host_printed u w d e p h = elim (Bool-cases (is_shown u)) [
  | inl shown ↦ rw shown (host_with_port w u.domain_name u.port d h)
  | inr hidden ↦ rw (hidden, append-nil, host_alone w u.domain_name d, e, hidden_port u p hidden)
]

port_text-Lacks : (c : ℕ) (u : Url) → is_digit c ≡ false → b':' ≢ c → Lacks c (port_text u)
port_text-Lacks c u h ne = elim (Bool-cases (is_shown u)) [
  | inl shown ↦
      rw shown
        (Lacks-cons c b':' _ ne (digits-Lacks c (to_string u.port) h (to_string-digits u.port)))
  | inr hidden ↦ rw hidden (Lacks-nil c)
]

-- The printed authority lacks what would end it, or be cut off it.
pub authority-Lacks :
    (c : ℕ) (u : Url)
    → Lacks c u.domain_name
    → is_digit c ≡ false
    → b':' ≢ c
    → Lacks c (u.domain_name ++ port_text u)
authority-Lacks c u free h ne = Lacks-append c u.domain_name _ free (port_text-Lacks c u h ne)

strip_userinfo_none : (s : Bytes) → Lacks b'@' s → strip_userinfo s ≡ s
unfolding strip_userinfo
strip_userinfo_none s h = rw (h, strip_userinfo)

not_slash : (domain t : Bytes) → IsDomain domain → starts_with_slash (domain ++ t) ≡ false
not_slash domain t d =
    rw d.shape (ground (arith, Lacks-head b'/' d.first d.rest (rw d.shape at d.no_slash)))

-- Behind `pre`, the printed authority and a path are read as the domain, the port and the path.
pub authority_printed :
    (u w : Url) (pre p : Bytes)
    → IsDomain u.domain_name
    → w.scheme ≡ u.scheme
    → (u.port == 0) ≡ false
    → u.port ≤ 65535
    → parse_authority_and_path w
        (pre ++ ((u.domain_name ++ port_text u) ++ (b'/' ∷ p)))
        (length pre)
      ≡ ok (record w { domain_name = u.domain_name; port = u.port; path_to_resource = b'/' ∷ p })
unfolding parse_authority_and_path parse_authority
authority_printed u w pre p d e n h = rw (
  drop-length pre (a ++ (b'/' ∷ p)),
  slashless,
  split_path_start_cut w pre a p
      (authority-Lacks b'/' u d.no_slash (unfold is_digit in refl) (omega arith)),
  strip_userinfo_none a
      (authority-Lacks b'@' u d.no_userinfo (unfold is_digit in refl) (omega arith)),
  host_printed u (record w { path_to_resource = b'/' ∷ p }) d e n h,
)
  where
    a : Bytes
    a = u.domain_name ++ port_text u

    slashless : starts_with_slash (a ++ (b'/' ∷ p)) ≡ false
    slashless = rw append_assoc (not_slash u.domain_name (port_text u ++ (b'/' ∷ p)) d)

-- The same for an authority that is a domain alone.
pub authority_alone :
    (w : Url) (pre domain p : Bytes)
    → IsDomain domain
    → parse_authority_and_path w (pre ++ (domain ++ (b'/' ∷ p))) (length pre)
      ≡ ok (record w {
        domain_name = domain;
        port = port_or_80 (default_port_for_scheme w.scheme);
        path_to_resource = b'/' ∷ p;
      })
unfolding parse_authority_and_path parse_authority
authority_alone w pre domain p d = rw (
  drop-length pre (domain ++ (b'/' ∷ p)),
  not_slash domain (b'/' ∷ p) d,
  split_path_start_cut w pre domain p d.no_slash,
  strip_userinfo_none domain d.no_userinfo,
  host_alone (record w { path_to_resource = b'/' ∷ p }) domain d,
)
