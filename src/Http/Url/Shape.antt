-- ===== src/Http/Url/Shape.antt =====
-- What holds of every `URL` that the constructor returns.
use fion.Prelude.{
  ◌<◌, true, [], ◌∷◌, ◌++◌, ◌≡◌, ap, inl, inr, sym, arith, length, foldl, drop-length, Bool-cases,
  subst, List, Option-cases,
}
use fion.Prelude.Results.{Result, ok, err}
use fion.Text.{Bytes, find_byte, get_lines, is_empty}
use fion.Text.Find.{Lacks, Lacks-right, Lacks-cons, Lacks-nil, absent, cut, find_byte-Cut}
use fion.Dict.{Dict}
use fion.Dict.Sorted.{IsSorted, assign-IsSorted}
use fion.Http.Url.{
  Url, fresh, add_param, starts_with_slash, parse_authority_and_path, parse_authority, parse_url,
  parse_parts, parse_scheme,
}
use fion.Http.Url.Parts.{
  split_path_start_absent, split_path_start_cut, starts, parse_scheme-SchemeView, FragmentView,
  parse_fragment-FragmentView, QueryView, parse_query-QueryView,
}
use fion.Http.Url.Authority.{
  HostOf, Ensures, Ensures_ok, parse_host_port-HostOf, strip_userinfo-Lacks,
}

pub record IsShaped (u : Url) : Type 0 where
  pub port_bound : u.port < 65536
  pub path_rooted : (p : Bytes) × (u.path_to_resource ≡ b'/' ∷ p)
  pub path_lacks_query : Lacks b'?' u.path_to_resource
  pub path_lacks_anchor : Lacks b'#' u.path_to_resource
  pub domain_lacks_slash : Lacks b'/' u.domain_name
  pub params_sorted : IsSorted u.query_parameters

-- What the members must satisfy before the authority is read.
record IsReady (u : Url) (left : Bytes) : Type 0 where
  lacks_query : Lacks b'?' left
  lacks_anchor : Lacks b'#' left
  no_domain : u.domain_name ≡ []
  no_port : u.port ≡ 0
  params_sorted : IsSorted u.query_parameters

IsShaped-of_host :
    (u v : Url) (p : Bytes)
    → Lacks b'?' (b'/' ∷ p)
    → Lacks b'#' (b'/' ∷ p)
    → IsSorted u.query_parameters
    → HostOf (record u { path_to_resource = b'/' ∷ p }) v
    → IsShaped v
IsShaped-of_host u v p q a s h = record {
  port_bound = h.bound;
  path_rooted = (p, h.same_path);
  path_lacks_query = rw h.same_path q;
  path_lacks_anchor = rw h.same_path a;
  domain_lacks_slash = h.lacks;
  params_sorted = subst IsSorted (sym h.same_params) s;
}

Ensures-map :
    (P Q : Url → Type 0) (r : Result Url) → ((v : Url) → P v → Q v) → Ensures P r → Ensures Q r
Ensures-map P Q (ok v) f h = f v h
Ensures-map P Q (err e) f h = tt

parse_authority-IsShaped :
    (u : Url) (pre left : Bytes)
    → IsReady u left
    → Ensures IsShaped (parse_authority u (pre ++ left) (length pre))
unfolding parse_authority
parse_authority-IsShaped u pre left r = elim (find_byte-Cut b'/' left) [
  | absent h ↦ rw (split_path_start_absent u pre left h) (
      Ensures-map _ IsShaped _
        (λ v.
          IsShaped-of_host u v [] (Lacks-cons b'?' b'/' [] (omega arith) (Lacks-nil b'?'))
            (Lacks-cons b'#' b'/' [] (omega arith) (Lacks-nil b'#')) r.params_sorted)
        (parse_host_port-HostOf _ _ (strip_userinfo-Lacks b'/' left h)))
  | cut a b e free f ↦
      rw (e, split_path_start_cut u pre a b free)
        (Ensures-map _ IsShaped _
          (λ v.
            IsShaped-of_host u v b (Lacks-right b'?' a _ (rw e at r.lacks_query))
              (Lacks-right b'#' a _ (rw e at r.lacks_anchor)) r.params_sorted)
          (parse_host_port-HostOf _ _ (strip_userinfo-Lacks b'/' a free)))
]

path_only-IsShaped :
    (u : Url) (left : Bytes)
    → IsReady u left
    → starts_with_slash left ≡ true
    → IsShaped (record u { path_to_resource = left })
path_only-IsShaped u [] r h = cc
path_only-IsShaped u (c ∷ p) r h = record {
  port_bound = rw r.no_port (omega arith);
  path_rooted = (p, ground arith);
  path_lacks_query = r.lacks_query;
  path_lacks_anchor = r.lacks_anchor;
  domain_lacks_slash = rw r.no_domain (Lacks-nil b'/');
  params_sorted = r.params_sorted;
}

parse_authority_and_path-IsShaped :
    (u : Url) (pre left : Bytes)
    → IsReady u left
    → Ensures IsShaped (parse_authority_and_path u (pre ++ left) (length pre))
unfolding parse_authority_and_path
parse_authority_and_path-IsShaped u pre left r = elim (Bool-cases (starts_with_slash left)) [
  | inl slash ↦ rw (drop-length pre left, slash) (path_only-IsShaped u left r slash)
  | inr other ↦ rw (drop-length pre left, other) (parse_authority-IsShaped u pre left r)
]

add_param-IsSorted : (d : Dict Bytes) (param : Bytes) → IsSorted d → IsSorted (add_param d param)
unfolding add_param
add_param-IsSorted d param s = elim (Option-cases (find_byte b'=' param)) [
  | inl e ↦
      rw (e, add_param)
        (elim (Bool-cases (is_empty param)) [
          | inl empty ↦ rw empty s
          | inr more ↦ rw more (assign-IsSorted param [] d s)
        ])
  | inr (i, e) ↦ rw (e, add_param) (assign-IsSorted _ _ d s)
]

add_params-IsSorted :
    (d : Dict Bytes) (params : List Bytes) → IsSorted d → IsSorted (foldl add_param d params)
add_params-IsSorted d [] s = s
add_params-IsSorted d (p ∷ ps) s = add_params-IsSorted (add_param d p) ps (add_param-IsSorted d p s)

parse_parts-IsShaped : (raw : Bytes) → Ensures IsShaped (parse_parts raw)
unfolding parse_parts
parse_parts-IsShaped raw = elim (parse_scheme-SchemeView raw) [
  | starts u pre rest e f g ↦ elim (parse_fragment-FragmentView u pre rest) [
    | FragmentView.leaves anchor left h free ↦
        elim (parse_query-QueryView (record u { anchor = anchor }) pre left) [
          | QueryView.leaves params last q no_query keep ↦
              rw (e, subst (λ s. parse_scheme fresh s ≡ (u, length pre)) e f, h, q)
                (parse_authority_and_path-IsShaped _ pre last (record {
                  lacks_query = no_query;
                  lacks_anchor = keep free;
                  no_domain = ap (λ w. w.domain_name) g;
                  no_port = ap (λ w. w.port) g;
                  params_sorted =
                      add_params-IsSorted u.query_parameters (get_lines b'&' params)
                        (rw (ap (λ w. w.query_parameters) g) tt);
                }))
        ]
  ]
]

-- Every URL that the constructor returns has a port below 65536, a path that begins with '/' and
-- holds neither '?' nor '#', a domain with no '/', and query parameters in order, no key twice.
pub parse_url-IsShaped : (raw : Bytes) (u : Url) → parse_url raw ≡ ok u → IsShaped u
unfolding parse_url
parse_url-IsShaped [] u = λ h. cc h
parse_url-IsShaped (c ∷ s) u =
    Ensures_ok IsShaped (parse_parts (c ∷ s)) u (parse_parts-IsShaped (c ∷ s))
