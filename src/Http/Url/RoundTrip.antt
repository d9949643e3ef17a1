-- ===== src/Http/Url/RoundTrip.antt =====
-- A URL that is printed is read back.
use fion.Prelude.{
  ℕ, ◌≤◌, false, [], ◌∷◌, ◌++◌, ◌≡◌, refl, ap, ◌∙◌, arith, ◌==◌, if◌then◌else◌, length,
  append_assoc, append-nil, some,
}
use fion.Prelude.Results.{ok}
use fion.Text.{Bytes, codes, find_text, is_empty, is_digit}
use fion.Text.Find.{Lacks, LacksText, Lacks-append, find_text-append}
use fion.Dict.Sorted.{IsSorted}
use fion.Http.Url.{Url, fresh, to_lower_copy, parse_fragment, parse_parts, parse_url}
use fion.Http.Url.Print.{url_to_string}
use fion.Http.Url.Parts.{parse_scheme_cut, parse_fragment_absent, parse_fragment_cut}
use fion.Http.Url.Params.{AreParams, parse_query_printed, query_text}
use fion.Http.Url.Host.{IsDomain, authority_printed, authority-Lacks, print_domain_lem, port_text}

-- The URLs whose text keeps every part: a scheme in lower case with no "://" in it or at its end,
-- a plain domain, a port, a path that begins with '/', parameters with neither '#' nor the bytes
-- that separate them; the anchor is any text.
pub record IsPrintable (u : Url) : Type 0 where
  pub scheme_first : ℕ
  pub scheme_rest : Bytes
  pub scheme_shape : u.scheme ≡ scheme_first ∷ scheme_rest
  pub scheme_ends : LacksText (codes "://") (u.scheme ++ codes ":/")
  pub scheme_lower : to_lower_copy u.scheme ≡ u.scheme
  pub domain : IsDomain u.domain_name
  pub port_set : (u.port == 0) ≡ false
  pub port_bound : u.port ≤ 65535
  pub path_rest : Bytes
  pub path_shape : u.path_to_resource ≡ b'/' ∷ path_rest
  pub path_no_query : Lacks b'?' u.path_to_resource
  pub path_no_anchor : Lacks b'#' u.path_to_resource
  pub params_sorted : IsSorted u.query_parameters
  pub params : AreParams u.query_parameters
  pub params_no_anchor : Lacks b'#' (query_text u.query_parameters)

abbrev anchor_text : Bytes → Bytes
anchor_text anchor = if is_empty anchor then [] else codes "#" ++ anchor

-- The fragment of a printed URL is read as its anchor.
parse_fragment_printed :
    (w : Url) (pre body anchor : Bytes)
    → Lacks b'#' body
    → w.anchor ≡ []
    → parse_fragment w (pre ++ (body ++ anchor_text anchor)) (length pre)
      ≡ (record w { anchor = anchor }, pre ++ body)
parse_fragment_printed w pre body [] free e =
    rw (append-nil body, parse_fragment_absent w pre body free)
      (λ i. (record w { anchor = e i }, pre ++ body))
parse_fragment_printed w pre body (c ∷ s) free e = parse_fragment_cut w pre body (c ∷ s) free

-- The parts of the text, grouped as the constructor takes them off.
text_grouped :
    (u : Url)
    → IsPrintable u
    → url_to_string u
      ≡ u.scheme
        ++ (codes "://"
            ++ ((((u.domain_name ++ port_text u) ++ u.path_to_resource)
                  ++ query_text u.query_parameters)
                ++ anchor_text u.anchor))
unfolding url_to_string
text_grouped u p = rw (scheme_shown, print_domain_lem u p.domain) (simp append_assoc)
  where
    scheme_shown : is_empty u.scheme ≡ false
    scheme_shown = rw p.scheme_shape

body : Url → Bytes
body u = ((u.domain_name ++ port_text u) ++ u.path_to_resource) ++ query_text u.query_parameters

parts_read :
    (u : Url)
    → IsPrintable u
    → parse_parts (u.scheme ++ (codes "://" ++ (body u ++ anchor_text u.anchor))) ≡ ok u
unfolding parse_parts body
parts_read u p = rw (
  parse_scheme_cut u.scheme (body u ++ anchor_text u.anchor) found,
  p.scheme_lower,
  ← append_assoc u.scheme (codes "://") (body u ++ anchor_text u.anchor),
  parse_fragment_printed (record fresh { scheme = u.scheme }) pre (body u) u.anchor body_no_anchor
      refl,
  parse_query_printed (record fresh { scheme = u.scheme; anchor = u.anchor }) pre front
      u.query_parameters front_no_query refl p.params_sorted p.params,
  p.path_shape,
  authority_printed u
      (record fresh { scheme = u.scheme; anchor = u.anchor; query_parameters = u.query_parameters })
      pre p.path_rest p.domain refl p.port_set p.port_bound,
)
  where
    pre : Bytes
    pre = u.scheme ++ codes "://"

    front : Bytes
    front = (u.domain_name ++ port_text u) ++ u.path_to_resource

    front_no_query : Lacks b'?' front
    front_no_query =
        Lacks-append b'?' _ _
          (authority-Lacks b'?' u p.domain.no_query (unfold is_digit in refl) (omega arith))
          p.path_no_query

    body_no_anchor : Lacks b'#' (front ++ query_text u.query_parameters)
    body_no_anchor =
        Lacks-append b'#' front _
          (Lacks-append b'#' _ _
            (authority-Lacks b'#' u p.domain.no_anchor (unfold is_digit in refl) (omega arith))
            p.path_no_anchor)
          p.params_no_anchor

    found :
        find_text (codes "://") (u.scheme ++ (codes "://" ++ (body u ++ anchor_text u.anchor)))
        ≡ some (length u.scheme)
    found =
        find_text-append (codes "://") (codes ":/") b'/' u.scheme (body u ++ anchor_text u.anchor)
          refl p.scheme_ends

nonempty : (s : Bytes) → is_empty s ≡ false → parse_url s ≡ parse_parts s
unfolding parse_url
nonempty s h = rw h

-- A URL with a scheme in lower case, a plain domain, a port from 1 to 65535, a path that begins
-- with '/' and holds neither '?' nor '#', and ordered parameters without the bytes that separate
-- them (`IsPrintable`) is printed and read back as it was: scheme, domain, port, path, parameters
-- and anchor.
pub parse_url-url_to_string : (u : Url) → IsPrintable u → parse_url (url_to_string u) ≡ ok u
unfolding body
parse_url-url_to_string u p =
    ap parse_url (text_grouped u p)
    ∙ nonempty _ (scheme_first u.scheme _ p.scheme_shape)
    ∙ parts_read u p
  where
    scheme_first : (s t : Bytes) → s ≡ p.scheme_first ∷ p.scheme_rest → is_empty (s ++ t) ≡ false
    scheme_first s t e = rw e
