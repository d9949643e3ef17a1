-- ===== src/Http/Url/Embedded.antt =====
-- A target that begins with '/' and holds "://" further on, as in a link that is passed on.
use fion.Prelude.{◌∷◌, ◌++◌, ◌≡◌, refl, arith, append_assoc}
use fion.Prelude.Results.{ok}
use fion.Text.{Bytes, codes}
use fion.Text.Find.{Lacks, LacksText, Lacks-append, Lacks-cons, find_text-append}
use fion.Http.Url.{
  Url, fresh, to_lower_copy, parse_parts, parse_url, default_port_for_scheme, port_or_80,
}
use fion.Http.Url.Parts.{parse_scheme_cut, parse_fragment_absent, parse_query_absent}
use fion.Http.Url.Host.{IsDomain, authority_alone}

-- A target of '/' and a text, "://", a plain domain and a path with neither '?' nor '#': the text
-- up to the first "://" becomes the scheme, although the target begins with '/'; the resource that
-- is found is the path of the link, and not the path of the target.
pub parse_url_embedded :
    (a domain p : Bytes)
    → LacksText (codes "://") ((b'/' ∷ a) ++ codes ":/")
    → IsDomain domain
    → Lacks b'?' p
    → Lacks b'#' p
    → parse_url ((b'/' ∷ a) ++ (codes "://" ++ (domain ++ (b'/' ∷ p))))
      ≡ ok (record fresh {
        scheme = to_lower_copy (b'/' ∷ a);
        domain_name = domain;
        port = port_or_80 (default_port_for_scheme (to_lower_copy (b'/' ∷ a)));
        path_to_resource = b'/' ∷ p;
      })
unfolding parse_url parse_parts
parse_url_embedded a domain p ends d no_query no_anchor = rw (
  parse_scheme_cut (b'/' ∷ a) left
      (find_text-append (codes "://") (codes ":/") b'/' (b'/' ∷ a) left refl ends),
  ← append_assoc (b'/' ∷ a) (codes "://") left,
  parse_fragment_absent start pre left
      (Lacks-append b'#' domain _ d.no_anchor (Lacks-cons b'#' b'/' p (omega arith) no_anchor)),
  parse_query_absent start pre left
      (Lacks-append b'?' domain _ d.no_query (Lacks-cons b'?' b'/' p (omega arith) no_query)),
  authority_alone start pre domain p d,
)
  where
    left : Bytes
    left = domain ++ (b'/' ∷ p)

    pre : Bytes
    pre = (b'/' ∷ a) ++ codes "://"

    start : Url
    start = record fresh { scheme = to_lower_copy (b'/' ∷ a) }
