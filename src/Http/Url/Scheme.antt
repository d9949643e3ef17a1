-- ===== src/Http/Url/Scheme.antt =====
-- Targets that begin with '/': what a request line mostly holds.
use fion.Prelude.{[], ◌∷◌, ◌≡◌, arith, drop-zero}
use fion.Prelude.Results.{ok}
use fion.Text.{Bytes, codes}
use fion.Text.Find.{Lacks, LacksText, Lacks-cons}
use fion.Http.Url.{Url, fresh, parse_parts, parse_url, parse_authority_and_path}
use fion.Http.Url.Parts.{parse_scheme_absent, parse_fragment_absent, parse_query_absent}

path_kept :
    (u : Url) (p : Bytes)
    → parse_authority_and_path u (b'/' ∷ p) 0 ≡ ok (record u { path_to_resource = b'/' ∷ p })
unfolding parse_authority_and_path
path_kept u p = rw drop-zero

-- The same for a target that is a path alone.
pub parse_url_path :
    (p : Bytes)
    → LacksText (codes "://") (b'/' ∷ p)
    → Lacks b'?' p
    → Lacks b'#' p
    → parse_url (b'/' ∷ p) ≡ ok (record fresh { path_to_resource = b'/' ∷ p })
unfolding parse_url parse_parts
parse_url_path p no_scheme no_query no_anchor =
    rw
      (
        parse_scheme_absent (b'/' ∷ p) no_scheme,
        parse_fragment_absent fresh [] (b'/' ∷ p) (Lacks-cons b'#' b'/' p (omega arith) no_anchor),
        parse_query_absent fresh [] (b'/' ∷ p) (Lacks-cons b'?' b'/' p (omega arith) no_query),
      )
      (path_kept fresh p)
