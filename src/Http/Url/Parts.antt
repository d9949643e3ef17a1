-- ===== src/Http/Url/Parts.antt =====
-- What each helper of the constructor does to a text whose part before `pos` is `pre`.
use fion.Prelude.{
  ℕ, ◌+◌, ◌-◌, some, [], ◌∷◌, ◌++◌, ◌≡◌, refl, ap, ◌∙◌, sym, arith, if◌then◌else◌, length, foldl,
  drop-zero, take-length, drop-length, drop-length-add, length-append, append_assoc, subst,
}
use fion.Text.{Bytes, codes, find_text, get_lines}
use fion.Text.Find.{
  Lacks, LacksText, absent, cut, CutText, find_byte-Cut, find_text-CutText, find_byte-append,
  find_byte_from-append, take_found, drop_found, Lacks-left,
}
use fion.Text.Lines.{get_lines-nil}
use fion.Http.Url.{
  Url, fresh, to_lower_copy, parse_scheme, parse_fragment, parse_query, add_param,
  starts_with_slash, split_path_start,
}

-- Either the byte is not behind `pre`, or the text is cut at its first place there.
pub parse_fragment_absent :
    (u : Url) (pre rest : Bytes)
    → Lacks b'#' rest
    → parse_fragment u (pre ++ rest) (length pre) ≡ (u, pre ++ rest)
unfolding parse_fragment
parse_fragment_absent u pre rest h = rw (find_byte_from-append b'#' pre rest, h, parse_fragment)

pub parse_fragment_cut :
    (u : Url) (pre a b : Bytes)
    → Lacks b'#' a
    → parse_fragment u (pre ++ (a ++ (b'#' ∷ b))) (length pre) ≡ (record u { anchor = b }, pre ++ a)
unfolding parse_fragment
parse_fragment_cut u pre a b h =
    rw
      (
        find_byte_from-append b'#' pre (a ++ (b'#' ∷ b)),
        find_byte-append b'#' a b h,
        parse_fragment,
      )
      (rw (drop_found, drop-zero, take_found))

pub parse_query_absent :
    (u : Url) (pre rest : Bytes)
    → Lacks b'?' rest
    → parse_query u (pre ++ rest) (length pre) ≡ (u, pre ++ rest)
unfolding parse_query
parse_query_absent u pre rest h = rw (find_byte_from-append b'?' pre rest, h, parse_query)

pub parse_query_cut :
    (u : Url) (pre a b : Bytes)
    → Lacks b'?' a
    → parse_query u (pre ++ (a ++ (b'?' ∷ b))) (length pre) ≡ (
      record u { query_parameters = foldl add_param u.query_parameters (get_lines b'&' b) },
      pre ++ a,
    )
unfolding parse_query
parse_query_cut u pre a b h =
    rw (find_byte_from-append b'?' pre (a ++ (b'?' ∷ b)), find_byte-append b'?' a b h, parse_query)
      (rw (drop_found, drop-zero, take_found))

pub split_path_start_absent :
    (u : Url) (pre rest : Bytes)
    → Lacks b'/' rest
    → split_path_start u (pre ++ rest) (length pre)
      ≡ (record u { path_to_resource = codes "/" }, rest)
unfolding split_path_start
split_path_start_absent u pre rest h =
    rw (find_byte_from-append b'/' pre rest, h, split_path_start) (rw drop-length)

add_sub_left : (m n : ℕ) → m + n - m ≡ n
add_sub_left m n = omega arith

pub split_path_start_cut :
    (u : Url) (pre a b : Bytes)
    → Lacks b'/' a
    → split_path_start u (pre ++ (a ++ (b'/' ∷ b))) (length pre)
      ≡ (record u { path_to_resource = b'/' ∷ b }, a)
unfolding split_path_start
split_path_start_cut u pre a b h =
    rw
      (
        find_byte_from-append b'/' pre (a ++ (b'/' ∷ b)),
        find_byte-append b'/' a b h,
        split_path_start,
      )
      (rw (drop-length-add, drop-length, add_sub_left, drop-length, take-length))

-- The scheme is what stands before the first "://", wherever that is.
pub parse_scheme_cut :
    (a b : Bytes)
    → find_text (codes "://") (a ++ (codes "://" ++ b)) ≡ some (length a)
    → parse_scheme fresh (a ++ (codes "://" ++ b))
      ≡ (record fresh { scheme = to_lower_copy a }, length (a ++ codes "://"))
unfolding parse_scheme
parse_scheme_cut a b h = rw (h, parse_scheme) (rw (drop-zero, take-length, length-append))

-- With no "://" nothing is skipped.
pub parse_scheme_absent :
    (raw : Bytes)
    → LacksText (codes "://") raw
    → parse_scheme fresh raw
      ≡ (record fresh { scheme = if starts_with_slash raw then [] else codes "http" }, 0)
unfolding parse_scheme
parse_scheme_absent raw h = rw (h, parse_scheme) (ground arith)

-- Where the parts behind the scheme begin: the text before `pos` has length `pos`.
pub data SchemeView (raw : Bytes) : Type 0 where
  starts :
      (u : Url) (pre rest : Bytes)
      → raw ≡ pre ++ rest
      → parse_scheme fresh raw ≡ (u, length pre)
      → u ≡ record fresh { scheme = u.scheme }
      → SchemeView raw

pub parse_scheme-SchemeView : (raw : Bytes) → SchemeView raw
parse_scheme-SchemeView raw = elim (find_text-CutText (codes "://") raw) [
  | CutText.absent h ↦
      starts (record fresh { scheme = if starts_with_slash raw then [] else codes "http" }) [] raw
        refl (parse_scheme_absent raw h) refl
  | CutText.cut a b e f ↦
      starts (record fresh { scheme = to_lower_copy a }) (a ++ codes "://") b
        (e ∙ sym (append_assoc a (codes "://") b))
        (ap (parse_scheme fresh) e
          ∙ parse_scheme_cut a b (ap (find_text (codes "://")) (sym e) ∙ f))
        refl
]

-- What `parse_fragment` and `parse_query` leave to read, and what they set.
pub data FragmentView (u : Url) (pre rest : Bytes) : Type 0 where
  leaves :
      (anchor left : Bytes)
      → parse_fragment u (pre ++ rest) (length pre) ≡ (record u { anchor = anchor }, pre ++ left)
      → Lacks b'#' left
      → FragmentView u pre rest

pub parse_fragment-FragmentView : (u : Url) (pre rest : Bytes) → FragmentView u pre rest
parse_fragment-FragmentView u pre rest = elim (find_byte-Cut b'#' rest) [
  | absent h ↦ leaves u.anchor rest (parse_fragment_absent u pre rest h) h
  | cut a b e free f ↦
      leaves b a
        (ap (λ s. parse_fragment u (pre ++ s) (length pre)) e ∙ parse_fragment_cut u pre a b free)
        free
]

pub data QueryView (u : Url) (pre rest : Bytes) : Type 0 where
  leaves :
      (params left : Bytes)
      → parse_query u (pre ++ rest) (length pre) ≡ (
        record u { query_parameters = foldl add_param u.query_parameters (get_lines b'&' params) },
        pre ++ left,
      )
      → Lacks b'?' left
      → (Lacks b'#' rest → Lacks b'#' left)
      → QueryView u pre rest

pub parse_query-QueryView : (u : Url) (pre rest : Bytes) → QueryView u pre rest
parse_query-QueryView u pre rest = elim (find_byte-Cut b'?' rest) [
  | absent h ↦
      QueryView.leaves [] rest (parse_query_absent u pre rest h ∙ rw get_lines-nil) h (λ k. k)
  | cut a b e free f ↦
      QueryView.leaves b a
        (ap (λ s. parse_query u (pre ++ s) (length pre)) e ∙ parse_query_cut u pre a b free) free
        (λ k. Lacks-left b'#' a (b'?' ∷ b) (subst (Lacks b'#') e k))
]
