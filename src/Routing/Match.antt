-- ===== src/Routing/Match.antt =====
-- `matchPattern`: what it accepts, and the parameters that it reports.
use fion.Prelude.{
  subst, suc, true, false, List, [], ◌∷◌, ◌++◌, ◌≡◌, ◌↔◌, refl, sym, ap, ◌∙◌, arith, ◌==◌, length,
  Bool-cases, inl, inr,
}
use fion.Text.{Bytes, equal, substr_from}
use fion.Text.Equal.{equal_iff, equal_refl}
use fion.Dict.{Dict, assign}
use fion.Routing.{split_path, is_param, MatchResult, match_segments, match_pattern}

-- A list of path segments fits a list of pattern segments: they have one length, and each pattern
-- segment is a parameter or the path segment itself.
pub data Fits : List Bytes → List Bytes → Type 0 where
  fits_end : Fits [] []
  fits_param :
      {p s : Bytes} {ps ss : List Bytes} → is_param p ≡ true → Fits ps ss → Fits (p ∷ ps) (s ∷ ss)
  fits_text :
      {s : Bytes} {ps ss : List Bytes} → is_param s ≡ false → Fits ps ss → Fits (s ∷ ps) (s ∷ ss)

pub Fits-length : {ps ss : List Bytes} → Fits ps ss → length ps ≡ length ss
Fits-length fits_end = refl
Fits-length (fits_param e h) = ap suc (Fits-length h)
Fits-length (fits_text e h) = ap suc (Fits-length h)

matched_of_Fits :
    {ps ss : List Bytes}
    → Fits ps ss
    → (keys : List Bytes) (d : Dict Bytes) → (match_segments ps ss keys d).matched ≡ true
unfolding match_segments
matched_of_Fits fits_end keys d = refl
matched_of_Fits (fits_param e h) keys d = rw e (matched_of_Fits h _ _)
matched_of_Fits (fits_text {s = s} e h) keys d = rw (e, equal_refl s) (matched_of_Fits h keys d)

-- A parameter takes any segment; a text takes only itself.
pub step_param :
    (p s : Bytes) (ps ss : List Bytes) (keys : List Bytes) (d : Dict Bytes)
    → is_param p ≡ true
    → match_segments (p ∷ ps) (s ∷ ss) keys d
      ≡ match_segments ps ss (keys ++ (substr_from p 1 ∷ [])) (assign (substr_from p 1) s d)
unfolding match_segments
step_param p s ps ss keys d e = rw e refl

pub step_same :
    (p s : Bytes) (ps ss : List Bytes) (keys : List Bytes) (d : Dict Bytes)
    → is_param p ≡ false
    → equal p s ≡ true
    → match_segments (p ∷ ps) (s ∷ ss) keys d ≡ match_segments ps ss keys d
unfolding match_segments
step_same p s ps ss keys d e same = rw (e, same) refl

step_differs :
    (p s : Bytes) (ps ss : List Bytes) (keys : List Bytes) (d : Dict Bytes)
    → is_param p ≡ false
    → equal p s ≡ false
    → (match_segments (p ∷ ps) (s ∷ ss) keys d).matched ≡ false
unfolding match_segments
step_differs p s ps ss keys d e same = rw (e, same) refl

Fits-of_matched :
    (ps ss : List Bytes)
    → length ps ≡ length ss
    → (keys : List Bytes) (d : Dict Bytes) → (match_segments ps ss keys d).matched ≡ true
    → Fits ps ss
Fits-of_matched [] [] e keys d h = fits_end
Fits-of_matched [] (s ∷ ss) e keys d h = absurd (omega arith)
Fits-of_matched (p ∷ ps) [] e keys d h = absurd (omega arith)
Fits-of_matched (p ∷ ps) (s ∷ ss) e keys d h = elim (Bool-cases (is_param p)) [
  | inl named ↦ fits_param named (
      Fits-of_matched ps ss (omega arith) _ _
        (sym (ap (λ (r : MatchResult). r.matched) (step_param p s ps ss keys d named)) ∙ h))
  | inr plain ↦ elim (Bool-cases (equal p s)) [
    | inl same ↦
        subst (λ t. Fits (p ∷ ps) (t ∷ ss)) ((equal_iff p s).0 same)
          (fits_text plain (
            Fits-of_matched ps ss (omega arith) _ _ (
              sym (ap (λ (r : MatchResult). r.matched) (step_same p s ps ss keys d plain same))
              ∙ h)))
    | inr differs ↦ cc (step_differs p s ps ss keys d plain differs, h)
  ]
]

-- `matchPattern` holds exactly if the segments of the path fit those of the pattern.
pub match_pattern_iff :
    (pattern path : Bytes) (keys : List Bytes) (d : Dict Bytes)
    → ((match_pattern pattern path keys d).matched ≡ true)
      ↔ Fits (split_path pattern) (split_path path)
unfolding match_pattern
match_pattern_iff pattern path keys d =
    elim (Bool-cases (length (split_path pattern) == length (split_path path))) [
      | inl same ↦
          rw same (Fits-of_matched _ _ (ground arith) keys d, λ h. matched_of_Fits h keys d)
      | inr differs ↦ rw differs ((λ h. cc h), λ h. absurd (ground (arith, Fits-length h)))
    ]
