-- ===== src/Routing/Params.antt =====
-- `matchPattern`: the values that it reports for the parameters of the pattern.
use fion.Prelude.{
  true, false, Option, some, List, [], ◌∷◌, ◌++◌, ◌≡◌, ◌≢◌, subst, refl, sym, ◌∙◌, if◌then◌else◌,
  map, arith, length, All,
}
use fion.Text.{Bytes, substr_from}
use fion.Text.Equal.{equal_refl, equal_ne}
use fion.Dict.{Dict, assign, lookup}
use fion.Dict.Lookup.{lookup-assign}
use fion.Routing.{split_path, is_param, MatchResult, match_segments, match_pattern}
use fion.Routing.Match.{
  Fits, fits_end, fits_param, fits_text, step_param, step_same, match_pattern_iff, Fits-length,
}

-- The key of a parameter segment: its text behind the ':'.
abbrev pub key_of : Bytes → Bytes
key_of p = substr_from p 1

-- No parameter of the segments has the key.
abbrev pub IsFresh : Bytes → List Bytes → Type 0
IsFresh k ps = All (λ p. is_param p ≡ true → key_of p ≢ k) ps

-- The parameters of the segments have different keys.
abbrev pub AreDistinct : List Bytes → Type 0
AreDistinct [] = Unit {0}
AreDistinct (p ∷ ps) = (is_param p ≡ true → IsFresh (key_of p) ps) × AreDistinct ps

-- What stands in a path for a segment of the pattern, by the reported values.
abbrev pub value_of : Dict Bytes → Bytes → Option Bytes
value_of d p = if is_param p then lookup (key_of p) d else some p

-- A key that no parameter has keeps its value.
kept :
    {ps ss : List Bytes}
    → Fits ps ss
    → (k : Bytes) (keys : List Bytes) (d : Dict Bytes) → IsFresh k ps
    → lookup k (match_segments ps ss keys d).params ≡ lookup k d
unfolding match_segments
kept fits_end k keys d h = refl
kept (fits_param {p = p} {s = s} e f) k keys d h = rw e (kept f k _ _ h.1 ∙ other)
  where
    other : lookup k (assign (key_of p) s d) ≡ lookup k d
    other =
        lookup-assign (key_of p) k s d
        ∙ ground (arith, equal_ne k (key_of p) (λ same. h.0 e (sym same)))
kept (fits_text {s = s} e f) k keys d h = rw (e, equal_refl s) (kept f k keys d h.1)

head_param :
    (p s : Bytes) (ps ss : List Bytes) (d : Dict Bytes)
    → is_param p ≡ true
    → lookup (key_of p) d ≡ some s
    → map (value_of d) ps ≡ map some ss
    → map (value_of d) (p ∷ ps) ≡ map some (s ∷ ss)
head_param p s ps ss d e found rest = rw (e, found, rest) refl

head_text :
    (s : Bytes) (ps ss : List Bytes) (d : Dict Bytes)
    → is_param s ≡ false
    → map (value_of d) ps ≡ map some ss
    → map (value_of d) (s ∷ ps) ≡ map some (s ∷ ss)
head_text s ps ss d e rest = rw (e, rest) refl

assigned : (k v : Bytes) (d : Dict Bytes) → lookup k (assign k v d) ≡ some v
assigned k v d = lookup-assign k k v d ∙ rw (equal_refl k) refl

values :
    {ps ss : List Bytes}
    → Fits ps ss
    → (keys : List Bytes) (d : Dict Bytes) → AreDistinct ps
    → map (value_of (match_segments ps ss keys d).params) ps ≡ map some ss
unfolding match_segments
values fits_end keys d h = refl
values {ps = p ∷ ps} {ss = s ∷ ss} (fits_param e f) keys d h =
    let rest = values f (keys ++ (key_of p ∷ [])) (assign (key_of p) s d) h.1 in
    let found = kept f (key_of p) (keys ++ (key_of p ∷ [])) (assign (key_of p) s d) (h.0 e) in
    subst (λ (r : MatchResult). map (value_of r.params) (p ∷ ps) ≡ map some (s ∷ ss))
      (sym (step_param p s ps ss keys d e))
      (head_param p s ps ss _ e (found ∙ assigned (key_of p) s d) rest)
values {ps = _ ∷ ps} {ss = _ ∷ ss} (fits_text {s = s} e f) keys d h =
    subst (λ (r : MatchResult). map (value_of r.params) (s ∷ ps) ≡ map some (s ∷ ss))
      (sym (step_same s s ps ss keys d e (equal_refl s)))
      (head_text s ps ss _ e (values f keys d h.1))

params_of_fits :
    (pattern path : Bytes) (keys : List Bytes) (d : Dict Bytes)
    → length (split_path pattern) ≡ length (split_path path)
    → match_pattern pattern path keys d
      ≡ match_segments (split_path pattern) (split_path path) keys d
unfolding match_pattern
params_of_fits pattern path keys d e = ground (arith, e)

-- If `matchPattern` accepts a path and the parameters of the pattern have different keys, then the
-- pattern with each parameter replaced by the value that is reported for it is the path, segment by
-- segment.
pub match_pattern_values :
    (pattern path : Bytes) (keys : List Bytes) (d : Dict Bytes)
    → AreDistinct (split_path pattern)
    → (match_pattern pattern path keys d).matched ≡ true
    → map (value_of (match_pattern pattern path keys d).params) (split_path pattern)
      ≡ map some (split_path path)
match_pattern_values pattern path keys d distinct h =
    let f = (match_pattern_iff pattern path keys d).0 h in
    subst
      (λ (r : MatchResult).
        map (value_of r.params) (split_path pattern) ≡ map some (split_path path))
      (sym (params_of_fits pattern path keys d (Fits-length f))) (values f keys d distinct)
