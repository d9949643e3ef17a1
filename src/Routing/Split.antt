-- ===== src/Routing/Split.antt =====
-- `splitPath`: the segments of a path.
use mathlib.Core.Path.{ap₂}
use fion.Prelude.{
  ℕ, zero, suc, ◌+◌, ◌-◌, ◌<◌, List, [], ◌∷◌, ◌++◌, ◌≡◌, ◌≢◌, refl, sym, ap, ◌∙◌, arith, ltb,
  if◌then◌else◌, length, length-append, append_assoc, append-nil, take-length, drop-length, All,
}
use fion.Text.{Bytes, get_lines}
use fion.Text.Find.{
  Lacks, absent, cut, find_byte-Cut, find_byte_from-append, find_byte-append, Lacks-nil,
}
use fion.Text.Lines.{get_lines-append, get_lines-nil, get_lines_last, get_lines-Lacks}
use fion.Routing.{split_from, split_path}

-- The texts that are not empty.
abbrev pub nonempty : List Bytes → List Bytes
nonempty [] = []
nonempty ([] ∷ l) = nonempty l
nonempty ((c ∷ s) ∷ l) = (c ∷ s) ∷ nonempty l

-- The pieces between the slashes, without the empty ones.
abbrev pub segments : Bytes → List Bytes
segments path = nonempty (get_lines b'/' path)

last_piece : (s : Bytes) → Lacks b'/' s → segments s ≡ (if ltb 0 (length s) then s ∷ [] else [])
last_piece [] h = rw get_lines-nil
last_piece (c ∷ s) h = rw (get_lines_last b'/' c s h) (ground arith)

first_piece :
    (a b : Bytes)
    → Lacks b'/' a
    → segments (a ++ (b'/' ∷ b)) ≡ (if ltb 0 (length a) then a ∷ segments b else segments b)
first_piece [] b h = rw (get_lines-append b'/' [] b h)
first_piece (c ∷ a) b h = rw (get_lines-append b'/' (c ∷ a) b h) (ground arith)

ltb_add : (m n : ℕ) → ltb m (m + n) ≡ ltb 0 n
ltb_add m n = ground arith

add_sub_left : (m n : ℕ) → m + n - m ≡ n
add_sub_left m n = omega arith

-- The text behind a '/' that was found, with what stands before it as the text passed over.
pass_slash :
    (f : ℕ) (pre a b : Bytes) {r : List Bytes}
    → split_from f ((pre ++ (a ++ (b'/' ∷ []))) ++ b) (length (pre ++ (a ++ (b'/' ∷ [])))) ≡ r
    → split_from f (pre ++ (a ++ (b'/' ∷ b))) (length pre + length a + 1) ≡ r
pass_slash f pre a b h = ap₂ (split_from f) (sym regroup) count ∙ h
  where
    regroup : (pre ++ (a ++ (b'/' ∷ []))) ++ b ≡ pre ++ (a ++ (b'/' ∷ b))
    regroup = simp append_assoc

    count : length pre + length a + 1 ≡ length (pre ++ (a ++ (b'/' ∷ [])))
    count = omega (arith, length-append pre (a ++ (b'/' ∷ [])), length-append a (b'/' ∷ []))

found_slash :
    (f : ℕ) (pre a b : Bytes)
    → Lacks b'/' a
    → split_from f (pre ++ (a ++ (b'/' ∷ b))) (length pre + length a + 1) ≡ segments b
    → split_from (suc f) (pre ++ (a ++ (b'/' ∷ b))) (length pre) ≡ segments (a ++ (b'/' ∷ b))
unfolding split_from
found_slash f pre a b free later =
    rw
      (find_byte_from-append b'/' pre (a ++ (b'/' ∷ b)), find_byte-append b'/' a b free, split_from)
      (rw (later, ltb_add (length pre) (length a), add_sub_left, drop-length, take-length)
        (sym (first_piece a b free)))

no_slash :
    (f : ℕ) (pre rest : Bytes)
    → Lacks b'/' rest
    → split_from (suc f) (pre ++ rest) (length pre) ≡ segments rest
unfolding split_from
no_slash f pre rest free =
    rw (find_byte_from-append b'/' pre rest, free, split_from)
      (rw (length-append pre rest, ltb_add (length pre) (length rest), drop-length)
        (sym (last_piece rest free)))

-- From a position in the path the loop gives the segments behind it, if the fuel exceeds what is
-- left of the path.
split_from-segments :
    (f : ℕ) (pre rest : Bytes)
    → length rest < f
    → split_from f (pre ++ rest) (length pre) ≡ segments rest
split_from-segments zero pre rest h = absurd (omega arith)
split_from-segments (suc f) pre rest h = elim (find_byte-Cut b'/' rest) [
  | absent free ↦ no_slash f pre rest free
  | cut a b e free found ↦
      let later = pass_slash f pre a b (
        split_from-segments f (pre ++ (a ++ (b'/' ∷ []))) b
          (omega (arith, ap length e, length-append a (b'/' ∷ b)))) in
      ap (λ s. split_from (suc f) (pre ++ s) (length pre)) e
      ∙ found_slash f pre a b free later
      ∙ ap segments (sym e)
]

-- The loop of `splitPath` ends, and gives the pieces between the slashes that are not empty.
pub split_path-segments : (path : Bytes) → split_path path ≡ segments path
unfolding split_path
split_path-segments path = split_from-segments (suc (length path)) [] path (omega arith)

-- A segment: not empty, and with no '/'.
abbrev pub IsSegment : Bytes → Type 0
IsSegment s = (s ≢ []) × Lacks b'/' s

nonempty-IsSegment : (l : List Bytes) → All (Lacks b'/') l → All IsSegment (nonempty l)
nonempty-IsSegment [] h = tt
nonempty-IsSegment ([] ∷ l) h = nonempty-IsSegment l h.1
nonempty-IsSegment ((c ∷ s) ∷ l) h = ((λ e. cc e, h.0), nonempty-IsSegment l h.1)

-- Every segment is one.
pub split_path-IsSegment : (path : Bytes) → All IsSegment (split_path path)
split_path-IsSegment path =
    rw (split_path-segments path) (nonempty-IsSegment _ (get_lines-Lacks b'/' path))

-- The path of a list of segments.
abbrev pub join : List Bytes → Bytes
join [] = []
join (s ∷ l) = b'/' ∷ (s ++ join l)

slash_first : (t : Bytes) → segments (b'/' ∷ t) ≡ segments t
slash_first t = first_piece [] t (Lacks-nil b'/')

-- A segment in front of a joined path is its first segment.
segment_first :
    (s : Bytes) (l : List Bytes) → IsSegment s → segments (s ++ join l) ≡ s ∷ segments (join l)
segment_first [] l h = absurd (h.0 refl)
segment_first (c ∷ s) [] h = ap segments (append-nil (c ∷ s)) ∙ last_piece (c ∷ s) h.1 ∙ last_alone
  where
    last_alone : (if ltb 0 (length (c ∷ s)) then (c ∷ s) ∷ [] else []) ≡ (c ∷ s) ∷ segments []
    last_alone = rw get_lines-nil (ground arith)
segment_first (c ∷ s) (m ∷ l) h =
    first_piece (c ∷ s) (m ++ join l) h.1
    ∙ positive
    ∙ ap (λ t. (c ∷ s) ∷ t) (sym (slash_first (m ++ join l)))
  where
    positive :
        (if ltb 0 (length (c ∷ s))
          then (c ∷ s) ∷ segments (m ++ join l)
          else segments (m ++ join l))
        ≡ (c ∷ s) ∷ segments (m ++ join l)
    positive = ground arith

segments-join : (l : List Bytes) → All IsSegment l → segments (join l) ≡ l
segments-join [] h = rw get_lines-nil
segments-join (s ∷ l) h =
    slash_first (s ++ join l) ∙ segment_first s l h.0 ∙ ap (λ t. s ∷ t) (segments-join l h.1)

-- Segments that are not empty and hold no '/', each behind a '/': the path of them is split into
-- these segments.
pub split_path-join : (l : List Bytes) → All IsSegment l → split_path (join l) ≡ l
split_path-join l h = split_path-segments (join l) ∙ segments-join l h
