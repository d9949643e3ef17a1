-- ===== src/Http/Headers/Head.antt =====
-- The printed fields are lines of a head.
use fion.Prelude.{List, [], ◌∷◌, ◌++◌, ◌≡◌, ◌≢◌, refl, arith, append_assoc, All}
use fion.Text.{Bytes, codes}
use fion.Text.Find.{Lacks, Lacks-append, Lacks-cons}
use fion.Text.Crlf.{IsLine, head_text}
use fion.Dict.{Dict}
use fion.Http.Headers.{print_fields}
use fion.Http.Headers.RoundTrip.{IsField, AreFields}

-- A field with no byte that ends a line, in its name or in its value.
abbrev pub IsCleanField : Bytes → Bytes → Type 0
IsCleanField key value = IsField key value × Lacks b'\r' key × Lacks b'\r' value

abbrev pub AreCleanFields : Dict Bytes → Type 0
AreCleanFields [] = Unit {0}
AreCleanFields ((key, value) ∷ rest) = IsCleanField key value × AreCleanFields rest

pub AreFields-of_clean : (es : Dict Bytes) → AreCleanFields es → AreFields es
AreFields-of_clean [] c = tt
AreFields-of_clean ((key, value) ∷ rest) c = (c.0.0, AreFields-of_clean rest c.1)

abbrev pub field_lines : Dict Bytes → List Bytes
field_lines [] = []
field_lines ((key, value) ∷ rest) = (key ++ (codes ": " ++ value)) ∷ field_lines rest

pub print_fields-head_text : (es : Dict Bytes) → print_fields es ≡ head_text (field_lines es)
unfolding print_fields
print_fields-head_text [] = refl
print_fields-head_text ((key, value) ∷ rest) = rw (print_fields-head_text rest) (simp append_assoc)

field_line-ne_nil : (key value : Bytes) → (key ++ (codes ": " ++ value)) ≢ []
field_line-ne_nil [] value e = cc e
field_line-ne_nil (c ∷ key) value e = cc e

pub field_lines-IsLine : (es : Dict Bytes) → AreCleanFields es → All IsLine (field_lines es)
field_lines-IsLine [] c = tt
field_lines-IsLine ((key, value) ∷ rest) c = (
  (
    field_line-ne_nil key value,
    Lacks-append b'\r' key _ c.0.1
        (Lacks-cons b'\r' b':' _ (omega arith) (Lacks-cons b'\r' b' ' value (omega arith) c.0.2)),
  ),
  field_lines-IsLine rest c.1,
)
