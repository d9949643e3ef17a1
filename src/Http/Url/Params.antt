-- ===== src/Http/Url/Params.antt =====
-- QueryView parameters that are printed are read back.
use fion.Prelude.{
  ℕ, true, false, [], ◌∷◌, ◌++◌, ◌≡◌, ◌≢◌, refl, sym, ap, ◌∙◌, arith, if◌then◌else◌, length, drop,
  foldl, append_assoc, append-nil, take-length, drop-length-add, drop-zero,
}
use fion.Text.{Bytes, codes, get_lines, is_empty}
use fion.Text.Find.{Lacks, Lacks-append, Lacks-cons, find_byte-append}
use fion.Text.Lines.{get_lines-append, get_lines_last}
use fion.Dict.{Dict, assign}
use fion.Dict.Sorted.{IsSorted, assign_all_lem}
use fion.Http.Url.{Url, add_param, parse_query}
use fion.Http.Url.Print.{print_params}
use fion.Http.Url.Parts.{parse_query_absent, parse_query_cut}

-- A parameter that a query can hold. The value may hold '='; no text may hold '&', and the key no '='.
abbrev pub IsParam : Bytes → Bytes → Type 0
IsParam key value = (key ≢ []) × Lacks b'=' key × Lacks b'&' key × Lacks b'&' value

abbrev pub AreParams : Dict Bytes → Type 0
AreParams [] = Unit {0}
AreParams ((key, value) ∷ rest) = IsParam key value × AreParams rest

abbrev printed : Bytes → Bytes → Bytes
printed key value = key ++ (if is_empty value then [] else codes "=" ++ value)

drop_one : (a : ℕ) (s : Bytes) → drop 1 (a ∷ s) ≡ s
unfolding drop
drop_one a s = refl

add_param-printed :
    (d : Dict Bytes) (key value : Bytes)
    → IsParam key value
    → add_param d (printed key value) ≡ assign key value d
unfolding add_param
add_param-printed d [] value p = absurd (p.0 refl)
add_param-printed d (c ∷ key) [] p =
    ap (add_param d) {x = printed (c ∷ key) []} (append-nil (c ∷ key)) ∙ rw (p.1, add_param)
add_param-printed d (c ∷ key) (x ∷ value) p =
    rw (find_byte-append b'=' (c ∷ key) (x ∷ value) p.1, add_param)
      (rw (
        drop-zero,
        take-length (c ∷ key) (b'=' ∷ x ∷ value),
        drop-length-add 1 (c ∷ key) (b'=' ∷ x ∷ value),
        drop_one,
      ))

printed-Lacks : (key value : Bytes) → IsParam key value → Lacks b'&' (printed key value)
printed-Lacks key [] p = rw append-nil p.2
printed-Lacks key (x ∷ value) p =
    Lacks-append b'&' key _ p.2 (Lacks-cons b'&' b'=' _ (omega arith) p.3)

-- The text of the parameters behind the first.
more_params-cons :
    (key value : Bytes) (rest : Dict Bytes)
    → print_params false ((key, value) ∷ rest) ≡ b'&' ∷ print_params true ((key, value) ∷ rest)
unfolding print_params
more_params-cons key value rest = refl

print_params-one : (key value : Bytes) → print_params true ((key, value) ∷ []) ≡ printed key value
unfolding print_params
print_params-one key value = rw append-nil

print_params-more :
    (key value k v : Bytes) (rest : Dict Bytes)
    → print_params true ((key, value) ∷ (k, v) ∷ rest)
      ≡ printed key value ++ (b'&' ∷ print_params true ((k, v) ∷ rest))
unfolding print_params
print_params-more key value k v rest = sym (append_assoc key _ _)

get_lines_whole : (d : ℕ) (s : Bytes) → s ≢ [] → Lacks d s → get_lines d s ≡ s ∷ []
get_lines_whole d [] ne h = absurd (ne refl)
get_lines_whole d (c ∷ s) ne h = get_lines_last d c s h

printed-ne_nil : (key value : Bytes) → key ≢ [] → printed key value ≢ []
printed-ne_nil [] value h e = absurd (h refl)
printed-ne_nil (c ∷ key) value h e = cc e

params_read :
    (d : Dict Bytes) (key value : Bytes) (rest : Dict Bytes)
    → AreParams ((key, value) ∷ rest)
    → foldl add_param d (get_lines b'&' (print_params true ((key, value) ∷ rest)))
      ≡ foldl (λ m e. assign e.0 e.1 m) d ((key, value) ∷ rest)
params_read d key value [] p = rw (
  print_params-one,
  get_lines_whole b'&' (printed key value) (printed-ne_nil key value p.0.0)
      (printed-Lacks key value p.0),
  add_param-printed d key value p.0,
)
params_read d key value ((k, v) ∷ rest) p =
    rw
      (print_params-more, get_lines-append b'&' (printed key value) _ (printed-Lacks key value p.0))
      (ap (λ m. foldl add_param m (get_lines b'&' (print_params true ((k, v) ∷ rest))))
          (add_param-printed d key value p.0)
        ∙ params_read (assign key value d) k v rest p.1)

-- The query as `toString` prints it.
abbrev pub query_text : Dict Bytes → Bytes
query_text ps = if is_empty ps then [] else codes "?" ++ print_params true ps

-- The query of a printed URL is read as its parameters.
pub parse_query_printed :
    (u : Url) (pre body : Bytes) (ps : Dict Bytes)
    → Lacks b'?' body
    → u.query_parameters ≡ []
    → IsSorted ps
    → AreParams ps
    → parse_query u (pre ++ (body ++ query_text ps)) (length pre)
      ≡ (record u { query_parameters = ps }, pre ++ body)
parse_query_printed u pre body [] free e s p =
    rw (append-nil body, parse_query_absent u pre body free)
      (λ i. (record u { query_parameters = e i }, pre ++ body))
parse_query_printed u pre body ((k, v) ∷ ps) free e s p =
    parse_query_cut u pre body (print_params true ((k, v) ∷ ps)) free
    ∙ rw (e, params_read [] k v ps p, assign_all_lem ((k, v) ∷ ps) s)
