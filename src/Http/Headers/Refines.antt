-- ===== src/Http/Headers/Refines.antt =====
-- What `Headers` promises to its callers: a map from names to values. The promise is a function, and
-- the calls of a program on it; what the order of the fields is, and that they are a list, is not
-- seen.
use mathlib.Core.Path.{ap₂}
use fion.Prelude.{
  Bool, true, false, Option, none, some, List, [], ◌∷◌, ◌++◌, ◌≡◌, refl, ap, ◌∙◌, arith,
  if◌then◌else◌,
}
use fion.Prelude.Results.{Exception, Result, ok, err}
use fion.Text.{Bytes, codes, equal}
use fion.Dict.{lookup}
use fion.Http.Headers.{Headers, set, has, get, get_optional, get_or_default, remove, clear}
use fion.Http.Headers.Laws.{get_optional-set, remove_lem}

-- A call of a method.
pub data HeaderCall : Type 0 where
  set_call : Bytes → Bytes → HeaderCall
  remove_call has_call get_call optional_call : Bytes → HeaderCall
  clear_call : HeaderCall
  default_call : Bytes → Bytes → HeaderCall

-- What a call returns.
pub data HeaderAnswer : Type 0 where
  nothing : HeaderAnswer
  flag_answer : Bool → HeaderAnswer
  value_answer : Bytes → HeaderAnswer
  thrown_answer : Exception → HeaderAnswer
  option_answer : Option Bytes → HeaderAnswer

-- The calls of the code.
abbrev answer_of : Result Bytes → HeaderAnswer
answer_of (ok v) = value_answer v
answer_of (err e) = thrown_answer e

unfoldable pub call_headers : Headers → HeaderCall → Headers × HeaderAnswer
call_headers h (set_call key value) = (set h key value, nothing)
call_headers h (remove_call key) = ((remove h key).0, flag_answer (remove h key).1)
call_headers h (has_call key) = (h, flag_answer (has h key))
call_headers h (get_call key) = (h, answer_of (get h key))
call_headers h (optional_call key) = (h, option_answer (get_optional h key))
call_headers h clear_call = (clear h, nothing)
call_headers h (default_call key d) = (h, value_answer (get_or_default h key d))

unfoldable pub run_headers : List HeaderCall → Headers → Headers × List HeaderAnswer
run_headers [] h = (h, [])
run_headers (c ∷ rest) h =
    let (next, answer) = call_headers h c in
    let (last, answers) = run_headers rest next in (last, answer ∷ answers)

-- The calls of the promise.
abbrev pub Fields : Type 0
Fields = Bytes → Option Bytes

abbrev is_there : Option Bytes → Bool
is_there none = false
is_there (some v) = true

abbrev get_answer : Bytes → Option Bytes → HeaderAnswer
get_answer key none = thrown_answer (Exception.invalid_argument (codes "Header not found: " ++ key))
get_answer key (some v) = value_answer v

abbrev default_answer : Bytes → Option Bytes → HeaderAnswer
default_answer d none = value_answer d
default_answer d (some v) = value_answer v

unfoldable pub call_fields : Fields → HeaderCall → Fields × HeaderAnswer
call_fields f (set_call key value) = ((λ j. if equal j key then some value else f j), nothing)
call_fields f (remove_call key) =
    ((λ j. if equal j key then none else f j), flag_answer (is_there (f key)))
call_fields f (has_call key) = (f, flag_answer (is_there (f key)))
call_fields f (get_call key) = (f, get_answer key (f key))
call_fields f (optional_call key) = (f, option_answer (f key))
call_fields f clear_call = ((λ j. none), nothing)
call_fields f (default_call key d) = (f, default_answer d (f key))

unfoldable pub run_fields : List HeaderCall → Fields → Fields × List HeaderAnswer
run_fields [] f = (f, [])
run_fields (c ∷ rest) f =
    let (next, answer) = call_fields f c in
    let (last, answers) = run_fields rest next in (last, answer ∷ answers)

-- The fields are those of the map.
abbrev pub Holds : Headers → Fields → Type 0
Holds h f = (j : Bytes) → get_optional h j ≡ f j

has_eq : (h : Headers) (key : Bytes) → has h key ≡ is_there (get_optional h key)
unfolding has get_optional
has_eq h key = ground arith

get_eq : (h : Headers) (key : Bytes) → answer_of (get h key) ≡ get_answer key (get_optional h key)
unfolding get get_optional
get_eq h key = ground arith

default_eq :
    (h : Headers) (key d : Bytes)
    → value_answer (get_or_default h key d) ≡ default_answer d (get_optional h key)
unfolding get_or_default get_optional
default_eq h key d = ground arith

one_call :
    (c : HeaderCall) (h : Headers) (f : Fields)
    → Holds h f
    → Holds (call_headers h c).0 (call_fields f c).0 × ((call_headers h c).1 ≡ (call_fields f c).1)
unfolding call_headers call_fields clear get_optional lookup
one_call (set_call key value) h f same =
    ((λ j. get_optional-set h key value j ∙ ground (arith, same j)), refl)
one_call (remove_call key) h f same = (
  (λ j. (remove_lem h key j).0 ∙ ground (arith, same j)),
  ap (λ (b : Bool). flag_answer b)
      ((remove_lem h key key).1 ∙ has_eq h key ∙ ap is_there (same key)),
)
one_call (has_call key) h f same =
    (same, ap (λ (b : Bool). flag_answer b) (has_eq h key ∙ ap is_there (same key)))
one_call (get_call key) h f same = (same, get_eq h key ∙ ap (get_answer key) (same key))
one_call (optional_call key) h f same =
    (same, ap (λ (o : Option Bytes). option_answer o) (same key))
one_call clear_call h f same = ((λ j. refl), refl)
one_call (default_call key d) h f same =
    (same, default_eq h key d ∙ ap (default_answer d) (same key))

-- Any calls of the methods on fields that are those of a map from names to values: the calls return,
-- one after the other, what they return on the map, exceptions and their texts included, and the
-- fields are those of the map at the end.
pub run_headers_refines :
    (calls : List HeaderCall) (h : Headers) (f : Fields)
    → Holds h f
    → Holds (run_headers calls h).0 (run_fields calls f).0
      × ((run_headers calls h).1 ≡ (run_fields calls f).1)
unfolding run_headers run_fields
run_headers_refines [] h f same = (same, refl)
run_headers_refines (c ∷ rest) h f same =
    let (next, answer) = one_call c h f same in
    let (last, answers) = run_headers_refines rest (call_headers h c).0 (call_fields f c).0 next in
    (last, ap₂ (λ (a : HeaderAnswer) (l : List HeaderAnswer). a ∷ l) answer answers)
