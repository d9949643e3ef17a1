-- ===== src/Http/Status/Laws.antt =====
-- The numbers and the phrases of the status codes.
use fion.Prelude.{
  ℕ, ◌≡◌, refl, sym, ap, ◌∙◌, arith, ◌≤◌, ◌<◌, List, [], ◌∷◌, Option, none, some, ◌==◌,
  if◌then◌else◌,
}
use mathlib.Core.Option.{some-injective}
use fion.Text.{Bytes, equal}
use fion.Http.Status.{StatusCode, code_of, status_code_to_string}

-- Every status code has three digits and a class from 1 to 5.
pub code_of_bounds : (s : StatusCode) → (100 ≤ code_of s) × (code_of s < 600)
unfolding code_of
code_of_bounds StatusCode.continue = omega arith
code_of_bounds _ = omega arith

all_codes : List StatusCode
all_codes =
    StatusCode.continue ∷ StatusCode.switching_protocols ∷ StatusCode.processing
    ∷ StatusCode.early_hints ∷ StatusCode.ok ∷ StatusCode.created ∷ StatusCode.accepted
    ∷ StatusCode.non_authoritative_information ∷ StatusCode.no_content ∷ StatusCode.reset_content
    ∷ StatusCode.partial_content ∷ StatusCode.multi_status ∷ StatusCode.already_reported
    ∷ StatusCode.im_used ∷ StatusCode.multiple_choices ∷ StatusCode.moved_permanently
    ∷ StatusCode.found ∷ StatusCode.see_other ∷ StatusCode.not_modified ∷ StatusCode.use_proxy
    ∷ StatusCode.unused ∷ StatusCode.temporary_redirect ∷ StatusCode.permanent_redirect
    ∷ StatusCode.bad_request ∷ StatusCode.unauthorized ∷ StatusCode.payment_required
    ∷ StatusCode.forbidden ∷ StatusCode.not_found ∷ StatusCode.method_not_allowed
    ∷ StatusCode.not_acceptable ∷ StatusCode.proxy_authentication_required
    ∷ StatusCode.request_timeout ∷ StatusCode.conflict ∷ StatusCode.gone
    ∷ StatusCode.length_required ∷ StatusCode.precondition_failed ∷ StatusCode.content_too_large
    ∷ StatusCode.uri_too_long ∷ StatusCode.unsupported_media_type ∷ StatusCode.range_not_satisfiable
    ∷ StatusCode.expectation_failed ∷ StatusCode.im_a_teapot ∷ StatusCode.misdirected_request
    ∷ StatusCode.unprocessable_content ∷ StatusCode.locked ∷ StatusCode.failed_dependency
    ∷ StatusCode.too_early ∷ StatusCode.upgrade_required ∷ StatusCode.precondition_required
    ∷ StatusCode.too_many_requests ∷ StatusCode.request_header_fields_too_large
    ∷ StatusCode.unavailable_for_legal_reasons ∷ StatusCode.internal_server_error
    ∷ StatusCode.not_implemented ∷ StatusCode.bad_gateway ∷ StatusCode.service_unavailable
    ∷ StatusCode.gateway_timeout ∷ StatusCode.http_version_not_supported
    ∷ StatusCode.variant_also_negotiates ∷ StatusCode.insufficient_storage
    ∷ StatusCode.loop_detected ∷ StatusCode.not_extended
    ∷ StatusCode.network_authentication_required ∷ []

find_code : ℕ → List StatusCode → Option StatusCode
find_code n [] = none
find_code n (s ∷ l) = if code_of s == n then some s else find_code n l

find_phrase : Bytes → List StatusCode → Option StatusCode
find_phrase p [] = none
find_phrase p (s ∷ l) = if equal (status_code_to_string s) p then some s else find_phrase p l

find_code-code_of : (s : StatusCode) → find_code (code_of s) all_codes ≡ some s
unfolding find_code code_of all_codes
find_code-code_of StatusCode.continue = refl
find_code-code_of _ = refl

find_phrase-phrase : (s : StatusCode) → find_phrase (status_code_to_string s) all_codes ≡ some s
unfolding find_phrase status_code_to_string all_codes equal
find_phrase-phrase StatusCode.continue = refl
find_phrase-phrase _ = refl

-- No two status codes have the same number, and no two the same phrase.
pub status_distinct :
    (s t : StatusCode)
    → ((code_of s ≡ code_of t) → s ≡ t)
      × ((status_code_to_string s ≡ status_code_to_string t) → s ≡ t)
status_distinct s t = (by_code, by_phrase)
  where
    by_code : code_of s ≡ code_of t → s ≡ t
    by_code e =
        some-injective s t (
          sym (find_code-code_of s) ∙ ap (λ (n : ℕ). find_code n all_codes) e ∙ find_code-code_of t)

    by_phrase : status_code_to_string s ≡ status_code_to_string t → s ≡ t
    by_phrase e =
        some-injective s t
          (sym (find_phrase-phrase s) ∙ ap (λ p. find_phrase p all_codes) e ∙ find_phrase-phrase t)
