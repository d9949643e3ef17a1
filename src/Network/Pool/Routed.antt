-- ===== src/Network/Pool/Routed.antt =====
-- `process_request`: from the text of a request to the answer of its handler.
use fion.Prelude.{◌<◌, true, not, [], ◌∷◌, ◌++◌, ◌≡◌, ◌≢◌, refl, ap, ◌∙◌, arith, length}
use fion.Prelude.Results.{ok}
use fion.Text.{Bytes, find_byte, u64_mod, is_space, all_of}
use fion.Text.Find.{Lacks, Lacks-append, Lacks-cons}
use fion.Text.Spans.{IsWord}
use fion.Text.Crlf.{IsLine}
use fion.Http.Version.{Version, version_to_string}
use fion.Http.Method.{Method}
use fion.Http.Method.Laws.{token_of}
use fion.Http.Headers.{Headers}
use fion.Http.Headers.Laws.{IsOrdered}
use fion.Http.Headers.Head.{AreCleanFields}
use fion.Http.Url.{Url, parse_url}
use fion.Http.Request.{Request, new_request}
use fion.Http.Request.StartLine.{new_request_line}
use fion.Routing.{Router, RegexMatch, Found, find_route}
use fion.Network.Pool.{routed_method, nothing_found, answer_found, answer_parts, respond, or_error}
use fion.Network.Pool.Respond.{answer_request}
use fion.Network.Pool.RequestText.{request_text}

-- The start line of a request.
abbrev pub start_line_of : Method → Bytes → Version → Bytes
start_line_of m target v = token_of m ++ (b' ' ∷ (target ++ (b' ' ∷ version_to_string v)))

word-Lacks : (s : Bytes) → all_of (λ c. not (is_space c)) s ≡ true → Lacks b'\r' s
unfolding all_of is_space find_byte
word-Lacks [] h = refl
word-Lacks (c ∷ s) h = ground (arith, word-Lacks s)

token-Lacks : (m : Method) → Lacks b'\r' (token_of m)
unfolding token_of find_byte
token-Lacks Method.get = refl
token-Lacks _ = refl

version-Lacks : (v : Version) → Lacks b'\r' (version_to_string v)
unfolding version_to_string find_byte
version-Lacks Version.http_0_9 = refl
version-Lacks _ = refl

starts : (m : Method) (s : Bytes) → token_of m ++ s ≢ []
unfolding token_of
starts Method.get s e = cc e
starts _ s e = cc e

pub start_line_of-IsLine :
    (m : Method) (target : Bytes) (v : Version) → IsWord target → IsLine (start_line_of m target v)
start_line_of-IsLine m target v w = (
  starts m _,
  Lacks-append b'\r' (token_of m) _ (token-Lacks m) (
      Lacks-cons b'\r' b' ' _ (omega arith) (
        Lacks-append b'\r' target _ (word-Lacks target w.1)
          (Lacks-cons b'\r' b' ' _ (omega arith) (version-Lacks v)))),
)

module _ (regex_match : RegexMatch) (router : Router) where
  routed :
      (start fields_text body : Bytes) (r : Request) (found : Found)
      → new_request start fields_text body ≡ ok r
      → find_route regex_match router r.url.path_to_resource (routed_method r.method) nothing_found
        ≡ ok found
      → answer_parts regex_match router start fields_text body ≡ answer_found r found
  unfolding answer_parts
  routed start fields_text body r found e f = rw (e, f) refl

  pub respond_routed :
      (m : Method) (target : Bytes) (u : Url) (v : Version) (h : Headers) (body : Bytes)
      (found : Found)
      → IsWord target
      → parse_url target ≡ ok u
      → IsOrdered h
      → AreCleanFields h.headers
      → length (request_text (start_line_of m target v) h body) < u64_mod
      → find_route regex_match router u.path_to_resource (routed_method m) nothing_found ≡ ok found
      → respond regex_match router (request_text (start_line_of m target v) h body)
        ≡ or_error (
            answer_found
              (record { method = m; url = u; version = v; headers = h; body = body })
              found)
  unfolding respond
  respond_routed m target u v h body found word parsed s c small route =
      let (fields_text, cut, read) =
        answer_request regex_match router (start_line_of m target v) h body
          (start_line_of-IsLine m target v word) s c small in
      let r : Request = record { method = m; url = u; version = v; headers = h; body = body } in
      let made : new_request (start_line_of m target v) fields_text body ≡ ok r =
        new_request_line m target u v fields_text body word parsed
        ∙ ap
            (λ (g : Headers).
              ok (record { method = m; url = u; version = v; headers = g; body = body }))
            read in
      ap or_error (cut ∙ routed (start_line_of m target v) fields_text body r found made route)
