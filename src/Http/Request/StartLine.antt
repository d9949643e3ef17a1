-- ===== src/Http/Request/StartLine.antt =====
-- Which start lines the constructor accepts, and what it takes from them.
use fion.Prelude.{true, ◌∷◌, ◌++◌, ◌≡◌, refl, arith}
use fion.Prelude.Results.{Exception, Result, ok, err, >>=-eq-ok, rethrow_invalid}
use fion.Text.{Bytes, is_space, all_of}
use fion.Text.Spans.{IsWord, next_word-append, next_word_all, next_word_skip}
use fion.Http.Version.{Version, version_to_string}
use fion.Http.Version.Laws.{string_to_version_self, string_to_version_iff}
use fion.Http.Method.{Method}
use fion.Http.Method.Laws.{token_of, string_to_method-token_of, string_to_method_iff}
use fion.Http.Headers.{empty_headers, parse_from_raw}
use fion.Http.Url.{Url, parse_url}
use fion.Http.Request.{
  Request, StartLineParts, Words, words_of, parse_words, parse_start_line, new_request,
}

token_of-IsWord : (m : Method) → IsWord (token_of m)
unfolding token_of all_of is_space
token_of-IsWord Method.get = (λ e. cc e, refl)
token_of-IsWord _ = (λ e. cc e, refl)

version-IsWord : (v : Version) → IsWord (version_to_string v)
unfolding version_to_string all_of is_space
version-IsWord Version.http_0_9 = (λ e. cc e, refl)
version-IsWord _ = (λ e. cc e, refl)

space : is_space b' ' ≡ true
unfolding is_space
space = refl

-- Three words with one space between them.
words_of_line :
    (m u v : Bytes)
    → IsWord m
    → IsWord u
    → IsWord v
    → words_of (m ++ (b' ' ∷ (u ++ (b' ' ∷ v))))
      ≡ record { raw_method = m; raw_url = u; raw_version = v }
unfolding words_of
words_of_line m u v hm hu hv = rw (
  next_word-append m b' ' (u ++ (b' ' ∷ v)) hm space,
  next_word_skip b' ' (u ++ (b' ' ∷ v)) space,
  next_word-append u b' ' v hu space,
  next_word_skip b' ' v space,
  next_word_all v hv,
)

-- A start line of a method, a target with no white space that is a URL, and a version, one space
-- between them, makes a request of exactly these, with the headers' text read and the body as is.
pub new_request_line :
    (m : Method) (target : Bytes) (u : Url) (v : Version) (raw_headers raw_body : Bytes)
    → IsWord target
    → parse_url target ≡ ok u
    → new_request
        (token_of m ++ (b' ' ∷ (target ++ (b' ' ∷ version_to_string v))))
        raw_headers
        raw_body
      ≡ ok (record {
        method = m;
        url = u;
        version = v;
        headers = parse_from_raw empty_headers raw_headers;
        body = raw_body;
      })
unfolding new_request parse_start_line parse_words
new_request_line m target u v raw_headers raw_body word parsed = rw (
  words_of_line (token_of m) target (version_to_string v) (token_of-IsWord m) word
      (version-IsWord v),
  string_to_method-token_of m,
  parsed,
  string_to_version_self v,
)

rethrow_invalid-eq-ok {ℓ} :
    {A : Type ℓ} (message : Bytes) (r : Result A) {a : A}
    → rethrow_invalid message r ≡ ok a
    → r ≡ ok a
rethrow_invalid-eq-ok message (ok a) h = h
rethrow_invalid-eq-ok message (err (Exception.invalid_argument m)) h = cc
rethrow_invalid-eq-ok message (err (Exception.out_of_range m)) h = cc
rethrow_invalid-eq-ok message (err (Exception.runtime_error m)) h = cc
rethrow_invalid-eq-ok message (err (Exception.regex_error m)) h = cc

words_sound :
    (w : Words) (p : StartLineParts)
    → parse_words w ≡ ok p
    → (w.raw_method ≡ token_of p.line_method)
      × (parse_url w.raw_url ≡ ok p.line_url)
      × (w.raw_version ≡ version_to_string p.line_version)
unfolding parse_words
words_sound w p h =
    let (m, hm, h1) = >>=-eq-ok _ _ h in
    let (u, hu, h2) = >>=-eq-ok _ _ h1 in
    let (v, hv, h3) = >>=-eq-ok _ _ h2 in
    let read_method : w.raw_method ≡ token_of m =
      (string_to_method_iff w.raw_method m).0 (rethrow_invalid-eq-ok _ _ hm) in
    let read_url : parse_url w.raw_url ≡ ok u = rethrow_invalid-eq-ok _ _ hu in
    let read_version : w.raw_version ≡ version_to_string v =
      (string_to_version_iff w.raw_version v).0 (rethrow_invalid-eq-ok _ _ hv) in
    ground arith

-- Whatever request the constructor returns, its first three words are the method's token, a text
-- that is its URL, and the version's text; its headers and body are those that it was given.
pub new_request_sound :
    (line raw_headers raw_body : Bytes) (r : Request)
    → new_request line raw_headers raw_body ≡ ok r
    → ((words_of line).raw_method ≡ token_of r.method)
      × (parse_url (words_of line).raw_url ≡ ok r.url)
      × ((words_of line).raw_version ≡ version_to_string r.version)
      × (r.headers ≡ parse_from_raw empty_headers raw_headers)
      × (r.body ≡ raw_body)
unfolding new_request parse_start_line
new_request_sound line raw_headers raw_body r h =
    let (p, hp, h1) = >>=-eq-ok _ _ h in
    let parts = words_sound (words_of line) p (rethrow_invalid-eq-ok _ _ hp) in ground arith
