-- ===== src/Routing/Search.antt =====
-- `findRoute`: the first route that accepts wins.
use fion.Prelude.{
  true, false, none, some, List, [], ◌∷◌, ◌++◌, ◌≡◌, ◌≢◌, refl, sym, ap, ◌∙◌, append-nil,
  Bool-cases, inl, inr, All,
}
use fion.Prelude.Results.{ok}
use fion.Text.{Bytes, equal}
use fion.Text.Equal.{equal_iff, equal_ne}
use fion.Routing.{Route, match_pattern, Found, assign_groups, RegexMatch, find_in, find_route}

-- The route does not accept the request: another method, or a pattern that the path does not match.
pub data Rejects (regex_match : RegexMatch) (path : Bytes) (method : Bytes) (route : Route)
    : Type 0 where
  other_method : route.method ≢ method → Rejects regex_match path method route
  other_path :
      route.is_regex ≡ false
      → (match_pattern route.path_pattern path [] []).matched ≡ false
      → Rejects regex_match path method route
  other_text :
      route.is_regex ≡ true
      → regex_match route.path_pattern path ≡ ok none
      → Rejects regex_match path method route

-- The route accepts the request, and what `findRoute` then gives.
pub data Accepts (regex_match : RegexMatch) (path : Bytes) (method : Bytes) (route : Route)
    (before : Found) : Found → Type 0 where
  by_pattern :
      route.method ≡ method
      → route.is_regex ≡ false
      → (match_pattern route.path_pattern path [] []).matched ≡ true
      → Accepts regex_match path method route before (record {
        handler = route.handler;
        out_params = (match_pattern route.path_pattern path [] []).params;
        out_middleware = route.middleware;
      })
  by_regex :
      (groups : List Bytes)
      → route.method ≡ method
      → route.is_regex ≡ true
      → regex_match route.path_pattern path ≡ ok (some groups)
      → Accepts regex_match path method route before (record {
        handler = route.handler;
        out_params = assign_groups route.param_keys groups before.out_params;
        out_middleware = route.middleware;
      })

module _ (regex_match : RegexMatch) (path method : Bytes) where
  skipped :
      (route : Route) (rest : List Route) (found : Found)
      → Rejects regex_match path method route
      → find_in regex_match (route ∷ rest) path method found
        ≡ find_in regex_match rest path method found
  unfolding find_in
  skipped route rest found (other_method ne) = rw (equal_ne _ _ ne) refl
  skipped route rest found (other_path plain misfit) =
      elim (Bool-cases (equal route.method method)) [
        | inl same ↦ rw (same, plain, misfit) refl
        | inr differs ↦ rw differs refl
      ]
  skipped route rest found (other_text regex misfit) =
      elim (Bool-cases (equal route.method method)) [
        | inl same ↦ rw (same, regex, misfit) refl
        | inr differs ↦ rw differs refl
      ]

  taken :
      (route : Route) (rest : List Route) (found after : Found)
      → Accepts regex_match path method route found after
      → find_in regex_match (route ∷ rest) path method found ≡ ok after
  unfolding find_in
  taken route rest found after (by_pattern same plain fits) =
      rw ((equal_iff route.method method).1 same, plain, fits) refl
  taken route rest found after (by_regex groups same regex fits) =
      rw ((equal_iff route.method method).1 same, regex, fits) refl

  skip_each :
      (before rest : List Route) (found : Found)
      → All (Rejects regex_match path method) before
      → find_in regex_match (before ++ rest) path method found
        ≡ find_in regex_match rest path method found
  skip_each [] rest found h = refl
  skip_each (route ∷ before) rest found h =
      skipped route (before ++ rest) found h.0 ∙ skip_each before rest found h.1

  -- `findRoute` returns the handler, the parameters and the middleware of the first route that
  -- accepts the request, when the routes before it reject it, whatever stands behind it.
  pub find_route_first :
      (before : List Route) (route : Route) (rest : List Route) (found after : Found)
      → All (Rejects regex_match path method) before
      → Accepts regex_match path method route found after
      → find_route regex_match (record { routes = before ++ (route ∷ rest) }) path method found
        ≡ ok after
  unfolding find_route
  find_route_first before route rest found after rejected accepted =
      skip_each before (route ∷ rest) found rejected ∙ taken route rest found after accepted

  -- `findRoute` returns a null handler and leaves its outputs as they are when every route rejects
  -- the request.
  pub find_route-none :
      (routes : List Route) (found : Found)
      → All (Rejects regex_match path method) routes
      → find_route regex_match (record { routes = routes }) path method found
        ≡ ok (record found { handler = none })
  unfolding find_route find_in
  find_route-none routes found rejected =
      ap (λ l. find_in regex_match l path method found) (sym (append-nil routes))
      ∙ skip_each routes [] found rejected
