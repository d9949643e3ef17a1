-- ===== src/Routing.antt =====
-- headers/Handler.hpp, Route.hpp, Router.hpp and sources/Route.cpp, Router.cpp. The log lines of
-- `addRoute` and `findRoute` are left out. `std::regex` is a parameter of what calls it.
pub mod Split
pub mod Match
pub mod Params
pub mod Search
pub mod Resource
use fion.Prelude.{
  ℕ, zero, suc, ◌+◌, ◌-◌, Bool, true, false, not, ◌&&◌, Option, none, some, List, [], ◌∷◌, ◌++◌,
  ltb, ◌==◌, if◌then◌else◌, length, foldl, map,
}
use fion.Prelude.Results.{Result, ok, err, ◌>>=◌}
use fion.Text.{Bytes, codes, equal, find_byte_from, substr, substr_from}
use fion.Dict.{Dict, assign}
use fion.Http.Request.{Request}
use fion.Http.Response.{Response}

-- The handler of the application: `handle` may throw.
pub record Handler : Type 0 where
  pub handle : Request → Result Response

-- A middleware changes the request that it is given, and may throw.
abbrev pub Middleware : Type 0
Middleware = Request → Result Request

-- `none` for a null `shared_ptr<Handler>`
pub record Route : Type 0 where
  pub path_pattern : Bytes
  pub method : Bytes
  pub handler : Option Handler
  pub middleware : List Middleware
  pub is_regex : Bool
  pub param_keys : List Bytes

pub record Router : Type 0 where
  pub routes : List Route

unfoldable pub add_route : Router → Route → Router
add_route r route = record { routes = r.routes ++ (route ∷ []) }

-- The loop of `splitPath` from `start`, on fuel; then what stands behind the last '/'.
unfoldable pub split_from : ℕ → Bytes → ℕ → List Bytes
split_from zero path start = []
split_from (suc f) path start = elim (find_byte_from b'/' path start) [
  | none ↦ if ltb start (length path) then substr_from path start ∷ [] else []
  | some end ↦
      let rest = split_from f path (end + 1) in
      if ltb start end then substr path start (end - start) ∷ rest else rest
]

-- Every turn moves `start` on, so the length of the path bounds the turns.
unfoldable pub split_path : Bytes → List Bytes
split_path path = split_from (suc (length path)) path 0

-- What `matchPattern` returns, and what it leaves in `paramKeys` and `params`.
pub record MatchResult : Type 0 where
  pub matched : Bool
  pub keys : List Bytes
  pub params : Dict Bytes

-- `!seg.empty() && seg[0] == ':'`
abbrev pub is_param : Bytes → Bool
is_param [] = false
is_param (c ∷ s) = c == b':'

-- The loop over the segments; both lists have one length when it is entered.
unfoldable pub match_segments : List Bytes → List Bytes → List Bytes → Dict Bytes → MatchResult
match_segments [] ss keys params = record { matched = true; keys = keys; params = params }
match_segments (p ∷ ps) [] keys params = record { matched = false; keys = keys; params = params }
match_segments (p ∷ ps) (s ∷ ss) keys params =
    let as_param =
      match_segments ps ss (keys ++ (substr_from p 1 ∷ [])) (assign (substr_from p 1) s params) in
    let as_text = match_segments ps ss keys params in
    let differs : MatchResult = record { matched = false; keys = keys; params = params } in
    if is_param p then as_param else if not (equal p s) then differs else as_text

unfoldable pub match_pattern : Bytes → Bytes → List Bytes → Dict Bytes → MatchResult
match_pattern pattern path keys params =
    if not (length (split_path pattern) == length (split_path path))
    then record { matched = false; keys = keys; params = params }
    else match_segments (split_path pattern) (split_path path) keys params

-- The result of `findRoute` with its two output arguments.
pub record Found : Type 0 where
  pub handler : Option Handler
  pub out_params : Dict Bytes
  pub out_middleware : List Middleware

-- `outParams[route.paramKeys[i-1]] = match[i]` for the groups that have a key
unfoldable pub assign_groups : List Bytes → List Bytes → Dict Bytes → Dict Bytes
assign_groups (k ∷ ks) (g ∷ gs) d = assign_groups ks gs (assign k g d)
assign_groups _ _ d = d

-- `std::regex re(pattern)` and `std::regex_match(path, match, re)`: an exception for a pattern that
-- is no regular expression, `none` for no match, and the texts of the groups from 1 on.
abbrev pub RegexMatch : Type 0
RegexMatch = Bytes → Bytes → Result (Option (List Bytes))

module _ (regex_match : RegexMatch) where
  unfoldable pub find_in : List Route → Bytes → Bytes → Found → Result Found
  find_in [] path method found = ok (record found { handler = none })
  find_in (route ∷ rest) path method found =
      let next = find_in rest path method found in
      let by_regex = regex_match route.path_pattern path >>= λ m. elim m [
        | none ↦ next
        | some groups ↦ ok (record {
          handler = route.handler;
          out_params = assign_groups route.param_keys groups found.out_params;
          out_middleware = route.middleware;
        })
      ] in
      let by_pattern =
        let result = match_pattern route.path_pattern path [] [] in
        if result.matched
        then ok (record {
          handler = route.handler;
          out_params = result.params;
          out_middleware = route.middleware;
        })
        else next in
      if not (equal route.method method)
      then next
      else if route.is_regex
      then by_regex
      else by_pattern

  unfoldable pub find_route : Router → Bytes → Bytes → Found → Result Found
  find_route r path method found = find_in r.routes path method found

-- `for (auto route : groupRoutes)`: each copy is changed and added.
unfoldable pub add_group : Router → Bytes → List Route → List Middleware → Router
add_group r prefix [] group_middleware = r
add_group r prefix (route ∷ rest) group_middleware =
    add_group
      (add_route r (record route {
        path_pattern = prefix ++ route.path_pattern;
        middleware = route.middleware ++ group_middleware;
      }))
      prefix rest group_middleware

-- The constructor of `Route` with its default arguments.
abbrev pub plain_route : Bytes → Bytes → Option Handler → List Middleware → Route
plain_route pattern method handler middleware = record {
  path_pattern = pattern;
  method = method;
  handler = handler;
  middleware = middleware;
  is_regex = false;
  param_keys = [];
}

unfoldable pub add_resource : Router → Bytes → Option Handler → List Middleware → Router
add_resource r resource handler middleware =
    let collection = codes "/" ++ resource in
    let item = codes "/" ++ (resource ++ codes "/:id") in
    let r1 = add_route r (plain_route collection (codes "GET") handler middleware) in
    let r2 = add_route r1 (plain_route collection (codes "POST") handler middleware) in
    let r3 = add_route r2 (plain_route item (codes "GET") handler middleware) in
    let r4 = add_route r3 (plain_route item (codes "PUT") handler middleware) in
    add_route r4 (plain_route item (codes "DELETE") handler middleware)
