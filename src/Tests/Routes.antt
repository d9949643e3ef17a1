-- ===== src/Tests/Routes.antt =====
-- The theorems of the routing at concrete routes and paths.
use fion.Prelude.{
  true, false, none, some, [], ◌∷◌, ◌≡◌, ◌≢◌, ◌↔◌, refl, map, All, if◌then◌else◌, ◌||◌, drop, take,
}
use fion.Prelude.Results.{ok}
use fion.Text.{codes, equal, find_byte, find_byte_from}
use fion.Dict.{assign}
use fion.Routing.{
  Found, split_path, split_from, match_pattern, match_segments, find_route, add_resource, is_param,
}
use fion.Routing.Split.{segments, join, IsSegment, split_path-segments, split_path-join}
use fion.Routing.Match.{Fits, match_pattern_iff}
use fion.Routing.Params.{AreDistinct, value_of, match_pattern_values}
use fion.Routing.Search.{Rejects, other_method, Accepts, by_pattern, find_route_first}
use fion.Routing.Resource.{collection_path, resource_collection}
use fion.Network.Pool.{nothing_found, routed_method}
use fion.Http.Method.{Method}
use fion.Tests.Sample.{
  literal_match, echo, user_pattern, user_path, user_route, other_route, user_router,
}

split_pattern : split_path user_pattern ≡ codes "users" ∷ (codes ":id" ∷ [])
unfolding split_path split_from find_byte_from find_byte drop take
split_pattern = refl

user_fits : (match_pattern user_pattern user_path [] []).matched ≡ true
unfolding match_pattern match_segments split_path split_from find_byte_from find_byte drop take
    equal
user_fits = refl

match_pattern_iff_example :
    ((match_pattern user_pattern user_path [] []).matched ≡ true)
    ↔ Fits (split_path user_pattern) (split_path user_path)
match_pattern_iff_example = match_pattern_iff user_pattern user_path [] []

user_distinct : AreDistinct (split_path user_pattern)
unfolding split_path split_from find_byte_from find_byte drop take
user_distinct = ((λ e. absurd (cc e)), ((λ e. tt), tt))

match_pattern_values_example :
    map (value_of (match_pattern user_pattern user_path [] []).params) (split_path user_pattern)
    ≡ map some (split_path user_path)
match_pattern_values_example =
    match_pattern_values user_pattern user_path [] [] user_distinct user_fits

split_path-segments_example : split_path (codes "/a//b/") ≡ segments (codes "/a//b/")
split_path-segments_example = split_path-segments (codes "/a//b/")

users_IsSegment : IsSegment (codes "users")
unfolding find_byte
users_IsSegment = ((λ e. cc e), refl)

seven_IsSegment : IsSegment (codes "7")
unfolding find_byte
seven_IsSegment = ((λ e. cc e), refl)

split_path-join_example :
    split_path (join (codes "users" ∷ (codes "7" ∷ []))) ≡ codes "users" ∷ (codes "7" ∷ [])
split_path-join_example =
    split_path-join (codes "users" ∷ (codes "7" ∷ [])) (users_IsSegment, (seven_IsSegment, tt))

get_ne_post : codes "GET" ≢ codes "POST"
get_ne_post e = cc e

abbrev pub user_found : Found
user_found = record {
  handler = some echo;
  out_params = (codes "id", codes "7") ∷ [];
  out_middleware = [];
}

user_route-Accepts :
    Accepts literal_match user_path (codes "POST") user_route nothing_found user_found
unfolding match_pattern match_segments split_path split_from find_byte_from find_byte drop take
    equal assign
user_route-Accepts = by_pattern refl refl refl

other_route-Rejects : All (Rejects literal_match user_path (codes "POST")) (other_route ∷ [])
other_route-Rejects = (other_method get_ne_post, tt)

find_route_first_example :
    find_route literal_match user_router user_path (codes "POST") nothing_found ≡ ok user_found
find_route_first_example =
    find_route_first literal_match user_path (codes "POST") (other_route ∷ []) user_route []
      nothing_found user_found other_route-Rejects user_route-Accepts

pub user_route_found :
    find_route literal_match user_router user_path (routed_method Method.post) nothing_found
    ≡ ok user_found
unfolding routed_method
user_route_found =
    find_route_first literal_match user_path (codes "POST") (other_route ∷ []) user_route []
      nothing_found user_found other_route-Rejects user_route-Accepts

users_plain : is_param (codes "users") ≡ false
users_plain = refl

resource_collection_example :
    find_route literal_match
      (add_resource (record { routes = [] }) (codes "users") (some echo) [])
      (collection_path (codes "users"))
      (codes "GET")
      nothing_found
    ≡ (if equal (codes "GET") (codes "GET") || equal (codes "POST") (codes "GET")
        then ok (record { handler = some echo; out_params = []; out_middleware = [] })
        else ok (record nothing_found { handler = none }))
resource_collection_example =
    resource_collection (codes "users") (codes "7") users_IsSegment seven_IsSegment users_plain
      literal_match (some echo) [] (codes "GET") nothing_found
