-- ===== src/Routing/Resource.antt =====
-- `addGroup` and `addResource`: the routes that they add.
use fion.Prelude.{
  true, false, Option, none, List, [], ◌∷◌, ◌++◌, ◌≡◌, refl, sym, ap, ◌∙◌, map, append_assoc,
  append-nil, arith,
}
use fion.Text.{Bytes, codes, equal}
use fion.Dict.{assign}
use fion.Prelude.{◌||◌, if◌then◌else◌, drop}
use fion.Prelude.Results.{ok}
use fion.Text.{find_byte}
use fion.Text.Equal.{equal_refl}
use fion.Routing.{
  Handler, Middleware, Route, Router, split_path, is_param, match_segments, match_pattern,
  RegexMatch, Found, find_route, find_in, add_route, add_group, add_resource,
}
use fion.Routing.Split.{IsSegment, split_path-join}

-- A route of a group, under the prefix and with the middleware of the group behind its own.
abbrev pub in_group : Bytes → List Middleware → Route → Route
in_group prefix group_middleware route = record route {
  path_pattern = prefix ++ route.path_pattern;
  middleware = route.middleware ++ group_middleware;
}

-- `addGroup` adds each route of the group behind the routes of the router, in order, with the
-- prefix in front of its pattern and the middleware of the group behind its own.
pub add_group_lem :
    (r : Router) (prefix : Bytes) (group : List Route) (group_middleware : List Middleware)
    → (add_group r prefix group group_middleware).routes
      ≡ r.routes ++ map (in_group prefix group_middleware) group
unfolding add_group add_route
add_group_lem r prefix [] m = sym (append-nil r.routes)
add_group_lem r prefix (route ∷ group) m =
    add_group_lem _ prefix group m ∙ append_assoc r.routes (in_group prefix m route ∷ []) _

abbrev pub id_key : Bytes
id_key = codes "id"

-- The path of a resource, and that of one of its items.
abbrev pub collection_path : Bytes → Bytes
collection_path resource = codes "/" ++ resource

abbrev pub item_path : Bytes → Bytes → Bytes
item_path resource item = codes "/" ++ (resource ++ (codes "/" ++ item))

split_collection : (r : Bytes) → IsSegment r → split_path (collection_path r) ≡ r ∷ []
split_collection r h =
    ap (λ (s : Bytes). split_path (codes "/" ++ s)) (sym (append-nil r))
    ∙ split_path-join (r ∷ []) (h, tt)

split_item : (r i : Bytes) → IsSegment r → IsSegment i → split_path (item_path r i) ≡ r ∷ (i ∷ [])
split_item r i h k =
    ap (λ (s : Bytes). split_path (codes "/" ++ (r ++ (codes "/" ++ s)))) (sym (append-nil i))
    ∙ split_path-join (r ∷ (i ∷ [])) (h, (k, tt))

id_IsSegment : IsSegment (codes ":id")
unfolding find_byte
id_IsSegment = ((λ e. cc e), refl)

module _ (r i : Bytes) (name : IsSegment r) (item : IsSegment i) (plain : is_param r ≡ false) where
  collection_fits :
      match_pattern (collection_path r) (collection_path r) [] []
      ≡ record { matched = true; keys = []; params = [] }
  unfolding match_pattern match_segments
  collection_fits = rw (split_collection r name) (rw (plain, equal_refl r) refl)

  item_fits :
      match_pattern (item_path r (codes ":id")) (item_path r i) [] []
      ≡ record { matched = true; keys = id_key ∷ []; params = (id_key, i) ∷ [] }
  unfolding match_pattern match_segments assign drop
  item_fits =
      rw (split_item r (codes ":id") name id_IsSegment, split_item r i name item)
        (rw (plain, equal_refl r) refl)

  collection_refuses : (match_pattern (collection_path r) (item_path r i) [] []).matched ≡ false
  unfolding match_pattern
  collection_refuses = rw (split_collection r name, split_item r i name item) refl

  item_refuses :
      (match_pattern (item_path r (codes ":id")) (collection_path r) [] []).matched ≡ false
  unfolding match_pattern
  item_refuses = rw (split_item r (codes ":id") name id_IsSegment, split_collection r name) refl

  module _ (regex_match : RegexMatch) (handler : Option Handler)
      (middleware : List Middleware) where
    -- For a resource that is a segment with no ':' in front, and any item: with the routes of
    -- `addResource` alone, the path of the resource leads to the handler for the methods GET and
    -- POST, without parameters, and to a null handler for every other method.
    pub resource_collection :
        (method : Bytes) (found : Found)
        → find_route regex_match
            (add_resource (record { routes = [] }) r handler middleware)
            (collection_path r)
            method
            found
          ≡ (if equal (codes "GET") method || equal (codes "POST") method
              then ok (record { handler = handler; out_params = []; out_middleware = middleware })
              else ok (record found { handler = none }))
    unfolding find_route find_in add_resource add_route
    resource_collection method found = rw (collection_fits, item_refuses) (ground arith)

    -- For a resource and an item that are segments, the resource with no ':' in front: with the
    -- routes of `addResource` alone, the path of the item leads to the handler for the methods
    -- GET, PUT and DELETE, with the text of the item under the key "id" as the only parameter, and
    -- to a null handler for every other method.
    pub resource_item :
        (method : Bytes) (found : Found)
        → find_route regex_match
            (add_resource (record { routes = [] }) r handler middleware)
            (item_path r i)
            method
            found
          ≡ (if equal (codes "GET") method
                || (equal (codes "PUT") method || equal (codes "DELETE") method)
              then ok (record {
                handler = handler;
                out_params = (id_key, i) ∷ [];
                out_middleware = middleware;
              })
              else ok (record found { handler = none }))
    unfolding find_route find_in add_resource add_route
    resource_item method found = rw (item_fits, collection_refuses) (ground arith)
