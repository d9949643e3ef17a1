-- ===== src/Http/Url/Print.antt =====
-- `URL::toString` of sources/http/URL.cpp.
use fion.Prelude.{Bool, true, false, not, ◌&&◌, ◌||◌, [], ◌∷◌, ◌++◌, ◌==◌, if◌then◌else◌, ℕ}
use fion.Text.{Bytes, codes, equal, is_empty, to_string}
use fion.Dict.{Dict}
use fion.Http.Url.{Url}

-- `oss << "&"` in front of every parameter but the first.
unfoldable pub print_params : Bool → Dict Bytes → Bytes
print_params first [] = []
print_params first ((key, value) ∷ rest) =
    (if first then [] else codes "&")
    ++ (key ++ ((if is_empty value then [] else codes "=" ++ value) ++ print_params false rest))

unfoldable pub is_default_port : Bytes → ℕ → Bool
is_default_port scheme port =
    (equal scheme (codes "http") && port == 80) || (equal scheme (codes "https") && port == 443)

unfoldable pub print_domain : Url → Bytes
print_domain u =
    if is_empty u.domain_name
    then []
    else u.domain_name
      ++ (if not (u.port == 0) && not (is_default_port u.scheme u.port)
          then codes ":" ++ to_string u.port
          else [])

unfoldable pub url_to_string : Url → Bytes
url_to_string u =
    (if is_empty u.scheme then [] else u.scheme ++ codes "://")
    ++ (print_domain u
        ++ (u.path_to_resource
            ++ ((if is_empty u.query_parameters
                  then []
                  else codes "?" ++ print_params true u.query_parameters)
                ++ (if is_empty u.anchor then [] else codes "#" ++ u.anchor))))
