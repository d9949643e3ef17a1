-- ===== src/Tests/Urls.antt =====
-- The theorems of the URLs at concrete URLs.
use fion.Prelude.{[], ◌∷◌, ◌++◌, ◌≡◌, refl, arith}
use fion.Prelude.Results.{ok}
use fion.Text.{codes, find_byte, find_text, starts_with, to_lower}
use fion.Http.Url.{Url, fresh, parse_url, to_lower_copy, default_port_for_scheme, port_or_80}
use fion.Http.Url.Print.{url_to_string, print_params}
use fion.Http.Url.Host.{IsDomain}
use fion.Http.Url.Shape.{IsShaped, parse_url-IsShaped}
use fion.Http.Url.RoundTrip.{IsPrintable, parse_url-url_to_string}
use fion.Http.Url.Embedded.{parse_url_embedded}

host-IsDomain : IsDomain (codes "a.org")
unfolding find_byte
host-IsDomain = record {
  first = b'a';
  rest = codes ".org";
  shape = refl;
  no_bracket = refl;
  no_slash = refl;
  no_userinfo = refl;
  no_colon = refl;
  no_query = refl;
  no_anchor = refl;
}

abbrev page : Url
page = record {
  scheme = codes "http";
  domain_name = codes "a.org";
  port = 8080;
  path_to_resource = codes "/p";
  query_parameters = (codes "k", codes "v") ∷ [];
  anchor = codes "top";
}

page-IsPrintable : IsPrintable page
unfolding find_text starts_with find_byte print_params to_lower_copy to_lower
page-IsPrintable = record {
  scheme_first = b'h';
  scheme_rest = codes "ttp";
  scheme_shape = refl;
  scheme_ends = refl;
  scheme_lower = refl;
  domain = host-IsDomain;
  port_set = refl;
  port_bound = omega arith;
  path_rest = codes "p";
  path_shape = refl;
  path_no_query = refl;
  path_no_anchor = refl;
  params_sorted = (tt, tt);
  params = (((λ e. cc e), refl, refl, refl), tt);
  params_no_anchor = refl;
}

parse_url-url_to_string_example : parse_url (url_to_string page) ≡ ok page
parse_url-url_to_string_example = parse_url-url_to_string page page-IsPrintable

parse_url-IsShaped_example : IsShaped page
parse_url-IsShaped_example =
    parse_url-IsShaped (url_to_string page) page (parse_url-url_to_string page page-IsPrintable)

parse_url_embedded_example :
    parse_url ((b'/' ∷ codes "x?u=http") ++ (codes "://" ++ (codes "a.org" ++ (b'/' ∷ codes "p"))))
    ≡ ok (record fresh {
      scheme = to_lower_copy (b'/' ∷ codes "x?u=http");
      domain_name = codes "a.org";
      port = port_or_80 (default_port_for_scheme (to_lower_copy (b'/' ∷ codes "x?u=http")));
      path_to_resource = b'/' ∷ codes "p";
    })
unfolding find_byte find_text starts_with
parse_url_embedded_example =
    parse_url_embedded (codes "x?u=http") (codes "a.org") (codes "p") refl host-IsDomain refl refl
