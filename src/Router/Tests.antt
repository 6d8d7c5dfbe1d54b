-- ===== src/Router/Tests.antt =====
-- Tests of the route matcher, after those of the source.
use rust_api_gateway.Base.{◌≡◌, refl, inr, true, none, some, str, texts}
use rust_api_gateway.Router.{
  strip_port, path_matches, host_matches, consider, match_from, match_route, forward_path,
}
use rust_api_gateway.Router.Select.{admits, specificity, Selected, match_route-Selected}
use rust_api_gateway.Router.Paths.{IsAbsolute, path_matches_iff, forward_path-IsAbsolute}
use rust_api_gateway.Samples.{
  sample, root_route, api_route, users_route, hosted_route, stripping_route,
}

runs : Unit {0}
unfolding strip_port path_matches host_matches consider match_from match_route forward_path admits
    specificity texts
runs = tt

longest_prefix_wins :
    (match_route sample none (str "/api/users/42") ≡ some users_route)
    × (match_route sample none (str "/api/orders") ≡ some api_route)
    × (match_route sample none (str "/other") ≡ some root_route)
unfolding runs
longest_prefix_wins = (refl, refl, refl)

segment_boundary_required : match_route sample none (str "/apixyz") ≡ some root_route
unfolding runs
segment_boundary_required = refl

host_routing :
    (match_route sample (some (str "admin.example.com")) (str "/anything") ≡ some hosted_route)
    × (match_route sample (some (str "ADMIN.example.com:8080")) (str "/x") ≡ some hosted_route)
unfolding runs
host_routing = (refl, refl)

strip_prefix_rewrites_path :
    (forward_path (str "/api/orders") stripping_route ≡ str "/orders")
    × (forward_path (str "/api") stripping_route ≡ str "/")
unfolding runs
strip_prefix_rewrites_path = (refl, refl)

matches_api : path_matches (str "/api/orders") (str "/api") ≡ true
unfolding runs
matches_api = refl

match_route-Selected_example : Selected none (str "/api/orders") sample.routes api_route
match_route-Selected_example =
    match_route-Selected sample none (str "/api/orders") api_route longest_prefix_wins.1

path_matches_iff_example : path_matches (str "/api/x") (str "/api/") ≡ true
unfolding texts
path_matches_iff_example =
    (path_matches_iff (str "/api/x") (str "/api/")).1
      (inr (record { rest = str "/x"; split = refl; boundary = refl }))

forward_path-IsAbsolute_example : IsAbsolute (forward_path (str "/api/orders") stripping_route)
forward_path-IsAbsolute_example =
    forward_path-IsAbsolute (str "/api/orders") stripping_route refl matches_api
