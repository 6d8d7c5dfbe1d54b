-- ===== src/Transform/Tests.antt =====
-- Tests of the header handling, after those of the source.
use rust_api_gateway.Base.{
  ◌≡◌, ◌≢◌, refl, none, some, List, [], ◌∷◌, Str, str, to_ascii_lowercase, ascii_lowercase, All,
  texts, if◌then◌else◌,
}
use rust_api_gateway.Config.{HeaderTransforms}
use rust_api_gateway.Headers.Instance.{listed, listed-HttpLaws}
use rust_api_gateway.Transform.{
  any_ignoring_case, is_hop_by_hop, get_str, copy_end_to_end, set, forwarded_request_headers,
  filtered_response_headers, remove_all, add_all, apply_transforms,
}
use rust_api_gateway.Transform.Forwarding.{written, forwarded_request_headers-hop_by_hop}
use rust_api_gateway.Transform.Configured.{removed_by, value_after, apply_transforms-get}

runs : Unit {0}
unfolding any_ignoring_case is_hop_by_hop copy_end_to_end set forwarded_request_headers
    filtered_response_headers remove_all add_all apply_transforms texts
runs = tt

abbrev incoming : List (Str × Str)
incoming = (str "connection", str "keep-alive") ∷ (str "x-custom", str "v") ∷ []

abbrev forwarded : List (Str × Str)
forwarded =
    forwarded_request_headers listed incoming (str "1.2.3.4") (str "example.com") (str "http")

strips_hop_by_hop : get_str listed forwarded (str "connection") ≡ none
unfolding runs
strips_hop_by_hop = refl

keeps_end_to_end : get_str listed forwarded (str "x-custom") ≡ some (str "v")
unfolding runs
keeps_end_to_end = refl

adds_forwarding : get_str listed forwarded (str "x-forwarded-for") ≡ some (str "1.2.3.4")
unfolding runs
adds_forwarding = refl

abbrev chained : List (Str × Str)
chained = (str "x-forwarded-for", str "10.0.0.1") ∷ []

appends_to_existing_forwarded_for :
    get_str listed
      (forwarded_request_headers listed chained (str "1.2.3.4") (str "h") (str "http"))
      (str "x-forwarded-for")
    ≡ some (str "10.0.0.1, 1.2.3.4")
unfolding runs
appends_to_existing_forwarded_for = refl

abbrev drop_and_add : HeaderTransforms
drop_and_add = record { add = (str "x-add", str "yes") ∷ []; remove = str "x-drop" ∷ [] }

abbrev dropping : List (Str × Str)
dropping = (str "x-drop", str "1") ∷ []

remove_transform : listed.get (apply_transforms listed dropping drop_and_add) (str "x-drop") ≡ none
unfolding runs
remove_transform = refl

add_transform :
    listed.get (apply_transforms listed dropping drop_and_add) (str "X-Add") ≡ some (str "yes")
unfolding runs
add_transform = refl

apply_transforms-get_example :
    listed.get (apply_transforms listed dropping drop_and_add) (str "x-drop")
    ≡ value_after listed drop_and_add.add (str "x-drop") (
        if removed_by listed drop_and_add.remove (str "x-drop")
        then none
        else listed.get dropping (str "x-drop"))
apply_transforms-get_example =
    apply_transforms-get listed listed-HttpLaws dropping drop_and_add (str "x-drop")

custom-apart : All (λ n. n ≢ to_ascii_lowercase (str "X-Custom")) written
unfolding ascii_lowercase
custom-apart = (λ e. cc, (λ e. cc, (λ e. cc, (λ e. cc, tt))))

forwarded_request_headers-hop_by_hop_example : listed.get forwarded (str "Connection") ≡ none
unfolding runs
forwarded_request_headers-hop_by_hop_example =
    forwarded_request_headers-hop_by_hop listed listed-HttpLaws incoming (str "1.2.3.4")
      (str "example.com") (str "http") (str "Connection") refl
