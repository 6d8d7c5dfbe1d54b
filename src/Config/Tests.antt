-- ===== src/Config/Tests.antt =====
-- Tests of the configuration's validation.
use rust_api_gateway.Base.{◌≡◌, refl, [], ◌∷◌, Str, str, texts}
use rust_api_gateway.Config.{Result, ok, err, invalid, GatewayConfig}
use rust_api_gateway.Config.Validate.{
  validate, validate_routes, validate_route, validate_upstreams, from_yaml, from_file,
}
use rust_api_gateway.Config.Valid.{Valid, validate-ok_iff}
use rust_api_gateway.Config.Defaults.{default_server}
use rust_api_gateway.Samples.{sample, root_route, api_route, keyed_route}

runs : Unit {0}
unfolding from_file from_yaml validate validate_routes validate_route validate_upstreams texts
runs = tt

accepts_sample : validate sample ≡ ok tt
unfolding runs
accepts_sample = refl

rejects_no_routes :
    validate (record { server = default_server; routes = [] })
    ≡ err (invalid (str "no routes configured"))
unfolding runs
rejects_no_routes = refl

rejects_duplicate :
    validate (record { server = default_server; routes = api_route ∷ api_route ∷ [] })
    ≡ err (invalid (str "duplicate route name: api"))
unfolding runs
rejects_duplicate = refl

rejects_no_keys :
    validate (record { server = default_server; routes = root_route ∷ keyed_route ∷ [] })
    ≡ err (invalid (str "route 'api' api_key auth has no keys"))
unfolding runs
rejects_no_keys = refl

abbrev parse_sample : Str → Result GatewayConfig Str
parse_sample text = ok sample

abbrev read_text : Str → Result Str Str
read_text path = ok (str "routes: …")

loads_sample : from_file parse_sample read_text (str "config/gateway.yaml") ≡ ok sample
unfolding runs
loads_sample = refl

validate-ok_iff_example : Valid sample
validate-ok_iff_example = (validate-ok_iff sample).0 accepts_sample
