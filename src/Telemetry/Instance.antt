-- ===== src/Telemetry/Instance.antt =====
-- A registry that holds the descriptions of its collectors, and encodes their names.
use rust_api_gateway.Base.{refl, Option, none, some, List, [], ◌∷◌, ◌++◌, map, Str, if◌then◌else◌}
use rust_api_gateway.Telemetry.{Desc, is_valid, names_one, Prometheus, PrometheusLaws}

abbrev all_names : List Desc → Str
all_names [] = []
all_names (d ∷ ds) = d.name ++ all_names ds

abbrev made : Desc → Option Desc
made d = if is_valid d then some d else none

abbrev added : List Desc → Desc → Option (List Desc)
added r d = if names_one d.name (map (λ d. d.name) r) then none else some (r ++ (d ∷ []))

abbrev pub described : Prometheus
described = record {
  Registry = List Desc;
  Collector = Desc;
  registry = [];
  collector = made;
  desc = λ d. d;
  register = added;
  registered = λ r. r;
  encode = λ r. some (all_names r);
  from_utf8 = some;
}

pub described-PrometheusLaws : PrometheusLaws described
described-PrometheusLaws = record {
  collector_valid = λ d v. (d, rw v refl, refl);
  registered_none = refl;
  register_free = λ r c free. (r ++ (c ∷ []), rw free refl, refl);
}
