-- ===== src/Telemetry.antt =====
-- The collectors of crates/telemetry/src/lib.rs. The prometheus crate is an interface; an `unwrap`
-- that panics is `none`.
pub mod Registration
pub mod Tracing
pub mod Instance
pub mod Tests
use rust_api_gateway.Base.{
  ℕ, ◌≡◌, Bool, true, false, not, ◌&&◌, ◌||◌, Option, none, some, List, [], ◌∷◌, ◌++◌, map, Str,
  str, str_eq, is_empty, leb, ltb, ◌==◌,
}

-- `IntCounterVec`, `HistogramVec`, `IntGauge` and `IntGaugeVec`.
pub data Kind : Type 0 where
  counters histograms gauge gauges : Kind

-- What a collector is made of. The bounds of the buckets are in thousandths.
pub record Desc : Type 0 where
  pub kind : Kind
  pub name : Str
  pub help : Str
  pub labels : List Str
  pub buckets : List ℕ

-- A letter or an underscore, and with digits further on.
abbrev is_label_start : ℕ → Bool
is_label_start c = (leb b'a' c && leb c b'z') || ((leb b'A' c && leb c b'Z') || (c == b'_'))

abbrev all_label_bytes : Str → Bool
all_label_bytes [] = true
all_label_bytes (c ∷ s) = (is_label_start c || (leb b'0' c && leb c b'9')) && all_label_bytes s

abbrev is_label : Str → Bool
is_label [] = false
is_label (c ∷ s) = is_label_start c && all_label_bytes s

abbrev pub names_one : Str → List Str → Bool
names_one s [] = false
names_one s (t ∷ ts) = str_eq t s || names_one s ts

-- Label names that differ, of which none is `le`, which a histogram keeps for itself.
abbrev labels_differ : List Str → Bool
labels_differ [] = true
labels_differ (l ∷ ls) =
    (is_label l && not (str_eq l (str "le"))) && (not (names_one l ls) && labels_differ ls)

abbrev increases_from : ℕ → List ℕ → Bool
increases_from n [] = true
increases_from n (m ∷ ms) = ltb n m && increases_from m ms

-- What the crate accepts, among others: a name without a colon, a help text, labels that differ,
-- and buckets in order.
abbrev pub is_valid : Desc → Bool
is_valid d =
    (is_label d.name && not (is_empty d.help))
    && (labels_differ d.labels && increases_from 0 d.buckets)

-- The part of the prometheus crate that the gateway uses. A collector is made by its constructor, and
-- a registry encodes what its collectors hold as bytes, of which those that are UTF-8 are a text.
pub record Prometheus : Type 1 where
  pub Registry : Type 0
  pub Collector : Type 0
  pub registry : Registry
  pub collector : Desc → Option Collector
  pub desc : Collector → Desc
  pub register : Registry → Collector → Option Registry
  pub registered : Registry → List Desc
  pub encode : Registry → Option Str
  pub from_utf8 : Str → Option Str

-- A valid description makes a collector, and one is registered unless its name is taken.
pub record PrometheusLaws (p : Prometheus) : Type 0 where
  pub collector_valid :
      (d : Desc) → is_valid d ≡ true → (c : p.Collector) × (p.collector d ≡ some c) × (p.desc c ≡ d)
  pub registered_none : p.registered p.registry ≡ []
  pub register_free :
      (r : p.Registry) (c : p.Collector)
      → names_one (p.desc c).name (map (λ d. d.name) (p.registered r)) ≡ false
      → (r' : p.Registry) × (p.register r c ≡ some r')
        × (p.registered r' ≡ p.registered r ++ (p.desc c ∷ []))

infixl 5 ◌>>=◌
abbrev pub ◌>>=◌ {ℓ κ} : {A : Type ℓ} {B : Type κ} → Option A → (A → Option B) → Option B
none >>= f = none
some a >>= f = f a

abbrev counter_vec : Str → Str → List Str → Desc
counter_vec name help labels = record {
  kind = counters;
  name = name;
  help = help;
  labels = labels;
  buckets = [];
}

-- The buckets that both histograms list.
abbrev latency_buckets : List ℕ
latency_buckets = 1 ∷ 5 ∷ 10 ∷ 25 ∷ 50 ∷ 100 ∷ 250 ∷ 500 ∷ 1000 ∷ 2500 ∷ 5000 ∷ 10000 ∷ []

abbrev histogram_vec : Str → Str → List Str → Desc
histogram_vec name help labels = record {
  kind = histograms;
  name = name;
  help = help;
  labels = labels;
  buckets = latency_buckets;
}

abbrev pub by_route : List Str
by_route = str "route" ∷ []

abbrev pub requests_desc : Desc
requests_desc =
    counter_vec (str "gw_requests_total") (str "Requests handled")
      (str "route" ∷ str "method" ∷ str "status" ∷ [])

abbrev pub upstream_latency_desc : Desc
upstream_latency_desc =
    histogram_vec (str "gw_upstream_latency_seconds") (str "Upstream call latency") by_route

abbrev pub gateway_latency_desc : Desc
gateway_latency_desc =
    histogram_vec (str "gw_gateway_latency_seconds") (str "Total gateway latency") by_route

abbrev pub active_connections_desc : Desc
active_connections_desc = record {
  kind = gauge;
  name = str "gw_active_connections";
  help = str "In-flight requests";
  labels = [];
  buckets = [];
}

abbrev pub rate_limit_rejections_desc : Desc
rate_limit_rejections_desc =
    counter_vec (str "gw_rate_limit_rejections_total") (str "Rate-limit rejections") by_route

abbrev pub auth_rejections_desc : Desc
auth_rejections_desc = counter_vec (str "gw_auth_rejections_total") (str "Auth rejections") by_route

abbrev pub upstream_errors_desc : Desc
upstream_errors_desc = counter_vec (str "gw_upstream_errors_total") (str "Upstream errors") by_route

abbrev pub cache_hits_desc : Desc
cache_hits_desc = counter_vec (str "gw_cache_hits_total") (str "Cache hits") by_route

abbrev pub cache_misses_desc : Desc
cache_misses_desc = counter_vec (str "gw_cache_misses_total") (str "Cache misses") by_route

abbrev pub circuit_state_desc : Desc
circuit_state_desc = record {
  kind = gauges;
  name = str "gw_circuit_breaker_state";
  help = str "0=closed 1=half 2=open";
  labels = str "route" ∷ str "upstream" ∷ [];
  buckets = [];
}

module _ (p : Prometheus) where
  open p use {Registry, Collector}

  pub record Metrics : Type 0 where
    pub registry : Registry
    pub requests : Collector
    pub upstream_latency : Collector
    pub gateway_latency : Collector
    pub active_connections : Collector
    pub rate_limit_rejections : Collector
    pub auth_rejections : Collector
    pub upstream_errors : Collector
    pub cache_hits : Collector
    pub cache_misses : Collector
    pub circuit_state : Collector

  -- The loop that registers the counters.
  unfoldable pub register_all : Registry → List Collector → Option Registry
  register_all r [] = some r
  register_all r (c ∷ cs) = p.register r c >>= λ r'. register_all r' cs

  -- The collectors before they are registered.
  unfoldable pub collectors : Option Metrics
  collectors = do
    requests ← p.collector requests_desc
    upstream_latency ← p.collector upstream_latency_desc
    gateway_latency ← p.collector gateway_latency_desc
    active_connections ← p.collector active_connections_desc
    rate_limit_rejections ← p.collector rate_limit_rejections_desc
    auth_rejections ← p.collector auth_rejections_desc
    upstream_errors ← p.collector upstream_errors_desc
    cache_hits ← p.collector cache_hits_desc
    cache_misses ← p.collector cache_misses_desc
    circuit_state ← p.collector circuit_state_desc
    some (record {
      registry = p.registry;
      requests = requests;
      upstream_latency = upstream_latency;
      gateway_latency = gateway_latency;
      active_connections = active_connections;
      rate_limit_rejections = rate_limit_rejections;
      auth_rejections = auth_rejections;
      upstream_errors = upstream_errors;
      cache_hits = cache_hits;
      cache_misses = cache_misses;
      circuit_state = circuit_state;
    })

  -- The order in which `new` registers: the counters in their loop, then the others.
  abbrev pub registration_order : Metrics → List Collector
  registration_order m =
      m.requests ∷ m.rate_limit_rejections ∷ m.auth_rejections ∷ m.upstream_errors ∷ m.cache_hits
      ∷ m.cache_misses ∷ m.upstream_latency ∷ m.gateway_latency ∷ m.active_connections
      ∷ m.circuit_state ∷ []

  unfoldable pub new : Option Metrics
  new = do
    m ← collectors
    registry ← register_all m.registry (registration_order m)
    some (record m { registry = registry })

  -- `String::from_utf8(buf).unwrap_or_default()`, and nothing where encoding fails.
  unfoldable pub render : Metrics → Str
  render m = elim (p.encode m.registry) [
    | none ↦ []
    | some buf ↦ elim (p.from_utf8 buf) [ none ↦ [] | some s ↦ s ]
  ]
