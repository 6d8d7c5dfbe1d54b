-- ===== src/Proxy/Instruments.antt =====
-- How crates/gateway/src/proxy.rs changes its metrics: on which collector, under which label values.
use rust_api_gateway.Base.{ℕ, ◌≡◌, refl, Bool, true, false, some, List, [], ◌∷◌, Str, length}
use rust_api_gateway.Telemetry.{
  Kind, counters, histograms, gauge, gauges, Prometheus, PrometheusLaws, Metrics, new,
}
use rust_api_gateway.Telemetry.Registration.{Described, registered_descs, new-Described}
use rust_api_gateway.Proxy.Attempts.{Note, upstream_latency, circuit_state, upstream_error}
use rust_api_gateway.Proxy.Responses.{
  Metric, connection_opened, connection_closed, request_counted, gateway_latency, auth_rejection,
  rate_limit_rejection, cache_hit, cache_miss, in_loop, decimal,
}

-- `inc`, `dec`, `observe` and `set`.
pub data Change : Type 0 where
  inc dec observe : Change
  assign : ℕ → Change

-- The changes that a kind of collector has a method for.
abbrev pub takes : Kind → Change → Bool
takes counters inc = true
takes gauge inc = true
takes gauge dec = true
takes gauge (assign n) = true
takes gauges inc = true
takes gauges dec = true
takes gauges (assign n) = true
takes histograms observe = true
takes counters dec = false
takes counters observe = false
takes counters (assign n) = false
takes gauge observe = false
takes gauges observe = false
takes histograms inc = false
takes histograms dec = false
takes histograms (assign n) = false

module _ (p : Prometheus) where
  -- A change of a collector, under the values of `with_label_values`.
  pub record Use : Type 0 where
    pub collector : p.Collector
    pub values : List Str
    pub change : Change

  -- The changes in the retry loop.
  unfoldable pub use_of_note : Metrics p → Str → Note → Use
  use_of_note m route upstream_latency = record {
    collector = m.upstream_latency;
    values = route ∷ [];
    change = observe;
  }
  use_of_note m route (circuit_state url code) = record {
    collector = m.circuit_state;
    values = route ∷ url ∷ [];
    change = assign code;
  }
  use_of_note m route upstream_error = record {
    collector = m.upstream_errors;
    values = route ∷ [];
    change = inc;
  }

  unfoldable pub use_of : Metrics p → Metric → Use
  use_of m connection_opened = record {
    collector = m.active_connections;
    values = [];
    change = inc;
  }
  use_of m connection_closed = record {
    collector = m.active_connections;
    values = [];
    change = dec;
  }
  use_of m (request_counted route method status) = record {
    collector = m.requests;
    values = route ∷ method ∷ decimal status ∷ [];
    change = inc;
  }
  use_of m (gateway_latency route) = record {
    collector = m.gateway_latency;
    values = route ∷ [];
    change = observe;
  }
  use_of m (auth_rejection route) = record {
    collector = m.auth_rejections;
    values = route ∷ [];
    change = inc;
  }
  use_of m (rate_limit_rejection route) = record {
    collector = m.rate_limit_rejections;
    values = route ∷ [];
    change = inc;
  }
  use_of m (cache_hit route) = record {
    collector = m.cache_hits;
    values = route ∷ [];
    change = inc;
  }
  use_of m (cache_miss route) = record {
    collector = m.cache_misses;
    values = route ∷ [];
    change = inc;
  }
  use_of m (in_loop route note) = use_of_note m route note

  -- `with_label_values` panics on another number of values than the collector has labels.
  abbrev pub Fits : Use → Type 0
  Fits u =
      (length u.values ≡ length (p.desc u.collector).labels)
      × (takes (p.desc u.collector).kind u.change ≡ true)

  use_of-Fits :
      (laws : PrometheusLaws p) (m : Metrics p) (x : Metric)
      → Described p laws m
      → Fits (use_of m x)
  unfolding use_of use_of_note
  use_of-Fits laws m connection_opened d = rw d.active_connections (refl, refl)
  use_of-Fits laws m connection_closed d = rw d.active_connections (refl, refl)
  use_of-Fits laws m (request_counted route method status) d = rw d.requests (refl, refl)
  use_of-Fits laws m (gateway_latency route) d = rw d.gateway_latency (refl, refl)
  use_of-Fits laws m (auth_rejection route) d = rw d.auth_rejections (refl, refl)
  use_of-Fits laws m (rate_limit_rejection route) d = rw d.rate_limit_rejections (refl, refl)
  use_of-Fits laws m (cache_hit route) d = rw d.cache_hits (refl, refl)
  use_of-Fits laws m (cache_miss route) d = rw d.cache_misses (refl, refl)
  use_of-Fits laws m (in_loop route upstream_latency) d = rw d.upstream_latency (refl, refl)
  use_of-Fits laws m (in_loop route (circuit_state url code)) d = rw d.circuit_state (refl, refl)
  use_of-Fits laws m (in_loop route upstream_error) d = rw d.upstream_errors (refl, refl)

  -- Making the metrics does not panic.
  pub new-Fits :
      PrometheusLaws p
      → (m : Metrics p) × (new p ≡ some m)
        × (p.registered m.registry ≡ registered_descs)
        × ((x : Metric) → Fits (use_of m x))
  new-Fits laws =
      let (m, runs, d, holds) = new-Described p laws in
      (m, runs, holds, λ x. use_of-Fits laws m x d)
