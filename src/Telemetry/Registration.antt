-- ===== src/Telemetry/Registration.antt =====
-- `Metrics::new` does not panic, and what it registers.
use rust_api_gateway.Base.{
  ◌≡◌, refl, ap, ap₂, ◌∙◌, Bool, true, not, ◌&&◌, some, List, [], ◌∷◌, ◌++◌, map, Str, texts, arith,
}
use rust_api_gateway.Telemetry.{
  Desc, Prometheus, PrometheusLaws, names_one, requests_desc, upstream_latency_desc,
  gateway_latency_desc, active_connections_desc, rate_limit_rejections_desc, auth_rejections_desc,
  upstream_errors_desc, cache_hits_desc, cache_misses_desc, circuit_state_desc, Metrics, collectors,
  registration_order, register_all, new,
}

-- No name is taken, or comes twice.
abbrev all_free : List Str → List Str → Bool
all_free taken [] = true
all_free taken (n ∷ ns) = not (names_one n taken) && all_free (taken ++ (n ∷ [])) ns

abbrev name_of : Desc → Str
name_of d = d.name

names-snoc :
    (ds : List Desc) (d : Desc) → map name_of (ds ++ (d ∷ [])) ≡ map name_of ds ++ (d.name ∷ [])
names-snoc [] d = refl
names-snoc (e ∷ ds) d = ap (λ l. e.name ∷ l) (names-snoc ds d)

append_assoc :
    (xs : List Desc) (d : Desc) (ys : List Desc) → (xs ++ (d ∷ [])) ++ ys ≡ xs ++ (d ∷ ys)
append_assoc [] d ys = refl
append_assoc (x ∷ xs) d ys = ap (λ l. x ∷ l) (append_assoc xs d ys)

append_empty : (xs : List Desc) → xs ≡ xs ++ []
append_empty [] = refl
append_empty (x ∷ xs) = ap (λ l. x ∷ l) (append_empty xs)

-- The collectors in the order in which they are registered.
abbrev pub registered_descs : List Desc
registered_descs =
    requests_desc ∷ rate_limit_rejections_desc ∷ auth_rejections_desc ∷ upstream_errors_desc
    ∷ cache_hits_desc ∷ cache_misses_desc ∷ upstream_latency_desc ∷ gateway_latency_desc
    ∷ active_connections_desc ∷ circuit_state_desc ∷ []

module _ (p : Prometheus) (laws : PrometheusLaws p) where
  register_all-registered :
      (r : p.Registry) (cs : List p.Collector)
      → all_free (map name_of (p.registered r)) (map name_of (map p.desc cs)) ≡ true
      → (r' : p.Registry) × (register_all p r cs ≡ some r')
        × (p.registered r' ≡ p.registered r ++ map p.desc cs)
  unfolding register_all
  register_all-registered r [] free = (r, refl, append_empty (p.registered r))
  register_all-registered r (c ∷ cs) free =
      let d = p.desc c in
      let taken = names_one d.name (map name_of (p.registered r)) in
      let (r', one, now) = laws.register_free r c (ground arith) in
      let names : map name_of (p.registered r') ≡ map name_of (p.registered r) ++ (d.name ∷ []) =
        ap (map name_of) now ∙ names-snoc (p.registered r) d in
      let (r'', all, after) = register_all-registered r' cs (rw names (ground arith)) in
      (
        r'',
        rw (one, register_all) all,
        after ∙ ap (λ l. l ++ map p.desc cs) now ∙ append_assoc (p.registered r) d (map p.desc cs),
      )

  -- Each collector is made of its description.
  pub record Described (m : Metrics p) : Type 0 where
    pub requests : p.desc m.requests ≡ requests_desc
    pub upstream_latency : p.desc m.upstream_latency ≡ upstream_latency_desc
    pub gateway_latency : p.desc m.gateway_latency ≡ gateway_latency_desc
    pub active_connections : p.desc m.active_connections ≡ active_connections_desc
    pub rate_limit_rejections : p.desc m.rate_limit_rejections ≡ rate_limit_rejections_desc
    pub auth_rejections : p.desc m.auth_rejections ≡ auth_rejections_desc
    pub upstream_errors : p.desc m.upstream_errors ≡ upstream_errors_desc
    pub cache_hits : p.desc m.cache_hits ≡ cache_hits_desc
    pub cache_misses : p.desc m.cache_misses ≡ cache_misses_desc
    pub circuit_state : p.desc m.circuit_state ≡ circuit_state_desc

  collectors-Described :
      (m : Metrics p) × (collectors p ≡ some m) × (m.registry ≡ p.registry) × Described m
  unfolding collectors texts
  collectors-Described =
      let (requests, e, requests_is) = laws.collector_valid requests_desc refl in
      let (upstream_latency, f, upstream_latency_is) =
        laws.collector_valid upstream_latency_desc refl in
      let (gateway_latency, g, gateway_latency_is) =
        laws.collector_valid gateway_latency_desc refl in
      let (active_connections, i, active_connections_is) =
        laws.collector_valid active_connections_desc refl in
      let (rate_limit_rejections, j, rate_limit_rejections_is) =
        laws.collector_valid rate_limit_rejections_desc refl in
      let (auth_rejections, k, auth_rejections_is) =
        laws.collector_valid auth_rejections_desc refl in
      let (upstream_errors, l, upstream_errors_is) =
        laws.collector_valid upstream_errors_desc refl in
      let (cache_hits, n, cache_hits_is) = laws.collector_valid cache_hits_desc refl in
      let (cache_misses, o, cache_misses_is) = laws.collector_valid cache_misses_desc refl in
      let (circuit_state, q, circuit_state_is) = laws.collector_valid circuit_state_desc refl in
      (
        record {
          registry = p.registry;
          requests = requests;
          upstream_latency = upstream_latency;
          gateway_latency = gateway_latency;
          active_connections = active_connections;
          rate_limit_rejections = rate_limit_rejections;
          auth_rejections = auth_rejections;
          upstream_errors = upstream_errors;
          cache_hits = cache_hits;
          cache_misses = cache_misses;
          circuit_state = circuit_state;
        },
        rw (e, collectors) (rw f (rw g (rw i (rw j (rw k (rw l (rw n (rw o (rw q refl))))))))),
        refl,
        record {
          requests = requests_is;
          upstream_latency = upstream_latency_is;
          gateway_latency = gateway_latency_is;
          active_connections = active_connections_is;
          rate_limit_rejections = rate_limit_rejections_is;
          auth_rejections = auth_rejections_is;
          upstream_errors = upstream_errors_is;
          cache_hits = cache_hits_is;
          cache_misses = cache_misses_is;
          circuit_state = circuit_state_is;
        },
      )

  order-Described :
      (m : Metrics p) → Described m → map p.desc (registration_order p m) ≡ registered_descs
  order-Described m d = rw d.requests (
      rw d.rate_limit_rejections (
        rw d.auth_rejections (
          rw d.upstream_errors (
            rw d.cache_hits (
              rw d.cache_misses (
                rw d.upstream_latency
                  (rw d.gateway_latency (rw d.active_connections (rw d.circuit_state refl)))))))))

  all_names_free : all_free [] (map name_of registered_descs) ≡ true
  unfolding texts
  all_names_free = refl

  -- Making the metrics does not panic: every collector is valid and no two share a name.
  pub new-Described :
      (m : Metrics p) × (new p ≡ some m)
      × Described m
      × (p.registered m.registry ≡ registered_descs)
  unfolding new
  new-Described =
      let (m, made, fresh, d) = collectors-Described in
      let order = order-Described m d in
      let empty : p.registered m.registry ≡ [] = ap p.registered fresh ∙ laws.registered_none in
      let free =
        ap₂ (λ taken ds. all_free (map name_of taken) (map name_of ds)) empty order
        ∙ all_names_free in
      let (r, runs, after) = register_all-registered m.registry (registration_order p m) free in
      let described : Described (record m { registry = r }) = record {
        requests = d.requests;
        upstream_latency = d.upstream_latency;
        gateway_latency = d.gateway_latency;
        active_connections = d.active_connections;
        rate_limit_rejections = d.rate_limit_rejections;
        auth_rejections = d.auth_rejections;
        upstream_errors = d.upstream_errors;
        cache_hits = d.cache_hits;
        cache_misses = d.cache_misses;
        circuit_state = d.circuit_state;
      } in
      (
        record m { registry = r },
        rw (made, new) (rw runs refl),
        described,
        after ∙ ap (λ l. l ++ map p.desc (registration_order p m)) empty ∙ order,
      )
