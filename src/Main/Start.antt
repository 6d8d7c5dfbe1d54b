-- ===== src/Main/Start.antt =====
-- When the gateway starts, and what it has then.
use rust_api_gateway.Base.{
  ◌≡◌, refl, inl, inr, false, Bool-cases, none, some, Option-cases, arith, ◌≢◌,
}
use rust_api_gateway.Config.{Result, ok, err, Result-cases, GatewayConfig, ConfigError}
use rust_api_gateway.Config.Validate.{validate, from_file}
use rust_api_gateway.Config.Valid.{from_file-Valid, validate-ok_iff}
use rust_api_gateway.Telemetry.{Prometheus, PrometheusLaws}
use rust_api_gateway.Telemetry.Registration.{new-Described}
use rust_api_gateway.State.{build}
use rust_api_gateway.Proxy.Wellformed.{IsWellformed}
use rust_api_gateway.Proxy.Lifetime.{build-IsWellformed}
use rust_api_gateway.Main.{
  Environment, Failure, loading_config, bind_addr, admin_bind_addr, client, config_path, Started,
  start,
}

module _ {L : Type 0} (env : Environment L) (p : Prometheus) (laws : PrometheusLaws p) where
  abbrev loaded : Result GatewayConfig ConfigError
  loaded = from_file env.from_str env.read_to_string (config_path env)

  -- How the start ends: with the first of four failures in this order, or with a gateway.
  pub data Ending (result : Result (Started env p) Failure) : Type 0 where
    not_loaded :
        (e : ConfigError)
        → loaded ≡ err e
        → result ≡ err (loading_config (config_path env) e)
        → Ending result
    no_proxy_address :
        (config : GatewayConfig)
        → loaded ≡ ok config
        → env.parse_addr config.server.bind_addr ≡ none
        → result ≡ err bind_addr
        → Ending result
    no_admin_address :
        (config : GatewayConfig)
        → loaded ≡ ok config
        → env.parse_addr config.server.bind_addr ≢ none
        → env.parse_addr config.server.admin_bind_addr ≡ none
        → result ≡ err admin_bind_addr
        → Ending result
    no_client :
        (config : GatewayConfig)
        → loaded ≡ ok config
        → env.parse_addr config.server.bind_addr ≢ none
        → env.parse_addr config.server.admin_bind_addr ≢ none
        → env.client_builds ≡ false
        → result ≡ err client
        → Ending result
    running :
        (config : GatewayConfig) (s : Started env p)
        → loaded ≡ ok config
        → validate config ≡ ok tt
        → env.parse_addr config.server.bind_addr ≡ some s.proxy_addr
        → env.parse_addr config.server.admin_bind_addr ≡ some s.admin_addr
        → s.state.config ≡ config
        → IsWellformed s.state
        → result ≡ ok s
        → Ending result

  -- From the addresses on: the metrics are made, and the client decides.
  built-Ending :
      (config : GatewayConfig) (a b : env.SocketAddr)
      → loaded ≡ ok config
      → env.parse_addr config.server.bind_addr ≡ some a
      → env.parse_addr config.server.admin_bind_addr ≡ some b
      → Ending (start env p)
  unfolding start build
  built-Ending config a b found good fine =
      let (valid, _) =
        from_file-Valid env.from_str env.read_to_string (config_path env) config found in
      let accepted = (validate-ok_iff config).1 valid in
      let (m, made, _, _) = new-Described p laws in
      let (s, built, v) = build-IsWellformed env.connect env.in_memory config accepted in
      elim (Bool-cases (env.client_builds)) [
        | inr broken ↦
            no_client config found (λ e. cc) (λ e. cc) broken
              (ground (arith, found, good, fine, made, broken))
        | inl builds ↦
            let started : Started env p = record {
              state = s;
              metrics = m;
              proxy_addr = a;
              admin_addr = b;
            } in
            running config started found accepted good fine (ground (arith, built)) v
              (ground (arith, found, good, fine, made, builds, built))
      ]

  -- How the start ends.
  pub start-Ending : Ending (start env p)
  unfolding start
  start-Ending = elim (Result-cases loaded) [
    | inr (e, failed) ↦ not_loaded e failed (rw (failed, start) refl)
    | inl (config, found) ↦ elim (Option-cases (env.parse_addr config.server.bind_addr)) [
      | inl bad ↦ no_proxy_address config found bad (ground (arith, found, bad))
      | inr (a, good) ↦ elim (Option-cases (env.parse_addr config.server.admin_bind_addr)) [
        | inl bad ↦ no_admin_address config found (λ e. cc) bad (ground (arith, found, good, bad))
        | inr (b, fine) ↦ built-Ending config a b found good fine
      ]
    ]
  ]

  pub start-IsWellformed : (s : Started env p) → start env p ≡ ok s → IsWellformed s.state
  start-IsWellformed s e = elim start-Ending [
    | not_loaded f _ failed ↦ absurd (ground (arith, e, failed))
    | no_proxy_address config _ _ failed ↦ absurd (ground (arith, e, failed))
    | no_admin_address config _ _ _ failed ↦ absurd (ground (arith, e, failed))
    | no_client config _ _ _ _ failed ↦ absurd (ground (arith, e, failed))
    | running config t _ _ _ _ _ v runs ↦ let same : t ≡ s = ground (arith, e, runs) in rw same at v
  ]
