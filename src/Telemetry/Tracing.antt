-- ===== src/Telemetry/Tracing.antt =====
-- `init_tracing` of crates/telemetry/src/lib.rs, over the filters of the tracing crates. Installing a
-- second global subscriber panics, which is `none`.
use rust_api_gateway.Base.{
  ◌≡◌, refl, Bool, true, false, Option, none, some, Str, str, if◌then◌else◌,
}
use rust_api_gateway.Headers.{or_else}

pub record Subscriber (F : Type 0) : Type 0 where
  pub filter : Option F
  pub json : Bool

-- The cell `TRACING`, and the global subscriber of the process.
pub record Process (F : Type 0) : Type 0 where
  pub tracing : Bool
  pub subscriber : Option (Subscriber F)

abbrev pub default_filter : Str
default_filter = str "info,hyper=warn,reqwest=warn"

module _ {F : Type 0} (filter_new : Str → Option F) where
  -- `init` of the subscriber.
  unfoldable pub install : Subscriber F → Process F → Option (Process F)
  install s p = elim (p.subscriber) [
    | none ↦ some (record { tracing = true; subscriber = some s })
    | some old ↦ none
  ]

  unfoldable pub init_tracing : (from_env : Option F) (json : Bool) → Process F → Option (Process F)
  init_tracing from_env json p =
      if p.tracing
      then some p
      else install (record { filter = or_else from_env (filter_new default_filter); json = json }) p

  -- In a process without a subscriber the first call installs one, and later calls change nothing.
  pub init_tracing-once :
      (from_env : Option F) (json : Bool) (p : Process F)
      → p.tracing ≡ false
      → p.subscriber ≡ none
      → (q : Process F) × (init_tracing from_env json p ≡ some q)
        × (q.subscriber
            ≡ some (record { filter = or_else from_env (filter_new default_filter); json = json }))
        × ((again : Option F) (other : Bool) → init_tracing again other q ≡ some q)
  unfolding init_tracing install
  init_tracing-once from_env json p first free =
      let s : Subscriber F = record {
        filter = or_else from_env (filter_new default_filter);
        json = json;
      } in
      let q : Process F = record { tracing = true; subscriber = some s } in
      (q, rw (first, init_tracing) (rw (free, install) refl), refl, λ again other. refl)
