-- ===== src/Interleaved/Steady.antt =====
-- What holds of a gateway and its tasks at every point of every interleaving.
use rust_api_gateway.Base.{
  ℕ, zero, suc, pos, ◌+◌, ◌≡◌, ◌≢◌, ap, ◌∙◌, List, [], ◌∷◌, set, All, All-get, arith,
}
use rust_api_gateway.Headers.{Http}
use rust_api_gateway.Proxy.Lifetime.{active}
use rust_api_gateway.Proxy.Responses.{Response}
use rust_api_gateway.Proxy.Served.{connections}
use rust_api_gateway.Proxy.Gateway.{Gateway}
use rust_api_gateway.Proxy.Wellformed.{IsWellformed, IsBriefState}
use rust_api_gateway.Interleaved.{Point, entered, answered}
use rust_api_gateway.Interleaved.Loop.{advance}
use rust_api_gateway.Interleaved.Effects.{IsValid}
use rust_api_gateway.Interleaved.Advance.{advance-StepsIf}
use rust_api_gateway.Interleaved.Tasks.{
  remove_at, Handling, Busy, abandon, Step, arrives, advances, disconnects, ticks,
}
use rust_api_gateway.Interleaved.Shifts.{
  all_held, Shifts, Stepped-Shifts, AllCounted, Shifts-set, Shifts-remove, Shifts-IsValid,
}
use rust_api_gateway.Interleaved.Abandoned.{ticks-Shifts, abandon-Shifts}
use rust_api_gateway.Interleaved.Invariant.{
  in_flight, in_flight-set, in_flight-remove_at, active-tags,
}

module _ {A : Type 0} (P : A → Type 0) where
  All-map : (Q : A → Type 0) (xs : List A) → ((a : A) → P a → Q a) → All P xs → All Q xs
  All-map Q [] f a = tt
  All-map Q (x ∷ xs) f a = (f x a.0, All-map Q xs f a.1)

  All-set : (xs : List A) (i : ℕ) (u : A) → P u → All P xs → All P (set xs i u)
  All-set [] i u p a = tt
  All-set (x ∷ xs) zero u p a = (p, a.1)
  All-set (x ∷ xs) (suc i) u p a = (a.0, All-set xs i u p a.1)

  All-remove_at : (xs : List A) (i : ℕ) → All P xs → All P (remove_at xs i)
  All-remove_at [] i a = tt
  All-remove_at (x ∷ xs) zero a = a.1
  All-remove_at (x ∷ xs) (suc i) a = (a.0, All-remove_at xs i a.1)

module _ (h : Http) {L : Type 0} where
  abbrev AllValid : Gateway L → List (Handling h) → Type 0
  AllValid g ts = All (λ t. IsValid h g t.point) ts

  -- The gateway serves, each task stands where it can step, each active-request counter is the number of guards that
  -- tasks hold on its upstream, and the gauge counts the requests in flight and those that were dropped.
  pub record IsSteady (s : Busy h L) : Type 0 where
    pub wellformed : IsWellformed s.gateway.state
    pub valid : AllValid s.gateway s.tasks
    pub all_counted : AllCounted h s.gateway s.tasks
    pub gauge : active s.gateway.metrics ≡ pos (in_flight h s.tasks + s.dropped)

  shifted :
      (g g' : Gateway L) (p q : Point h) (ts : List (Handling h))
      → Shifts h g g' p q
      → AllValid g ts
      → AllValid g' ts
  shifted g g' p q ts s a =
      All-map (λ t. IsValid h g t.point) (λ t. IsValid h g' t.point) ts
        (λ t valid. Shifts-IsValid h g g' p q t.point s valid) a

  -- Dropping a future changes no metric.
  abandon-active : (g : Gateway L) (p : Point h) → active (abandon h g p).metrics ≡ active g.metrics
  unfolding abandon
  abandon-active g p = ground arith

  pub Step-IsSteady : (s u : Busy h L) → Step h s u → IsSteady s → IsSteady u
  unfolding advance
  Step-IsSteady s _ (arrives req) v = record {
    wellformed = v.wellformed;
    valid = ((λ n e. absurd (ground arith)), v.valid);
    all_counted = v.all_counted;
    gauge = v.gauge ∙ ap pos (omega arith);
  }
  Step-IsSteady s _ (ticks reply t) v =
      let shifts = ticks-Shifts h s.gateway reply t v.wellformed in
      record {
        wellformed = shifts.wellformed;
        valid = shifted s.gateway _ entered entered s.tasks shifts v.valid;
        all_counted = λ n rt' there.
            let (rt, was, moves) = shifts.back n rt' there in
            moves (all_held h n s.tasks) (v.all_counted n rt was);
        gauge = v.gauge;
      }
  Step-IsSteady s _ (disconnects i t at open_there) v =
      let valid = All-get (λ t. IsValid h s.gateway t.point) s.tasks i t v.valid at in
      let point = t.point in
      let shifts = abandon-Shifts h s.gateway point v.wellformed valid in
      record {
        wellformed = shifts.wellformed;
        valid =
            All-remove_at (λ t. IsValid h (abandon h s.gateway point) t.point) s.tasks i
              (shifted s.gateway (abandon h s.gateway point) point entered s.tasks shifts v.valid);
        all_counted =
            Shifts-remove h s.gateway (abandon h s.gateway t.point) s.tasks i t at shifts
              v.all_counted;
        gauge =
            abandon-active s.gateway point
            ∙ v.gauge
            ∙ ap pos (ground (arith, open_there, in_flight-remove_at h s.tasks i t at));
      }
  Step-IsSteady s _ (advances w i t g q o at runs) v =
      let live : (r : Response h) → t.point ≢ answered r =
        λ r same. absurd (ground (arith, runs, ap (advance h w t.request s.gateway) same)) in
      let valid = All-get (λ t. IsValid h s.gateway t.point) s.tasks i t v.valid at in
      let stepped = advance-StepsIf h w o t.request s.gateway t.point v.wellformed valid g q runs in
      let shifts = Stepped-Shifts h s.gateway g t.point q stepped in
      let u = record t { point = q } in
      record {
        wellformed = stepped.wellformed;
        valid =
            All-set (λ t. IsValid h g t.point) s.tasks i u stepped.valid
              (shifted s.gateway g t.point q s.tasks shifts v.valid);
        all_counted = Shifts-set h s.gateway g s.tasks i t q at shifts v.all_counted;
        gauge =
            active-tags h (connections s.gateway.metrics) (connections g.metrics) t.point q
              (in_flight h s.tasks) (in_flight h (set s.tasks i u)) s.dropped stepped.tagged
              stepped.opened live (in_flight-set h s.tasks i t u at) v.gauge;
      }

  -- Nothing that is added to an instant gets longer.
  pub Step-IsBriefState :
      (s u : Busy h L)
      → Step h s u
      → IsSteady s
      → IsBriefState s.gateway.state
      → IsBriefState u.gateway.state
  Step-IsBriefState s _ (arrives req) v brief = brief
  Step-IsBriefState s _ (ticks reply t) v brief =
      (ticks-Shifts h s.gateway reply t v.wellformed).timely brief
  Step-IsBriefState s _ (disconnects i t at open_there) v brief =
      let valid = All-get (λ t. IsValid h s.gateway t.point) s.tasks i t v.valid at in
      (abandon-Shifts h s.gateway t.point v.wellformed valid).timely brief
  Step-IsBriefState s _ (advances w i t g q o at runs) v brief =
      let valid = All-get (λ t. IsValid h s.gateway t.point) s.tasks i t v.valid at in
      (advance-StepsIf h w o t.request s.gateway t.point v.wellformed valid g q runs).timely brief
