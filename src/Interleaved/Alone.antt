-- ===== src/Interleaved/Alone.antt =====
-- The steps of a request to crates/gateway/src/proxy.rs that no other task interleaves with.
pub mod Report
pub mod Loop
pub mod Attempts
pub mod Stages
pub mod Limit
pub mod Handle
pub mod Equivalence
use rust_api_gateway.Base.{
  ◌≡◌, refl, sym, ap, ◌∙◌, Option, some, HashMap, List, [], ◌∷◌, ◌++◌, Str, str_eq_refl, lookup,
  insert, lookup-insert, insert-insert, arith,
}
use rust_api_gateway.Headers.{Http}
use rust_api_gateway.State.{RouteRuntime}
use rust_api_gateway.Proxy.Responses.{Metric, connection_closed, Response}
use rust_api_gateway.Proxy.Handler.{Request}
use rust_api_gateway.Proxy.Gateway.{Gateway, World}
use rust_api_gateway.Proxy.Wellformed.{IsOrderly}
use rust_api_gateway.Interleaved.{Point, closing, answered, route_of, Moved}
use rust_api_gateway.Interleaved.Loop.{stage, commit_moved, move_on, advance}
use rust_api_gateway.Interleaved.Advance.{advance-move_on}

abbrev pub closed_tag : List Metric
closed_tag = connection_closed ∷ []

module _ (h : Http) {L : Type 0} (w : World h L) (req : Request h) where
  -- The steps of a request that is alone, to its answer.
  pub data Runs : Gateway L → Point h → Gateway L → Response h → Type 0 where
    done : (g : Gateway L) (r : Response h) → Runs g (answered r) g r
    more :
        (g g' g'' : Gateway L) (p q : Point h) (r : Response h)
        → advance h w req g p ≡ some (g', q)
        → Runs g' q g'' r
        → Runs g p g'' r

  pub Runs-to :
      (g g' g'' : Gateway L) (p : Point h) (r : Response h)
      → g' ≡ g''
      → Runs g p g' r
      → Runs g p g'' r
  Runs-to g g' g'' p r e run = rw e at run

  -- A gateway in which a route has another runtime, with another limiter and other metrics.
  abbrev pub on : Gateway L → Str → RouteRuntime → L → List Metric → Gateway L
  on g name rt limiter metrics = record {
    state = record (g.state) { routes = insert name rt g.state.routes; limiter = limiter };
    metrics = metrics;
  }

  pub closing-Runs :
      (g : Gateway L) (name : Str) (rt : RouteRuntime) (l : L) (ms : List Metric) (r : Response h)
      → Runs (on g name rt l ms) (closing r) (on g name rt l (ms ++ closed_tag)) r
  unfolding advance
  closing-Runs g name rt l ms r =
      let end = on g name rt l (ms ++ closed_tag) in
      more (on g name rt l ms) end end (closing r) (answered r) r refl (done end r)

  module _ (o : IsOrderly h w) where
    on-advance :
        (g : Gateway L) (name : Str) (rt : RouteRuntime) (l : L) (ms : List Metric) (p : Point h)
        (m : Moved h L)
        → route_of h p ≡ some name
        → stage h w req (on g name rt l ms).state name rt p ≡ some m
        → advance h w req (on g name rt l ms) p
          ≡ some (on g name m.runtime m.limiter (ms ++ m.metrics), m.next)
    on-advance g name rt l ms p m at runs =
        let there : lookup name (insert name rt g.state.routes) ≡ some rt =
          ground (arith, lookup-insert name name rt g.state.routes, str_eq_refl name) in
        let moved : move_on h w req (on g name rt l ms) p name
            ≡ commit_moved h w req (on g name rt l ms) name
                (stage h w req (on g name rt l ms).state name rt p) =
          rw (there, move_on) refl in
        let written : HashMap RouteRuntime → Option (Gateway L × Point h) = λ routes. some (
          record {
            state = record (g.state) { routes = routes; limiter = m.limiter };
            metrics = ms ++ m.metrics;
          },
          m.next,
        ) in
        advance-move_on h w o req (on g name rt l ms) p name at
        ∙ moved
        ∙ ap (commit_moved h w req (on g name rt l ms) name) runs
        ∙ ap written (insert-insert name rt m.runtime g.state.routes)

    -- One step on the route, and the rest.
    pub on-Runs :
        (g : Gateway L) (name : Str) (rt : RouteRuntime) (l : L) (ms : List Metric) (p : Point h)
        (m : Moved h L) (g' : Gateway L) (r : Response h)
        → route_of h p ≡ some name
        → stage h w req (on g name rt l ms).state name rt p ≡ some m
        → Runs (on g name m.runtime m.limiter (ms ++ m.metrics)) m.next g' r
        → Runs (on g name rt l ms) p g' r
    on-Runs g name rt l ms p m g' r at runs rest =
        more (on g name rt l ms) (on g name m.runtime m.limiter (ms ++ m.metrics)) g' p m.next r
          (on-advance g name rt l ms p m at runs) rest
