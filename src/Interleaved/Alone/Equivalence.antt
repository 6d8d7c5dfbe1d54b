-- ===== src/Interleaved/Alone/Equivalence.antt =====
-- The handler of crates/gateway/src/proxy.rs and the steps of a request that is alone.
use rust_api_gateway.Base.{ℕ, ◌≡◌, refl, ◌↔◌, some, arith}
use rust_api_gateway.Headers.{Http}
use rust_api_gateway.Balancer.{Balancer}
use rust_api_gateway.Proxy.Responses.{Response}
use rust_api_gateway.Proxy.Handler.{Request}
use rust_api_gateway.Proxy.Gateway.{Gateway, World, handle}
use rust_api_gateway.Proxy.Instants.{IsEarlyAt}
use rust_api_gateway.Proxy.Wellformed.{IsOrderly, IsWellformed, IsBriefState}
use rust_api_gateway.Proxy.Requests.{handle-IsWellformed}
use rust_api_gateway.Interleaved.{Point, entered}
use rust_api_gateway.Interleaved.Loop.{advance}
use rust_api_gateway.Interleaved.Alone.{Runs, done, more}
use rust_api_gateway.Interleaved.Alone.Handle.{handle-Runs_to}

module _ (h : Http) {L : Type 0} (w : World h L) (req : Request h) where
  -- Where the steps of a request end.
  abbrev Same : Gateway L → Response h → Gateway L → Response h → Type 0
  Same g r g' r' = (g ≡ g') × (r ≡ r')

  Runs-once :
      (g g1 g2 : Gateway L) (p : Point h) (r1 r2 : Response h)
      → Runs h w req g p g1 r1
      → Runs h w req g p g2 r2
      → Same g1 r1 g2 r2
  unfolding advance
  Runs-once _ _ _ _ _ _ (done g r) (done _ _) = (refl, refl)
  Runs-once _ _ _ _ _ _ (done g r) (more _ g' g2 _ q r2 e rest) = absurd (ground (arith, e))
  Runs-once _ _ _ _ _ _ (more g g' g1 p q r1 e rest) (done _ r2) = absurd (ground (arith, e))
  Runs-once _ _ _ _ _ _ (more g g' g1 p q r1 e rest) (more _ g'' g2 _ q' r2 e' rest') =
      let same : g'' ≡ g' = ground (arith, e, e') in
      let next : q' ≡ q = ground (arith, e, e') in
      Runs-once g' g1 g2 q r1 r2 rest (rw same at (rw next at rest'))

-- Where no other task touches a balancer while an upstream is awaited, the hash map iterates over
-- its entries, the gateway is well formed and no instant overflows (the clock reads less than 2^62 seconds
-- when a failure is reported or a response is stored, and the cooldowns and times to live are at most
-- that), the handler as one function returns a gateway and a response exactly where the steps of the
-- interleaved request, taken one after the other from its arrival, end with the two.
pub handle-Runs :
    (h : Http) {L : Type 0} (w : World h L)
    → IsOrderly h w
    → IsEarlyAt w.times
    → ((n : ℕ) (b : Balancer) → w.during n b ≡ b)
    → (req : Request h) (g : Gateway L) → IsWellformed g.state
    → IsBriefState g.state
    → (g' : Gateway L) (r : Response h)
    → (handle h w req g ≡ some (g', r)) ↔ Runs h w req g entered g' r
handle-Runs h w o early alone req g v brief g' r = (
  handle-Runs_to h w o alone req g g' r,
  λ steps.
      let (g1, r1, returns, _, _, _, _) = handle-IsWellformed h w o req g early v brief in
      let (one, other) =
        Runs-once h w req g g1 g' entered r1 r (handle-Runs_to h w o alone req g g1 r1 returns)
          steps in
      rw (returns, one, other) refl,
)
