-- ===== src/Interleaved/Tests.antt =====
-- A request that arrives at the gateway of Proxy/Runs.antt, as a task.
use rust_api_gateway.Base.{◌<◌, ◌≡◌, ◌↔◌, refl, true, some, [], ◌∷◌, str}
use rust_api_gateway.Headers.Instance.{listed}
use rust_api_gateway.State.{GatewayState, build}
use rust_api_gateway.Proxy.Responses.{Response}
use rust_api_gateway.Proxy.Handler.{Request}
use rust_api_gateway.Proxy.Gateway.{Gateway, handle}
use rust_api_gateway.Proxy.Wellformed.{IsWellformed, IsBriefState}
use rust_api_gateway.Proxy.Requests.{handle-IsWellformed}
use rust_api_gateway.Proxy.Lifetime.{build-IsWellformed, build-IsBriefState}
use rust_api_gateway.Proxy.Runs.{
  Windows, fresh, world, world-IsOrderly, world-IsEarlyAt, fresh-IsBriefState, sample-IsBrief,
  get_request, no_connect, accepts_sample,
}
use rust_api_gateway.Interleaved.{Point, entered}
use rust_api_gateway.Interleaved.Loop.{advance}
use rust_api_gateway.Interleaved.Local.{cost}
use rust_api_gateway.Interleaved.Tasks.{Handling, Busy, Reach, here, next, arrives}
use rust_api_gateway.Interleaved.Steady.{IsSteady}
use rust_api_gateway.Interleaved.Built.{idle, Reach-build, Reach-IsBriefState, advance-IsSteady}
use rust_api_gateway.Interleaved.Alone.{Runs}
use rust_api_gateway.Interleaved.Alone.Equivalence.{handle-Runs}
use rust_api_gateway.Samples.{sample}

Reach-build_example :
    (s : GatewayState Windows) × (build true no_connect [] sample ≡ some s)
    × ((u : Busy listed Windows) → Reach listed (idle s) u → IsSteady listed u)
Reach-build_example = Reach-build listed no_connect [] sample accepts_sample

abbrev arrived : Handling listed
arrived = record { request = get_request (str "/api"); point = entered }

abbrev state : GatewayState Windows
state = (Reach-build listed no_connect [] sample accepts_sample).0

abbrev busy : Busy listed Windows
busy = record (idle state) { tasks = arrived ∷ [] }

arrives_first : Reach listed (idle state) busy
arrives_first = next (idle state) busy here (arrives (get_request (str "/api")))

busy-IsBriefState : IsBriefState busy.gateway.state
busy-IsBriefState =
    let (s, built, steady) = Reach-build listed no_connect [] sample accepts_sample in
    Reach-IsBriefState listed (idle state) busy (steady (idle state) here)
      (build-IsBriefState no_connect [] sample state built sample-IsBrief) arrives_first

advance-IsSteady_example :
    (g : Gateway Windows) × (q : Point listed) × (advance listed world
        (get_request (str "/api"))
        busy.gateway
        entered
      ≡ some (g, q))
    × (cost listed q < cost listed entered)
    × IsBriefState g.state
advance-IsSteady_example =
    advance-IsSteady listed busy world 0 arrived
      ((Reach-build listed no_connect [] sample accepts_sample).2 busy arrives_first)
      busy-IsBriefState world-IsOrderly world-IsEarlyAt refl (λ r e. cc)

fresh-IsWellformed : IsWellformed fresh.state
fresh-IsWellformed = (build-IsWellformed no_connect [] sample accepts_sample).2

abbrev user : Request listed
user = get_request (str "/api/users/7")

abbrev left : Gateway Windows
left =
    (handle-IsWellformed listed world world-IsOrderly user fresh world-IsEarlyAt fresh-IsWellformed
      fresh-IsBriefState).0

abbrev reply : Response listed
reply =
    (handle-IsWellformed listed world world-IsOrderly user fresh world-IsEarlyAt fresh-IsWellformed
      fresh-IsBriefState).1

handle-Runs_example :
    (handle listed world user fresh ≡ some (left, reply))
    ↔ Runs listed world user fresh entered left reply
handle-Runs_example =
    handle-Runs listed world world-IsOrderly world-IsEarlyAt (λ n b. refl) user fresh
      fresh-IsWellformed fresh-IsBriefState left reply
