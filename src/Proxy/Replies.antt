-- ===== src/Proxy/Replies.antt =====
-- What requests to the gateway of Proxy/Runs.antt come to.
use rust_api_gateway.Base.{◌≡◌, refl, some, [], str, texts}
use rust_api_gateway.Headers.Instance.{listed, listed-HttpLaws}
use rust_api_gateway.Transform.{get_str}
use rust_api_gateway.Proxy.Responses.{Response, correlation_header}
use rust_api_gateway.Proxy.Gateway.{Gateway, handle}
use rust_api_gateway.Proxy.Verdict.{Verdict}
use rust_api_gateway.Proxy.Policy.{handle-Verdict}
use rust_api_gateway.Proxy.Correlated.{handle-IsCorrelated}
use rust_api_gateway.Samples.{sample}
use rust_api_gateway.Proxy.Lifetime.{build-IsWellformed}
use rust_api_gateway.Proxy.Runs.{
  Windows, world, world-IsOrderly, world-IsEarlyAt, fresh-IsBriefState, get_request, no_connect,
  accepts_sample, fresh,
}

handle-Verdict_example :
    (g : Gateway Windows) × (r : Response listed) × (handle listed world
        (get_request (str "/api"))
        fresh
      ≡ some (g, r))
    × Verdict listed world (get_request (str "/api")) fresh.state g.state r
handle-Verdict_example =
    handle-Verdict listed world (get_request (str "/api")) fresh world-IsOrderly world-IsEarlyAt
      (build-IsWellformed no_connect [] sample accepts_sample).2 fresh-IsBriefState

handle-IsCorrelated_example :
    (g : Gateway Windows) × (r : Response listed) × (handle listed world
        (get_request (str "/api"))
        fresh
      ≡ some (g, r))
    × (get_str listed r.headers correlation_header ≡ some (str "id"))
unfolding texts
handle-IsCorrelated_example =
    handle-IsCorrelated listed listed-HttpLaws (get_request (str "/api")) refl world fresh
      world-IsOrderly world-IsEarlyAt (build-IsWellformed no_connect [] sample accepts_sample).2
      fresh-IsBriefState
