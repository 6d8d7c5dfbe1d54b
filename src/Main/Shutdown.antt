-- ===== src/Main/Shutdown.antt =====
-- Once a signal has arrived, the process can come to its end.
use rust_api_gateway.Base.{◌<◌, ◌≡◌, Bool}
use rust_api_gateway.Headers.{Http}
use rust_api_gateway.Server.{BodyLimit}
use rust_api_gateway.Main.Lifecycle.{returned, System, Advance}
use rust_api_gateway.Main.Measure.{remaining}

module _ (h : Http) {L : Type 0} (limit : BodyLimit h) where
  -- Steps towards the end that reach it, each leaving fewer.
  pub data ComesToEnd : System L → Type 0 where
    over : (s : System L) (fine : Bool) → s.main ≡ returned fine → ComesToEnd s
    nearer :
        (s s' : System L)
        → Advance h limit s s'
        → remaining s' < remaining s
        → ComesToEnd s'
        → ComesToEnd s
