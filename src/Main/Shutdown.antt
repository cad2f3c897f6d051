-- ===== src/Main/Shutdown.antt =====
-- main.go: how the process ends.
use secrets_store_csi_driver.Prelude.{codes, ◌≡◌, ◌≢◌, List, ◌∷◌, ◌++◌, All, Option, none, some}
use secrets_store_csi_driver.Outcome.{ok, err, panic, done, failed}
use secrets_store_csi_driver.Server.Health.{ended_well, server_closed, ended_with}
use secrets_store_csi_driver.Main.{
  Flags, Limiter, System, Exit, fatal_serve, health_exit, crashed, handler_crashed, handler_ended,
  Running, Start, ended, running, Event, serve_ended, health_ended, signalled, elsewhere, run,
}

-- The events that the process outlives.
abbrev pub IsQuiet : {W : Type 0} → Event W → Type 0
IsQuiet (serve_ended (done _)) = Unit
IsQuiet (serve_ended (failed f)) = ⊥
IsQuiet (health_ended ended_well) = Unit
IsQuiet (health_ended server_closed) = ⊥
IsQuiet (health_ended (ended_with f)) = Unit
IsQuiet (handler_ended (ok u)) = Unit
IsQuiet (handler_ended (err e)) = Unit
IsQuiet (handler_ended panic) = ⊥
IsQuiet signalled = ⊥
IsQuiet (elsewhere f) = Unit

-- An event that ends the process on the spot, with the exit that it makes.
abbrev pub Ends : {W : Type 0} → Event W → Exit → Type 0
Ends (serve_ended (failed f)) x = x ≡ fatal_serve f
Ends (health_ended server_closed) x = x ≡ health_exit
Ends (handler_ended panic) x = x ≡ handler_crashed
Ends _ x = ⊥

-- No server of gRPC is embedded.
abbrev pub HasNoServer : Running → Type 0
HasNoServer r = r.provider_server.grpc_server ≡ none

-- What the flags come to: the socket below their directory, their region, and both limiters.
pub record IsSetUp (flags : Flags) (r : Running) : Type 0 where
  pub socket : r.socket ≡ flags.endpoint_dir ++ codes "/alibabacloud.sock"
  pub region : r.region ≡ flags.region
  pub kms_limited : r.limiter.kms.secret_pull_limiter ≢ none
  pub oos_limited : r.limiter.oos.secret_pull_limiter ≢ none

abbrev AreLimited : Limiter → Type 0
AreLimited limiter =
    (limiter.kms.secret_pull_limiter ≢ none) × (limiter.oos.secret_pull_limiter ≢ none)

module _ {W : Type 0} (system : System W) where
  abbrev StartsBare : Flags → Start × W → Type 0
  StartsBare flags (ended x, w) = Unit
  StartsBare flags (running r, w) = IsSetUp flags r × HasNoServer r

  -- The listener closed, and the socket removed behind that.
  abbrev pub cleaned : Running → W → W
  cleaned r w = (system.remove r.socket (system.close r.listener w).1).1

  -- How a run of events ends: it goes on; a signal crashes the process behind the cleanup; or another
  -- event ends it on the spot, with the socket left.
  pub data Outcomes (r : Running) (w : W) : List (Event W) → Option Exit × W → Type 0 where
    goes_on : (es : List (Event W)) (v : W) → All IsQuiet es → Outcomes r w es (none, v)
    crashes :
        (before after : List (Event W)) (v : W)
        → run system r before w ≡ (none, v)
        → Outcomes r w (before ++ signalled ∷ after) (some crashed, cleaned r v)
    dies :
        (before after : List (Event W)) (e : Event W) (x : Exit) (v : W)
        → run system r before w ≡ (none, v)
        → Ends e x
        → Outcomes r w (before ++ e ∷ after) (some x, v)
