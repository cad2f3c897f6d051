-- ===== src/Main.antt =====
-- main.go: the start of the process, its servers and its end.
pub mod Shutdown
use secrets_store_csi_driver.Prelude.{
  if◌then◌else◌, ℕ, ◌*◌, Text, codes, ◌++◌, List, [], ◌∷◌, Option, none, some,
}
use secrets_store_csi_driver.Outcome.{Outcome, ok, err, panic, Error, Failure, Reply, done, failed}
use secrets_store_csi_driver.PullLimit.{RateLimiter, Limiter}
use secrets_store_csi_driver.Provider.Types.{second}
use secrets_store_csi_driver.Server.Health.{HealthZ, HttpEnd, serve_exits}

-- The flags; the port and the two limits are ints, by their bits.
pub record Flags : Type 0 where
  pub endpoint_dir : Text
  pub healthz_port : ℕ
  pub healthz_path : Text
  pub healthz_timeout : ℕ
  pub max_concurrent_kms_secret_pulls : ℕ
  pub max_concurrent_oos_secret_pulls : ℕ
  pub region : Text

-- Their defaults.
abbrev pub default_flags : Flags
default_flags = record {
  endpoint_dir = codes "/etc/kubernetes/secrets-store-csi-providers";
  healthz_port = 8989;
  healthz_path = codes "/healthz";
  healthz_timeout = 5 * second;
  max_concurrent_kms_secret_pulls = 10;
  max_concurrent_oos_secret_pulls = 10;
  region = codes "cn-hangzhou";
}

-- `net.Listener` and `*grpc.Server`: addresses of objects.
abbrev pub Listener : Type 0
Listener = ℕ

abbrev pub GrpcServer : Type 0
GrpcServer = ℕ

-- `CSIDriverProviderServer` of server/server.go, which embeds a pointer to a server of gRPC.
pub record CsiDriverProviderServer : Type 0 where
  pub grpc_server : Option GrpcServer

-- `NewServer` of server/server.go; nil is `none`.
unfoldable pub new_server : Outcome (Option CsiDriverProviderServer)
new_server = ok (some (record { grpc_server = none }))

-- What the process uses outside: rate limiters, the file system, sockets, gRPC, and the printing of
-- numbers and addresses.
pub record System (W : Type 0) : Type 0 where
  pub new_limiter : (limit burst : ℕ) → W → RateLimiter × W
  pub remove : Text → W → Reply (Unit {0}) × W
  pub new_grpc_server : W → GrpcServer × W
  pub listen : Text → W → Reply Listener × W
  pub close : Listener → W → Reply (Unit {0}) × W
  pub address : Listener → Text
  pub register_provider : GrpcServer → CsiDriverProviderServer → W → W
  pub register_health : GrpcServer → CsiDriverProviderServer → W → W
  pub graceful_stop : GrpcServer → W → W
  pub format_uint : ℕ → Text
  pub join_host_port : Text → Text → Text

-- How the process ends. `Fatalf` and `os.Exit` end it on the spot; a panic and the return run the
-- deferred calls of `main` first. A panic in the goroutine of a request runs none of them.
pub data Exit : Type 0 where
  fatal_listen fatal_serve : Failure → Exit
  fatal_create : Error → Exit
  fatal_empty health_exit crashed handler_crashed returned : Exit

-- The process once it serves: the settings, what `main` holds, and the health server.
pub record Running : Type 0 where
  pub limiter : Limiter
  pub region : Text
  pub socket : Text
  pub listener : Listener
  pub grpc_server : GrpcServer
  pub provider_server : CsiDriverProviderServer
  pub healthz : HealthZ

pub data Start : Type 0 where
  ended : Exit → Start
  running : Running → Start

-- `endpoint`
unfoldable pub socket_path : Flags → Text
socket_path flags = flags.endpoint_dir ++ codes "/alibabacloud.sock"

-- What happens while the process waits for a signal: a server ends, the handler of a request to gRPC
-- ends, a signal comes, or something else happens outside, the effects of the requests among it. The
-- handlers of net/http recover their panics, and those of gRPC do not.
pub data Event (W : Type 0) : Type 0 where
  serve_ended : Reply (Unit {0}) → Event W
  health_ended : HttpEnd → Event W
  handler_ended : Outcome (Unit {0}) → Event W
  signalled : Event W
  elsewhere : (W → W) → Event W

module _ {W : Type 0} (system : System W) where
  open system use {
    new_limiter, remove, new_grpc_server, listen, close, address, register_provider,
    register_health, graceful_stop, format_uint, join_host_port,
  }

  -- The health server of the flags.
  unfoldable pub healthz_of : Flags → Listener → HealthZ
  healthz_of flags l = record {
    host = join_host_port [] (format_uint flags.healthz_port);
    path = flags.healthz_path;
    unix_socket_path = address l;
    rpc_timeout = flags.healthz_timeout;
  }

  -- What follows `NewServer`.
  unfoldable pub created :
      Flags
      → Limiter
      → GrpcServer
      → Listener
      → Outcome (Option CsiDriverProviderServer)
      → W
      → Start × W
  created flags limiter srv l (ok (some provider)) w = (
    running (record {
      limiter = limiter;
      region = flags.region;
      socket = socket_path flags;
      listener = l;
      grpc_server = srv;
      provider_server = provider;
      healthz = healthz_of flags l;
    }),
    register_health srv provider (register_provider srv provider w),
  )
  created flags limiter srv l (ok none) w = (ended fatal_empty, w)
  created flags limiter srv l (err e) w = (ended (fatal_create e), w)
  created flags limiter srv l panic w = (ended crashed, w)

  -- What follows `net.Listen`.
  unfoldable pub listened : Flags → Limiter → GrpcServer → Reply Listener × W → Start × W
  listened flags limiter srv (failed f, w) = (ended (fatal_listen f), w)
  listened flags limiter srv (done l, w) = created flags limiter srv l new_server w

  -- `main` up to its wait for a signal.
  unfoldable pub start : Flags → W → Start × W
  start flags w =
      let (kms, w1) = new_limiter flags.max_concurrent_kms_secret_pulls 1 w in
      let (oos, w2) = new_limiter flags.max_concurrent_oos_secret_pulls 1 w1 in
      let limiter : Limiter = record {
        kms = record { secret_pull_limiter = some kms };
        oos = record { secret_pull_limiter = some oos };
      } in
      let (srv, w3) = new_grpc_server (remove (socket_path flags) w2).1 in
      listened flags limiter srv (listen (socket_path flags) w3)

  -- The deferred cleanup.
  unfoldable pub cleanup : Running → W → W
  cleanup r w = (remove r.socket (close r.listener w).1).1

  -- `providerSrv.GracefulStop()` and the end of `main`: a nil server is dereferenced.
  unfoldable pub stop : Running → Option GrpcServer → W → Exit × W
  stop r none w = (crashed, cleanup r w)
  stop r (some s) w = (returned, cleanup r (graceful_stop s w))

  -- An event, and the end of the process if it ends it.
  unfoldable pub step : Running → Event W → W → Option Exit × W
  step r (serve_ended (done _)) w = (none, w)
  step r (serve_ended (failed f)) w = (some (fatal_serve f), w)
  step r (health_ended e) w = (if serve_exits e then some health_exit else none, w)
  step r (handler_ended panic) w = (some handler_crashed, w)
  step r (handler_ended _) w = (none, w)
  step r signalled w = let (x, w') = stop r r.provider_server.grpc_server w in (some x, w')
  step r (elsewhere f) w = (none, f w)

  unfoldable pub after_step : (W → Option Exit × W) → Option Exit × W → Option Exit × W
  after_step rest (none, w) = rest w
  after_step rest (some x, w) = (some x, w)

  -- The events in their order, up to the end of the process.
  unfoldable pub run : Running → List (Event W) → W → Option Exit × W
  run r [] w = (none, w)
  run r (e ∷ es) w = after_step (run r es) (step r e w)
