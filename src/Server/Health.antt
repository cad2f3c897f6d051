-- ===== src/Server/Health.antt =====
-- server/healthz.go: the health check over HTTP; and the answers of server/server.go that are
-- constants.
use secrets_store_csi_driver.Prelude.{
  ℕ, suc, Text, codes, ◌≡◌, ◌≢◌, refl, ap, ◌∙◌, ◌↔◌, arith, Bool, true, false, Option, none, some,
}
use secrets_store_csi_driver.Outcome.{
  Outcome, ok, err, Error, Failure, Reply, done, failed, not_serving, unimplemented, passed_on,
}

-- `grpc_health_v1.HealthCheckResponse_ServingStatus`
pub data ServingStatus : Type 0 where
  unknown serving stopped service_unknown : ServingStatus

-- `VersionResponse`
pub record VersionResponse : Type 0 where
  pub version : Text
  pub runtime_name : Text
  pub runtime_version : Text

-- `Version`; the version of the build is a parameter.
unfoldable pub version_response : Text → VersionResponse
version_response build = record {
  version = codes "v1alpha1";
  runtime_name = codes "secrets-store-csi-driver-provider-alibabacloud";
  runtime_version = build;
}

-- `Check`
unfoldable pub check : Outcome ServingStatus
check = ok serving

-- `List` and `Watch`
unfoldable pub list : Outcome (Unit {0})
list = err (unimplemented (codes "List is not supported"))

unfoldable pub watch : Outcome (Unit {0})
watch = err (unimplemented (codes "Watch is not supported"))

-- `HealthZ`, with the host and the path of its URL.
pub record HealthZ : Type 0 where
  pub host : Text
  pub path : Text
  pub unix_socket_path : Text
  pub rpc_timeout : ℕ

-- What `http.ListenAndServe` answers: nil, an error that is `http.ErrServerClosed`, or another.
pub data HttpEnd : Type 0 where
  ended_well server_closed : HttpEnd
  ended_with : Failure → HttpEnd

-- A gRPC connection: the address of an object of google.golang.org/grpc.
abbrev pub Connection : Type 0
Connection = ℕ

-- What the health server uses outside: the connection to the socket (`grpc.Dial`), the remote check within
-- a timeout, the body of the answer, and the serving of a path over HTTP.
pub record Net (W : Type 0) : Type 0 where
  pub dial : Text → W → Reply Connection × W
  pub remote_check : Connection → ℕ → W → Reply (Option ServingStatus) × W
  pub write_ok : W → Reply (Unit {0}) × W
  pub close : Connection → W → W
  pub escaped_path : Text → Text
  pub listen_and_serve : (host path : Text) → W → HttpEnd × W

-- What the handler answers: the status 200, perhaps with an error behind it, or 503 with an error.
pub data HttpAnswer : Type 0 where
  healthy : HttpAnswer
  broken_off : Failure → HttpAnswer
  unavailable : Error → HttpAnswer

abbrev pub status : HttpAnswer → ℕ
status healthy = 200
status (broken_off f) = 200
status (unavailable e) = 503

not_ok : (e : Error) → status (unavailable e) ≢ 200
not_ok r e = omega arith

-- `checkRPC` on the answer of the remote check: its error, or nil; a nil response is `none`.
unfoldable pub check_rpc : Reply (Option ServingStatus) → Option Error
check_rpc (failed f) = some (passed_on f)
check_rpc (done none) = some not_serving
check_rpc (done (some unknown)) = some not_serving
check_rpc (done (some serving)) = none
check_rpc (done (some stopped)) = some not_serving
check_rpc (done (some service_unknown)) = some not_serving

-- Whether the error of `http.ListenAndServe` ends the process: the test in `HealthZ.Serve`.
unfoldable pub serve_exits : HttpEnd → Bool
serve_exits ended_well = false
serve_exits server_closed = true
serve_exits (ended_with f) = false

module _ {W : Type 0} (net : Net W) (h : HealthZ) where
  -- `HealthZ.Serve`: whether it ends the process.
  unfoldable pub serve : W → Bool × W
  serve w =
      let (end, w') = net.listen_and_serve h.host (net.escaped_path h.path) w in
      (serve_exits end, w')

  -- `HealthZ.dialUnixSocket`
  unfoldable pub dial_unix_socket : W → Reply Connection × W
  dial_unix_socket w = net.dial h.unix_socket_path w

  -- The end of the handler, behind the writing of the body.
  unfoldable pub written : Reply (Unit {0}) × W → HttpAnswer × W
  written (done _, w) = (healthy, w)
  written (failed f, w) = (broken_off f, w)

  -- What follows the check.
  unfoldable pub checked : Option Error → W → HttpAnswer × W
  checked none w = written (net.write_ok w)
  checked (some e) w = (unavailable e, w)

  -- The part of the handler with a connection, which is closed at its end.
  unfoldable pub with_connection : Connection → W → HttpAnswer × W
  with_connection c w =
      let (r, w') = net.remote_check c h.rpc_timeout w in
      let (answer, w'') = checked (check_rpc r) w' in (answer, net.close c w'')

  unfoldable pub dialled : Reply Connection × W → HttpAnswer × W
  dialled (failed f, w) = (unavailable (passed_on f), w)
  dialled (done c, w) = with_connection c w

  -- `HealthZ.ServeHTTP`
  unfoldable pub serve_http : W → HttpAnswer × W
  serve_http w = dialled (dial_unix_socket w)

  -- The remote side answers that it serves.
  abbrev pub IsServing : Reply Connection × W → Type 0
  IsServing (failed f, w) = ⊥
  IsServing (done c, w) = (net.remote_check c h.rpc_timeout w).0 ≡ done (some serving)

  checked_iff :
      (r : Reply (Option ServingStatus)) (w : W)
      → (status (checked (check_rpc r) w).0 ≡ 200) ↔ (r ≡ done (some serving))
  unfolding checked check_rpc written
  checked_iff (failed f) w = ((λ e. absurd (not_ok not_serving e)), (λ e. cc))
  checked_iff (done none) w = ((λ e. absurd (not_ok not_serving e)), (λ e. cc))
  checked_iff (done (some unknown)) w = ((λ e. absurd (not_ok not_serving e)), (λ e. cc))
  checked_iff (done (some stopped)) w = ((λ e. absurd (not_ok not_serving e)), (λ e. cc))
  checked_iff (done (some service_unknown)) w = ((λ e. absurd (not_ok not_serving e)), (λ e. cc))
  checked_iff (done (some serving)) w = ((λ e. refl), (λ e. written_status (net.write_ok w)))
    where
      written_status : (p : Reply (Unit {0}) × W) → status (written p).0 ≡ 200
      written_status (done _, v) = refl
      written_status (failed f, v) = refl

  -- `ServeHTTP` answers with the status 200 exactly when the socket can be dialled and the check over
  -- it answers that it serves.
  pub serve_http_iff : (w : W) → (status (serve_http w).0 ≡ 200) ↔ IsServing (dial_unix_socket w)
  unfolding serve_http dialled with_connection
  serve_http_iff w = dialled_iff (dial_unix_socket w)
    where
      dialled_iff : (p : Reply Connection × W) → (status (dialled p).0 ≡ 200) ↔ IsServing p
      dialled_iff (failed f, v) = ((λ e. absurd (not_ok not_serving e)), (λ e. absurd e))
      dialled_iff (done c, v) =
          checked_iff (net.remote_check c h.rpc_timeout v).0 (net.remote_check c h.rpc_timeout v).1

  -- A measure of the world that counts the open connections.
  pub record CountsOpen (open_connections : W → ℕ) : Type 0 where
    pub opened :
        (w w' : W) (c : Connection)
        → dial_unix_socket w ≡ (done c, w')
        → open_connections w' ≡ suc (open_connections w)
    pub not_opened :
        (w w' : W) (f : Failure)
        → dial_unix_socket w ≡ (failed f, w')
        → open_connections w' ≡ open_connections w
    pub asked :
        (c : Connection) (w : W)
        → open_connections (net.remote_check c h.rpc_timeout w).1 ≡ open_connections w
    pub wrote : (w : W) → open_connections (net.write_ok w).1 ≡ open_connections w
    pub closed :
        (c : Connection) (w : W) (n : ℕ)
        → open_connections w ≡ suc n
        → open_connections (net.close c w) ≡ n

  module _ (open_connections : W → ℕ) (counts : CountsOpen open_connections) where
    written-world : (p : Reply (Unit {0}) × W) → (written p).1 ≡ p.1
    unfolding written
    written-world (done _, w) = refl
    written-world (failed f, w) = refl

    checked-open :
        (e : Option Error) (w : W) → open_connections (checked e w).1 ≡ open_connections w
    unfolding checked
    checked-open none w = ap open_connections (written-world (net.write_ok w)) ∙ counts.wrote w
    checked-open (some e) w = refl

    -- In a measure of the world that counts the open connections, `ServeHTTP` leaves as many open as there
    -- were, whatever happens.
    pub serve_http-open_connections :
        (w : W) → open_connections (serve_http w).1 ≡ open_connections w
    unfolding serve_http dialled with_connection
    serve_http-open_connections w = through (dial_unix_socket w) refl
      where
        through :
            (p : Reply Connection × W)
            → dial_unix_socket w ≡ p
            → open_connections (dialled p).1 ≡ open_connections w
        through (failed f, v) e = counts.not_opened w v f e
        through (done c, v) e = counts.closed c _ (open_connections w) (
            checked-open (check_rpc (net.remote_check c h.rpc_timeout v).0)
              (net.remote_check c h.rpc_timeout v).1
            ∙ counts.asked c v
            ∙ counts.opened w v c e)
