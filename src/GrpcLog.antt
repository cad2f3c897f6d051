-- ===== src/GrpcLog.antt =====
-- utils/grpc.go: the interceptor that logs every request.
use secrets_store_csi_driver.Prelude.{ℕ, Text, Bool, true, false, ◌≡◌, refl, if◌then◌else◌}
use secrets_store_csi_driver.Outcome.{Outcome, ok, err, panic}
use secrets_store_csi_driver.Exec.{Exec}

-- What the interceptor uses outside: the clock, the verbosity of klog, and its messages.
pub record Log (W : Type 0) : Type 0 where
  pub now : W → ℕ × W
  pub until_deadline : W → Text × W
  pub enabled : ℕ → W → Bool
  pub request : (method deadline : Text) → W → W
  pub response : (method deadline : Text) (start : ℕ) (error : Bool) → W → W

module _ {W : Type 0} (log : Log W) where
  -- What follows the handler; a panic passes through.
  unfoldable pub after_handler :
      {A : Type 0} → (method deadline : Text) → ℕ → Outcome A × W → Outcome A × W
  after_handler method deadline start (ok a, w) =
      (ok a, if log.enabled 2 w then log.response method deadline start false w else w)
  after_handler method deadline start (err e, w) =
      (err e, if log.enabled 2 w then log.response method deadline start true w else w)
  after_handler method deadline start (panic, w) = (panic, w)

  -- The message in front of the handler.
  unfoldable pub log_request : (method deadline : Text) → W → W
  log_request method deadline w = if log.enabled 3 w then log.request method deadline w else w

  -- `LogInterceptor` around a handler.
  unfoldable pub log_interceptor : {R A : Type 0} → Text → (R → Exec W A) → R → Exec W A
  log_interceptor method handler req w =
      let (start, w1) = log.now w in
      let (deadline, w2) = log.until_deadline w1 in
      after_handler method deadline start (handler req (log_request method deadline w2))

  after_handler-answer :
      {A : Type 0} (method deadline : Text) (start : ℕ) (r : Outcome A × W)
      → (after_handler method deadline start r).0 ≡ r.0
  unfolding after_handler
  after_handler-answer method deadline start (ok a, w) = refl
  after_handler-answer method deadline start (err e, w) = refl
  after_handler-answer method deadline start (panic, w) = refl

  -- The answer is that of the handler, in the world behind the logging of the request.
  pub log_interceptor-answer :
      {R A : Type 0} (method : Text) (handler : R → Exec W A) (req : R) (w : W)
      → (v : W) × ((log_interceptor method handler req w).0 ≡ (handler req v).0)
  unfolding log_interceptor
  log_interceptor-answer method handler req w =
      let (deadline, w2) = log.until_deadline (log.now w).1 in
      let before = log_request method deadline w2 in
      (before, after_handler-answer method deadline (log.now w).0 (handler req before))
