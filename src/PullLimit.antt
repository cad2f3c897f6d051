-- ===== src/PullLimit.antt =====
-- provider/pull_limit.go and the `Limiter` of provider/secret_manager_provider.go.
use secrets_store_csi_driver.Prelude.{ℕ, Option, none, some}
use secrets_store_csi_driver.Outcome.{err, Reply, limiter_empty, passed_on}
use secrets_store_csi_driver.Exec.{Exec, reply}

-- `*rate.Limiter`: the address of an object of golang.org/x/time/rate.
abbrev pub RateLimiter : Type 0
RateLimiter = ℕ

-- `KmsLimiter` and `OosLimiter`, which have the same shape; nil is `none`.
pub record PullLimiter : Type 0 where
  pub secret_pull_limiter : Option RateLimiter

-- `Limiter`
pub record Limiter : Type 0 where
  pub kms : PullLimiter
  pub oos : PullLimiter

-- A wait on a limiter that may be nil.
abbrev pub wait_on :
    {W : Type 0}
    → (RateLimiter → ℕ → W → Reply (Unit {0}) × W)
    → Option RateLimiter
    → ℕ
    → Exec W (Unit {0})
wait_on rate_wait none timeout w = (err limiter_empty, w)
wait_on rate_wait (some l) timeout w = reply (rate_wait l timeout w) passed_on

-- `Wait` of both limiters; `rate_wait` is that of `rate.Limiter`, with the timeout of the context.
unfoldable pub wait :
    {W : Type 0}
    → (RateLimiter → ℕ → W → Reply (Unit {0}) × W)
    → PullLimiter
    → ℕ
    → Exec W (Unit {0})
wait rate_wait k timeout w = wait_on rate_wait k.secret_pull_limiter timeout w
