-- ===== src/Provider/Backoff.antt =====
-- The pause before a retry.
use secrets_store_csi_driver.Prelude.{
  ℕ, zero, suc, ◌≡◌, ◌<◌, ◌*◌, ◌^◌, refl, Bool, true, ◌&&◌, ◌==◌, leb, if◌then◌else◌, arith, ==_iff,
}
use secrets_store_csi_driver.Provider.Types.{
  get_wait_time_exponential, second, backoff_default_capacity,
}

-- The test at every number below a bound.
all_below : ℕ → (ℕ → Bool) → Bool
all_below zero p = true
all_below (suc n) p = p n && all_below n p

all_below-at : (n : ℕ) (p : ℕ → Bool) (x : ℕ) → all_below n p ≡ true → x < n → p x ≡ true
unfolding all_below
all_below-at zero p x h lt = absurd (omega arith)
all_below-at (suc n) p x h lt = ground (arith, all_below-at n p x)

-- The pause in unbounded numbers: 2^n seconds, capped at ten.
abbrev pub capped_pause : ℕ → ℕ
capped_pause n = if leb 4 n then backoff_default_capacity else 2 ^ n * second

table : all_below 34 (λ n. get_wait_time_exponential n == capped_pause n) ≡ true
unfolding all_below get_wait_time_exponential
table = refl

-- Up to 33 retries the pause is 2^n seconds, or ten from the fourth on: the int64 does not overflow.
pub get_wait_time_exponential_lem : (n : ℕ) → n < 34 → get_wait_time_exponential n ≡ capped_pause n
get_wait_time_exponential_lem n h =
    (==_iff (get_wait_time_exponential n) (capped_pause n)).0
      (all_below-at 34 (λ k. get_wait_time_exponential k == capped_pause k) n table h)
