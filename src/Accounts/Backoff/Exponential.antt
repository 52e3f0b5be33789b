-- ===== src/Accounts/Backoff/Exponential.antt =====
-- The loop computes a capped power of two.
use Prim.Native.Nat.{min}
use native.Mathlib.Nat.{pow-suc}
use grok_go.Base.{ℕ, zero, suc, ◌*◌, ◌^◌, ◌<◌, ◌≤◌, ◌≡◌, arith, ap}
use grok_go.Base.Int.{pos, wrap64, ◌+ℤ◌}
use grok_go.Accounts.Policy.{Policy}
use grok_go.Accounts.Backoff.{backoff_loop, transient_backoff}

double_small : (d : ℕ) → d < 2 ^ 62 → wrap64 (pos d +ℤ pos d) ≡ pos (2 * d)
unfolding wrap64 ◌+ℤ◌
double_small d h = ground arith

pow_step : (d n : ℕ) → d * 2 ^ suc n ≡ 2 * d * 2 ^ n
pow_step d n = omega (arith, ap (λ (t : ℕ). d * t) (pow-suc 2 n))

le-mul-pow : (d n : ℕ) → d ≤ d * 2 ^ n
le-mul-pow d zero = omega arith
le-mul-pow d (suc n) = omega (arith, le-mul-pow d n, pow_step d n)

backoff_loop_lem :
    (m n d : ℕ) → d ≤ m → m < 2 ^ 62 → backoff_loop (pos m) n (pos d) ≡ pos (min m (d * 2 ^ n))
unfolding backoff_loop
backoff_loop_lem m zero d h k = ap pos (omega arith)
backoff_loop_lem m (suc n) d h k =
    rw (double_small d (omega arith))
      (ground (arith, backoff_loop_lem m n (2 * d), pow_step d n, le-mul-pow d n))

-- After n + 1 failures in a row the delay is the base delay doubled n times, capped at the maximum,
-- for delays that are ordered and whose doubles fit an `int64`.
pub transient_backoff_exponential :
    (policy : Policy) (base max n : ℕ)
    → policy.transient_base_delay ≡ pos base
    → policy.transient_max_delay ≡ pos max
    → base ≤ max
    → max < 2 ^ 62
    → transient_backoff policy (pos (suc n)) ≡ pos (min max (base * 2 ^ n))
unfolding transient_backoff
transient_backoff_exponential policy base max n b m h k =
    rw (b, m) (ground (arith, backoff_loop_lem max n base h k))
