-- ===== src/Server/RateLimit.antt =====
-- server/rate_limit.go, and the middleware of server/router.go that applies it. A time is a number of
-- nanoseconds; the three readings of the clock in one call are arguments.
pub mod Admitted
use go_proton_api.Base.{ℕ, suc, ◌+◌, ◌-◌, Bool, true, false, Option, none, some, ltb, if◌then◌else◌}
use go_proton_api.Base.Int.{ℤ, pos, negsuc}

pub record RateLimiter : Type 0 where
  pub limit : ℕ
  pub window : ℕ
  pub next_reset : ℕ
  pub count : ℕ
  pub status_code : ℕ

unfoldable pub new_rate_limiter : ℕ → ℕ → ℕ → RateLimiter
new_rate_limiter limit window status_code = record {
  limit = limit;
  window = window;
  next_reset = 0;
  count = 0;
  status_code = status_code;
}

abbrev pub difference : ℕ → ℕ → ℤ
difference a b = if ltb a b then negsuc (b - a - 1) else pos (a - b)

-- The reset at the start of a call.
unfoldable pub reset : ℕ → ℕ → RateLimiter → RateLimiter
reset now later r =
    if ltb r.next_reset now then record r { count = 0; next_reset = later + r.window } else r

-- The wait, and the limiter after the call.
unfoldable pub exceeded : ℕ → ℕ → ℕ → RateLimiter → ℤ × RateLimiter
unfolding reset
exceeded now later last r =
    let r' = reset now later r in
    let counted = record r' { count = suc r'.count } in
    (if ltb counted.limit counted.count then difference counted.next_reset last else pos 0, counted)

abbrev pub is_positive : ℤ → Bool
is_positive (pos n) = ltb 0 n
is_positive (negsuc n) = false

-- `none` is a request that goes on, `some` the status with which it is aborted.
unfoldable pub apply_rate_limit : ℕ → ℕ → ℕ → Option RateLimiter → Option ℕ × Option RateLimiter
unfolding exceeded
apply_rate_limit now later last none = (none, none)
apply_rate_limit now later last (some r) =
    let (wait, r') = exceeded now later last r in
    (if is_positive wait then some r'.status_code else none, some r')
