-- ===== src/Server/RateLimit/Admitted.antt =====
-- How many requests a rate limiter lets through in a window.
use go_proton_api.Base.{
  ℕ, suc, ◌+◌, ◌-◌, ◌≤◌, ◌<◌, Option, none, some, List, [], ◌∷◌, ltb, if◌then◌else◌, length, min,
  All, ◌≡◌, refl, arith, Bool-cases, inl, inr,
}
use go_proton_api.Server.RateLimit.{RateLimiter, apply_rate_limit, exceeded, reset}

-- The readings of the clock in one call.
pub record Call : Type 0 where
  pub now : ℕ
  pub later : ℕ
  pub last : ℕ

abbrev pub passes : Option ℕ → ℕ
passes none = 1
passes (some status) = 0

-- How many of the calls go on.
unfoldable pub admitted : List Call → Option RateLimiter → ℕ
admitted [] r = 0
admitted (c ∷ cs) r =
    let (status, r') = apply_rate_limit c.now c.later c.last r in passes status + admitted cs r'

-- The call ends before the window does.
abbrev pub IsWithin : ℕ → Call → Type 0
IsWithin end c = (c.now ≤ end) × (c.last < end)

-- A call within the window only counts, and goes on while the count is below the limit.
passes_within :
    (end : ℕ) (c : Call) (r : RateLimiter)
    → r.next_reset ≡ end
    → IsWithin end c
    → apply_rate_limit c.now c.later c.last (some r) ≡ (
      if ltb r.count r.limit then none else some r.status_code,
      some (record r { count = suc r.count }),
    )
unfolding apply_rate_limit exceeded reset
passes_within end c r e w = ground arith

admitted_within :
    (end : ℕ) (cs : List Call) (r : RateLimiter)
    → r.next_reset ≡ end
    → All (IsWithin end) cs
    → admitted cs (some r) ≡ min (length cs) (r.limit - r.count)
unfolding admitted
admitted_within end [] r e w = omega arith
admitted_within end (c ∷ cs) r e w =
    let rest = admitted_within end cs (record r { count = suc r.count }) e w.1 in
    elim (Bool-cases (ltb r.count r.limit)) [
      | inl t ↦ rw (admitted, passes_within end c r e w.0, t) (ground arith)
      | inr t ↦ rw (admitted, passes_within end c r e w.0, t) (ground arith)
    ]

first_call :
    (c : Call) (r : RateLimiter)
    → r.next_reset < c.now
    → c.last < c.later + r.window
    → apply_rate_limit c.now c.later c.last (some r) ≡ (
      if ltb 0 r.limit then none else some r.status_code,
      some (record r { count = 1; next_reset = c.later + r.window }),
    )
unfolding apply_rate_limit exceeded reset
first_call c r begins ends = ground arith

-- A window begins with the first call after the last one ended. Of the calls of a window, as long as
-- they end before it does, exactly the first `limit` go on, or all where they are fewer.
pub admitted_in_window :
    (c : Call) (cs : List Call) (r : RateLimiter)
    → r.next_reset < c.now
    → c.last < c.later + r.window
    → All (IsWithin (c.later + r.window)) cs
    → admitted (c ∷ cs) (some r) ≡ min (length (c ∷ cs)) r.limit
unfolding admitted
admitted_in_window c cs r begins ends within =
    let fresh = record r { count = 1; next_reset = c.later + r.window } in
    let rest = admitted_within (c.later + r.window) cs fresh refl within in
    let first : apply_rate_limit c.now c.later c.last (some r)
        ≡ (if ltb 0 r.limit then none else some r.status_code, some fresh) =
      first_call c r begins ends in
    elim (Bool-cases (ltb 0 r.limit)) [
      | inl t ↦ rw (admitted, first, t) (ground arith)
      | inr t ↦ rw (admitted, first, t) (ground arith)
    ]
