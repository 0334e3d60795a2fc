-- ===== src/Server/Tests.antt =====
-- Concrete inputs of the server: three requests in a window that lets two through.
mod OrderTest
mod ImportTest
use go_proton_api.Base.{ℕ, some, [], ◌∷◌, length, min, ◌≡◌, arith}
use go_proton_api.Server.RateLimit.{RateLimiter}
use go_proton_api.Server.RateLimit.Admitted.{Call, admitted, admitted_in_window}

abbrev limiter : RateLimiter
limiter = record { limit = 2; window = 100; next_reset = 0; count = 0; status_code = 429 }

abbrev at_time : ℕ → Call
at_time t = record { now = t; later = t; last = t }

admitted_in_window_example :
    admitted (at_time 5 ∷ at_time 50 ∷ at_time 104 ∷ []) (some limiter)
    ≡ min (length (at_time 5 ∷ at_time 50 ∷ at_time 104 ∷ [])) 2
admitted_in_window_example =
    admitted_in_window (at_time 5) (at_time 50 ∷ at_time 104 ∷ []) limiter (omega arith)
      (omega arith) ((omega arith, omega arith), ((omega arith, omega arith), tt))
