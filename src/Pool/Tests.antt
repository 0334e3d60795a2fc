-- ===== src/Pool/Tests.antt =====
-- A job that fails, and two requests whose goroutines end in the other order.
use go_proton_api.Base.{
  true, false, none, nat_eq, ◌==◌, if◌then◌else◌, ℕ, ◌+◌, ◌≤◌, ◌<◌, List, [], ◌∷◌, map, Option,
  some, ◌≡◌, ◌⊎◌, refl,
}
use go_proton_api.Pool.Job.{Work, failure, JobState, Step, begin, begins, here, new_job, next}
use go_proton_api.Pool.Job.Progress.{HasEnded, job_ends, rank}
use go_proton_api.Pool.Process.{Answer, Jobs, ended, error, process_all, value}
use go_proton_api.Pool.Process.Order.{process_all_ordered}

abbrev broken : Work ℕ ℕ
broken = failure 7

abbrev begun : JobState ℕ ℕ
begun = begin (new_job broken) broken

job_ends_example :
    (HasEnded broken begun ⊎ ((k : JobState ℕ ℕ) × Step begun k))
    × ((k : JobState ℕ ℕ) → Step begun k → rank k < rank begun)
    × (rank begun ≤ 6)
job_ends_example = job_ends broken begun (next here (begins refl))

abbrev double : ℕ → ℕ
double n = n + n

-- A worker doubles its request, unless the context was cancelled.
abbrev doubles : Jobs ℕ ℕ ℕ
doubles true n = ended none (some 1)
doubles false n = ended (some (double n)) none

abbrev requests : List ℕ
requests = 10 ∷ 20 ∷ []

abbrev doubled : Answer (List (Option ℕ)) ℕ
doubled = value (map (λ r. some (double r)) requests)

process_all_ordered_example : process_all doubles (1 ∷ []) requests ≡ doubled
process_all_ordered_example =
    process_all_ordered double doubles (1 ∷ []) requests (refl, (refl, tt))

-- The second request fails first and cancels the other.
abbrev fails : Jobs ℕ ℕ ℕ
fails true n = ended none (some 1)
fails false n = if n == 20 then ended none (some 7) else ended (some n) none

first_error : process_all fails (1 ∷ []) requests ≡ error 7
unfolding process_all
first_error = refl
