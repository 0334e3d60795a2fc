-- ===== src/Pool/Job/Progress.antt =====
-- A job always comes to its end, with the result of its work.
use go_proton_api.Base.{
  ℕ, ◌+◌, ◌≤◌, ◌<◌, Bool, true, false, Option, none, some, ◌≡◌, refl, sym, subst, ◌⊎◌, inl, inr,
  arith,
}
use go_proton_api.Pool.Job.{
  Work, cancelled, failure, success, JobError, job_cancelled, work_error, Worker, starts, sends_res,
  sends_err, waits_done, free, Waiter, receives_res, receives_err, has_result, finished, JobState,
  new_job, after_send, begin, Step, begins, passes_res, zero_res, passes_err, zero_err, closes_done,
  is_done, Reach, here, next,
}

-- How far the pair of goroutines has come.
data Phase : Type 0 where
  unbegun posted got_value got_both told ended : Phase

-- The states that a job goes through, in their order.
abbrev later : Phase → Phase
later unbegun = posted
later posted = got_value
later got_value = got_both
later got_both = told
later told = ended
later ended = ended

module _ {Out Err : Type 0} where
  -- The value and the error that a job with this work is to give.
  abbrev pub result_of : Work Out Err → Option Out × Option (JobError Err)
  result_of cancelled = (none, some job_cancelled)
  result_of (failure e) = (none, some (work_error e))
  result_of (success v) = (some v, none)

  abbrev sends : Work Out Err → Worker Out Err
  sends cancelled = sends_err job_cancelled
  sends (failure e) = sends_err (work_error e)
  sends (success v) = sends_res v

  abbrev fails : Work Out Err → Bool
  fails (success v) = false
  fails _ = true

  abbrev succeeds : Work Out Err → Bool
  succeeds (success v) = true
  succeeds _ = false

  -- The worker once the value was received: a failure is still to be sent.
  abbrev sends_on : Work Out Err → Worker Out Err
  sends_on (success v) = waits_done
  sends_on w = sends w

  abbrev state : Work Out Err → Worker Out Err → Waiter Out Err → Bool → JobState Out Err
  state w worker waiter closed = record {
    work = w;
    worker = worker;
    waiter = waiter;
    res_closed = fails w;
    err_closed = succeeds w;
    done_closed = closed;
  }

  abbrev state_at : Work Out Err → Phase → JobState Out Err
  state_at w unbegun = new_job w
  state_at w posted = state w (sends w) receives_res false
  state_at w got_value = state w (sends_on w) (receives_err (result_of w).0) false
  state_at w got_both = state w (after_send w) (has_result (result_of w).0 (result_of w).1) false
  state_at w told = state w (after_send w) (finished (result_of w).0 (result_of w).1) true
  state_at w ended = state w free (finished (result_of w).0 (result_of w).1) true

  -- What a step needs, and the state after it.
  abbrev Guard : JobState Out Err → JobState Out Err → Type 0
  Guard j k =
      ((j.worker ≡ starts) × (k ≡ begin j j.work))
      ⊎ ((v : Out) × (j.worker ≡ sends_res v)
          × (j.waiter ≡ receives_res)
          × (k ≡ record j { worker = after_send j.work; waiter = receives_err (some v) }))
      ⊎ ((j.res_closed ≡ true)
          × (j.waiter ≡ receives_res)
          × (k ≡ record j { waiter = receives_err none }))
      ⊎ ((e : JobError Err) × (r : Option Out) × (j.worker ≡ sends_err e)
          × (j.waiter ≡ receives_err r)
          × (k ≡ record j { worker = after_send j.work; waiter = has_result r (some e) }))
      ⊎ ((r : Option Out) × (j.err_closed ≡ true)
          × (j.waiter ≡ receives_err r)
          × (k ≡ record j { waiter = has_result r none }))
      ⊎ ((r : Option Out) × (e : Option (JobError Err)) × (j.waiter ≡ has_result r e)
          × (k ≡ record j { waiter = finished r e; done_closed = true }))
      ⊎ ((j.worker ≡ waits_done) × (j.done_closed ≡ true) × (k ≡ record j { worker = free }))

  guard : {j k : JobState Out Err} → Step j k → Guard j k
  guard (begins h) = inl (h, refl)
  guard (passes_res v h r) = inr (inl (v, h, r, refl))
  guard (zero_res h r) = inr (inr (inl (h, r, refl)))
  guard (passes_err e r h q) = inr (inr (inr (inl (e, r, h, q, refl))))
  guard (zero_err r h q) = inr (inr (inr (inr (inl (r, h, q, refl)))))
  guard (closes_done r e h) = inr (inr (inr (inr (inr (inl (r, e, h, refl))))))
  guard (is_done h q) = inr (inr (inr (inr (inr (inr (h, q, refl))))))

  Step-later :
      (w : Work Out Err) (p : Phase) (j k : JobState Out Err)
      → j ≡ state_at w p
      → Step j k
      → k ≡ state_at w (later p)
  Step-later cancelled unbegun j k e s = let g = guard s in ground arith
  Step-later cancelled posted j k e s = let g = guard s in ground arith
  Step-later _ _ j k e s = let g = guard s in ground arith

  Reach-state :
      (w : Work Out Err) {j : JobState Out Err}
      → Reach (new_job w) j
      → (p : Phase) × (j ≡ state_at w p)
  Reach-state w here = (unbegun, refl)
  Reach-state w (next {j} {k} r s) =
      let (p, e) = Reach-state w r in (later p, Step-later w p j k e s)

  abbrev worker_rank : Worker Out Err → ℕ
  worker_rank starts = 3
  worker_rank (sends_res v) = 2
  worker_rank (sends_err e) = 2
  worker_rank waits_done = 1
  worker_rank free = 0

  abbrev waiter_rank : Waiter Out Err → ℕ
  waiter_rank receives_res = 3
  waiter_rank (receives_err r) = 2
  waiter_rank (has_result r e) = 1
  waiter_rank (finished r e) = 0

  -- How many statements the two have before them, at most.
  abbrev pub rank : JobState Out Err → ℕ
  rank j = worker_rank j.worker + waiter_rank j.waiter

  rank-begin :
      (j : JobState Out Err) (w : Work Out Err) → j.worker ≡ starts → rank (begin j w) < rank j
  rank-begin j cancelled h = ground arith
  rank-begin j (failure e) h = ground arith
  rank-begin j (success v) h = ground arith

  after_send-rank : (w : Work Out Err) → worker_rank (after_send w) ≤ 1
  after_send-rank cancelled = omega arith
  after_send-rank (failure e) = omega arith
  after_send-rank (success v) = omega arith

  Step-rank : {j k : JobState Out Err} → Step j k → rank k < rank j
  Step-rank {j} (begins h) = rank-begin j j.work h
  Step-rank {j} (passes_res v h r) = let a = after_send-rank j.work in ground arith
  Step-rank (zero_res h r) = ground arith
  Step-rank {j} (passes_err e r h q) = let a = after_send-rank j.work in ground arith
  Step-rank (zero_err r h q) = ground arith
  Step-rank (closes_done r e h) = ground arith
  Step-rank (is_done h q) = ground arith

  Reach-rank : (w : Work Out Err) {j : JobState Out Err} → Reach (new_job w) j → rank j ≤ 6
  Reach-rank w here = omega arith
  Reach-rank w (next r s) = omega (arith, Step-rank s, Reach-rank w r)

  -- The worker is free again and the goroutine has this value and this error.
  abbrev pub HasEnded : Work Out Err → JobState Out Err → Type 0
  HasEnded w j = (j.worker ≡ free) × (j.waiter ≡ finished (result_of w).0 (result_of w).1)

  Step-at :
      (w : Work Out Err) (p : Phase)
      → HasEnded w (state_at w p) ⊎ ((k : JobState Out Err) × Step (state_at w p) k)
  Step-at w unbegun = inr (_, begins refl)
  Step-at cancelled posted = inr (_, zero_res refl refl)
  Step-at (failure e) posted = inr (_, zero_res refl refl)
  Step-at (success v) posted = inr (_, passes_res v refl refl)
  Step-at cancelled got_value = inr (_, passes_err job_cancelled none refl refl)
  Step-at (failure e) got_value = inr (_, passes_err (work_error e) none refl refl)
  Step-at (success v) got_value = inr (_, zero_err (some v) refl refl)
  Step-at w got_both = inr (_, closes_done (result_of w).0 (result_of w).1 refl)
  Step-at cancelled told = inl (refl, refl)
  Step-at (failure e) told = inr (_, is_done refl refl)
  Step-at (success v) told = inr (_, is_done refl refl)
  Step-at w ended = inl (refl, refl)

  -- A job does not get stuck and does not go on for ever: in every state that it can reach, either its
  -- worker is free and the goroutine that waits has the value of the work, or its error, or the error of
  -- a cancelled context, and nothing else; or there is a step. Every step lowers the rank, which is 6
  -- at the start.
  pub job_ends :
      (w : Work Out Err) (j : JobState Out Err)
      → Reach (new_job w) j
      → (HasEnded w j ⊎ ((k : JobState Out Err) × Step j k))
        × ((k : JobState Out Err) → Step j k → rank k < rank j)
        × (rank j ≤ 6)
  job_ends w j r =
      let (p, e) = Reach-state w r in
      (
        subst (λ s. HasEnded w s ⊎ ((k : JobState Out Err) × Step s k)) (sym e) (Step-at w p),
        (λ k s. Step-rank s),
        Reach-rank w r,
      )
