-- ===== src/Pool/Job.antt =====
-- One job of pool.go and job.go, with the worker that took it and the goroutine that waits for it. The
-- channels are not buffered: a send and a receive happen together, and a receive from a closed channel
-- gives the zero value, which is `none` here.
pub mod Progress
use go_proton_api.Base.{ℕ, Bool, true, false, Option, none, some, ◌≡◌}

-- What the worker does with the job: the context is done, or the work fails or succeeds.
pub data Work (Out Err : Type 0) : Type 0 where
  cancelled : Work Out Err
  failure : Err → Work Out Err
  success : Out → Work Out Err

-- `ErrJobCancelled` or an error of the work.
pub data JobError (Err : Type 0) : Type 0 where
  job_cancelled : JobError Err
  work_error : Err → JobError Err

-- The places of the worker in its loop and in `postSuccess`, `postFailure` and `waitDone`.
pub data Worker (Out Err : Type 0) : Type 0 where
  starts : Worker Out Err
  sends_res : Out → Worker Out Err
  sends_err : JobError Err → Worker Out Err
  waits_done : Worker Out Err
  free : Worker Out Err

-- The places of the waiting goroutine: in `Result`, before `done()`, and at its end.
pub data Waiter (Out Err : Type 0) : Type 0 where
  receives_res : Waiter Out Err
  receives_err : Option Out → Waiter Out Err
  has_result : Option Out → Option (JobError Err) → Waiter Out Err
  finished : Option Out → Option (JobError Err) → Waiter Out Err

pub record JobState (Out Err : Type 0) : Type 0 where
  pub work : Work Out Err
  pub worker : Worker Out Err
  pub waiter : Waiter Out Err
  pub res_closed : Bool
  pub err_closed : Bool
  pub done_closed : Bool

module _ {Out Err : Type 0} where
  abbrev pub new_job : Work Out Err → JobState Out Err
  new_job work = record {
    work = work;
    worker = starts;
    waiter = receives_res;
    res_closed = false;
    err_closed = false;
    done_closed = false;
  }

  -- After its send the worker waits for `done`, but not where the context was done.
  abbrev pub after_send : Work Out Err → Worker Out Err
  after_send cancelled = free
  after_send _ = waits_done

  -- The statement with which the worker begins: it closes the channel that it does not send on.
  abbrev pub begin : JobState Out Err → Work Out Err → JobState Out Err
  begin j cancelled = record j { worker = sends_err job_cancelled; res_closed = true }
  begin j (failure e) = record j { worker = sends_err (work_error e); res_closed = true }
  begin j (success v) = record j { worker = sends_res v; err_closed = true }

  pub data Step (j : JobState Out Err) : JobState Out Err → Type 0 where
    begins : j.worker ≡ starts → Step j (begin j j.work)
    passes_res :
        (v : Out)
        → j.worker ≡ sends_res v
        → j.waiter ≡ receives_res
        → Step j (record j { worker = after_send j.work; waiter = receives_err (some v) })
    zero_res :
        j.res_closed ≡ true
        → j.waiter ≡ receives_res
        → Step j (record j { waiter = receives_err none })
    passes_err :
        (e : JobError Err) (r : Option Out)
        → j.worker ≡ sends_err e
        → j.waiter ≡ receives_err r
        → Step j (record j { worker = after_send j.work; waiter = has_result r (some e) })
    zero_err :
        (r : Option Out)
        → j.err_closed ≡ true
        → j.waiter ≡ receives_err r
        → Step j (record j { waiter = has_result r none })
    closes_done :
        (r : Option Out) (e : Option (JobError Err))
        → j.waiter ≡ has_result r e
        → Step j (record j { waiter = finished r e; done_closed = true })
    is_done : j.worker ≡ waits_done → j.done_closed ≡ true → Step j (record j { worker = free })

  pub data Reach (start : JobState Out Err) : JobState Out Err → Type 0 where
    here : Reach start start
    next : {j k : JobState Out Err} → Reach start j → Step j k → Reach start k
