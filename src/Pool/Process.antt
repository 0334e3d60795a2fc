-- ===== src/Pool/Process.antt =====
-- `Process`, `ProcessAll` and `ProcessOne` of pool.go. The goroutines of a call run at once; each writes
-- its place or appends an error under the lock, so they come to their end in any order: `picks` says
-- which of those that still run is next. A zero value is `none`.
pub mod Order
use go_proton_api.Base.{
  ℕ, zero, suc, Bool, true, false, ◌||◌, Option, none, some, List, [], ◌∷◌, ◌++◌, length, set,
  replicate,
}

-- What a call gives: its value, or its error.
pub data Answer (A Err : Type 0) : Type 0 where
  value : A → Answer A Err
  error : Err → Answer A Err

-- What a goroutine gets for its request: the error of `NewJob`, when the pool is closed, or the value
-- and the error of `Result`.
pub data Ended (Out Err : Type 0) : Type 0 where
  closed : Err → Ended Out Err
  ended : Option Out → Option Err → Ended Out Err

-- The pool: what becomes of a job for a request, by whether the context was cancelled before its end.
abbrev pub Jobs : Type 0 → Type 0 → Type 0 → Type 0
Jobs In Out Err = Bool → In → Ended Out Err

abbrev pub collect : {Err : Type 0} → Option Err → List Err → List Err
collect none errs = errs
collect (some e) errs = errs ++ e ∷ []

abbrev pub first_of : {Err : Type 0} → List Err → Option Err
first_of [] = none
first_of (e ∷ es) = some e

abbrev pub answer_of : {A Err : Type 0} → Option Err × A → Answer A Err
answer_of (none, slots) = value slots
answer_of (some e, slots) = error e

abbrev is_error : {Err : Type 0} → Option Err → Bool
is_error none = false
is_error (some e) = true

module _ {A : Type 0} where
  -- The element at the place `k` of the list after `t`, or the last, and the others.
  unfoldable pub pick : ℕ → A → List A → A × List A
  pick zero t ts = (t, ts)
  pick (suc k) t [] = (t, [])
  pick (suc k) t (u ∷ us) = let (x, rest) = pick k u us in (x, t ∷ rest)

  -- The elements in the order of the picks; those that are left follow in their own.
  unfoldable pub in_turn : List ℕ → List A → List A
  unfolding pick
  in_turn [] ts = ts
  in_turn (k ∷ ks) [] = []
  in_turn (k ∷ ks) (t ∷ ts) = let (x, rest) = pick k t ts in x ∷ in_turn ks rest

-- The loop that starts a goroutine for each request, with its index.
unfoldable pub goroutines : {In : Type 0} → ℕ → List In → List (ℕ × In)
goroutines index [] = []
goroutines index (req ∷ reqs) = (index, req) ∷ goroutines (suc index) reqs

-- Whether the context is cancelled, the errors so far, and what the callbacks write.
pub record Progress (Err S : Type 0) : Type 0 where
  pub cancelled : Bool
  pub errs : List Err
  pub written : S

module _ {In Out Err S : Type 0} (fn : ℕ → In → Option Out → Option Err → S → Option Err × S)
    (jobs : Jobs In Out Err) where
  -- The end of a goroutine; an error cancels the context.
  unfoldable pub finish_one : ℕ × In → Progress Err S → Progress Err S
  finish_one (index, req) p = elim (jobs p.cancelled req) [
    | closed e ↦ record p { cancelled = true; errs = p.errs ++ e ∷ [] }
    | ended res err ↦
        let (e, s) = fn index req res err p.written in
        record { cancelled = p.cancelled || is_error e; errs = collect e p.errs; written = s }
  ]

  unfoldable pub finish_all : List (ℕ × In) → Progress Err S → Progress Err S
  unfolding finish_one
  finish_all [] p = p
  finish_all (g ∷ gs) p = finish_all gs (finish_one g p)

  -- `Process` returns the first error that was collected.
  unfoldable pub process : List ℕ → List In → S → Option Err × S
  unfolding finish_all in_turn goroutines
  process picks reqs s =
      let p =
        finish_all (in_turn picks (goroutines 0 reqs))
          (record { cancelled = false; errs = []; written = s }) in
      (first_of p.errs, p.written)

module _ {In Out Err : Type 0} where
  -- The callback of `ProcessAll`: it writes the value in its place.
  unfoldable pub store_result :
      ℕ → In → Option Out → Option Err → List (Option Out) → Option Err × List (Option Out)
  store_result index req res (some e) slots = (some e, slots)
  store_result index req res none slots = (none, set slots index res)

  unfoldable pub process_all : Jobs In Out Err → List ℕ → List In → Answer (List (Option Out)) Err
  unfolding process store_result
  process_all jobs picks reqs =
      answer_of (process store_result jobs picks reqs (replicate (length reqs) none))

  -- `ProcessOne`.
  unfoldable pub process_one : Jobs In Out Err → In → Option Out × Option Err
  process_one jobs req = elim (jobs false req) [
    | closed e ↦ (none, some e)
    | ended res err ↦ (res, err)
  ]
