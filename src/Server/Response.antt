-- ===== src/Server/Response.antt =====
-- What a handler of the server answers, and the ways in which handlers are put together. gin is known
-- by what it does for them: an aborted request gets the status, a panic the status 500.
use go_proton_api.Base.{ℕ, Option, none, some}
use go_proton_api.Backend.Exec.{Outcome, returned, failed, panicked, stuck, pure, ◌>>=◌}
use go_proton_api.Backend.Store.{M}

-- The status and, in an APIError, the code of the API; 0 is no code.
pub data Response (A : Type 0) : Type 0 where
  ok : A → Response A
  aborted : ℕ → ℕ → Response A

-- A handler answers; it may panic, but has no errors of its own.
abbrev pub Handler : Type 0 → Type 0
Handler A = M (Response A)

abbrev pub bad_request : ℕ
bad_request = 400

abbrev pub unauthorized : ℕ
unauthorized = 401

abbrev pub conflict : ℕ
conflict = 409

abbrev pub unprocessable_entity : ℕ
unprocessable_entity = 422

abbrev pub internal_server_error : ℕ
internal_server_error = 500

abbrev pub service_unavailable : ℕ
service_unavailable = 503

-- `proton.InvalidValue`.
abbrev pub invalid_value : ℕ
invalid_value = 2001

module _ {A : Type 0} where
  abbrev pub abort : ℕ → Handler A
  abort status = pure (aborted status 0)

  abbrev pub caught : ℕ → ℕ → Outcome A → Outcome (Response A)
  caught status code (returned a) = returned (ok a)
  caught status code (failed e) = returned (aborted status code)
  caught status code panicked = panicked
  caught status code stuck = stuck

  -- The result of a method of the backend, or the answer for its error.
  unfoldable pub answer : ℕ → M A → Handler A
  answer status m s = let (r, s') = m s in (caught status 0 r, s')

  unfoldable pub answer_code : ℕ → ℕ → M A → Handler A
  answer_code status code m s = let (r, s') = m s in (caught status code r, s')

  -- What gin's recovery makes of a handler: the status of the answer, with its content.
  unfoldable pub recovered : Outcome (Response A) → Response A
  recovered (returned r) = r
  recovered (failed e) = aborted internal_server_error 0
  recovered panicked = aborted internal_server_error 0
  recovered stuck = aborted internal_server_error 0

module _ {A B : Type 0} where
  abbrev pub continue : Response A → (A → Handler B) → Handler B
  continue (ok a) f = f a
  continue (aborted status code) f = pure (aborted status code)

  infixl 5 ◌then_with◌
  -- A handler that goes on where no answer was given yet.
  abbrev pub ◌then_with◌ : Handler A → (A → Handler B) → Handler B
  m then_with f = m >>= λ r. continue r f

  -- The body of a request, `none` where it cannot be read.
  unfoldable pub bind_json : Option A → (A → Handler B) → Handler B
  bind_json none f = abort bad_request
  bind_json (some req) f = f req
