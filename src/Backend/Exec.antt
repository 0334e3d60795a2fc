-- ===== src/Backend/Exec.antt =====
-- Methods of the backend: they read and write its maps under the lock, and return, fail or panic.
-- `stuck` is a loop whose fuel ran out. What was written before an error or a panic stays written: the deferred unlock undoes nothing.
pub mod Returns
use go_proton_api.Base.{Bool, true, false, Option, none, some, List, [], ◌∷◌}

pub data Error : Type 0 where
  account_not_found no_such_user no_such_key no_such_address not_disabled bad_value : Error
  no_such_label no_such_parent parent_not_allowed label_not_found : Error
  not_allowed no_such_message no_such_attachment bad_disposition needs_content_id : Error
  sender_required address_required bad_mime_type no_such_contact bad_event_id : Error
  invalid_session invalid_proof invalid_ref invalid_auth crypto_failure bad_key_length : Error
  decode_failure : Error

pub data Outcome {ℓ} (A : Type ℓ) : Type ℓ where
  returned : A → Outcome A
  failed : Error → Outcome A
  panicked : Outcome A
  stuck : Outcome A

-- Pure code that may panic.
abbrev pub and_then {ℓ κ} : {A : Type ℓ} {B : Type κ} → Outcome A → (A → Outcome B) → Outcome B
and_then (returned a) f = f a
and_then (failed e) f = failed e
and_then panicked f = panicked
and_then stuck f = stuck

abbrev pub checked {ℓ} : {A : Type ℓ} → Option A → Outcome A
checked none = panicked
checked (some a) = returned a

abbrev pub Exec {ℓ} : Type ℓ → Type ℓ → Type ℓ
Exec S A = S → Outcome A × S

module _ {ℓ} {S A : Type ℓ} where
  unfoldable pub pure : A → Exec S A
  pure a s = (returned a, s)

  unfoldable pub fail : Error → Exec S A
  fail e s = (failed e, s)

  unfoldable pub panic : Exec S A
  panic s = (panicked, s)

  unfoldable pub reads : (S → A) → Exec S A
  reads f s = (returned (f s), s)

  -- An error of a pure computation, or of third-party code.
  unfoldable pub or_fail : Error → Option A → Exec S A
  or_fail e none s = (failed e, s)
  or_fail e (some a) s = (returned a, s)

  -- The end of a pure loop, which may panic or run out of fuel.
  unfoldable pub lift : Outcome A → Exec S A
  lift r s = (r, s)

  -- The end of a loop on fuel.
  unfoldable pub or_stuck : Option A → Exec S A
  or_stuck none s = (stuck, s)
  or_stuck (some a) s = (returned a, s)

  -- A nil pointer that is followed, or an index out of range.
  unfoldable pub or_panic : Option A → Exec S A
  or_panic none s = (panicked, s)
  or_panic (some a) s = (returned a, s)

module _ {ℓ} {S : Type ℓ} where
  unfoldable pub modify : (S → S) → Exec S (Unit {ℓ})
  modify f s = (returned tt, f s)

  unfoldable pub skip : Exec S (Unit {ℓ})
  skip s = (returned tt, s)

  -- An early return with an error.
  unfoldable pub fail_if : Bool → Error → Exec S (Unit {ℓ})
  unfolding fail skip
  fail_if true e = fail e
  fail_if false e = skip

module _ {ℓ} {S A B : Type ℓ} where
  abbrev pub resume : Outcome A → (A → Exec S B) → Exec S B
  resume (returned a) f s = f a s
  resume (failed e) f s = (failed e, s)
  resume panicked f s = (panicked, s)
  resume stuck f s = (stuck, s)

  infixl 5 ◌>>=◌ ◌>>◌
  -- Opening this opens the primitive methods too.
  unfoldable pub ◌>>=◌ : Exec S A → (A → Exec S B) → Exec S B
  unfolding pure fail panic reads or_fail or_panic or_stuck lift modify skip fail_if
  ◌>>=◌ m f s = let (r, s') = m s in resume r f s'

  abbrev pub ◌>>◌ : Exec S A → Exec S B → Exec S B
  m >> n = m >>= λ _. n

module _ {ℓ} {S : Type ℓ} where
  -- A `for … range` whose body may return early.
  unfoldable pub for_each : {X : Type ℓ} → List X → (X → Exec S (Unit {ℓ})) → Exec S (Unit {ℓ})
  unfolding ◌>>=◌
  for_each [] body = skip
  for_each (x ∷ xs) body = let rest = for_each xs body in body x >>= λ _. rest
