-- ===== src/Backend/Sessions.antt =====
-- server/backend/api_auth.go: logging in, refreshing a login, and checking the token of a request.
-- Times are numbers, and the SRP server of a login attempt is known by a handle.
pub mod Logins
pub mod Refreshes
pub mod Checks
use go_proton_api.Base.{
  ℕ, ◌+◌, String, string_eq, Bool, Option, none, some, List, [], ◌∷◌, ◌==◌, if◌then◌else◌, ltb, not,
  map,
}
use go_proton_api.Base.Assoc.{Assoc, lookup, insert, delete, find_key}
use go_proton_api.Backend.Types.{Account, Auth}
use go_proton_api.Backend.Exec.{
  Outcome, returned, failed, account_not_found, crypto_failure, invalid_auth, invalid_proof,
  invalid_ref, invalid_session, fail_if, modify, or_fail, pure, reads, ◌>>=◌, ◌>>◌,
}
use go_proton_api.Backend.Store.{Store, M, get_acc, set_acc, with_acc, with_acc_ret}

-- `withAccName`.
unfoldable pub with_acc_name : {A : Type 0} → String → (String → M A) → M A
with_acc_name username fn b = elim (find_key (λ acc. acc.username == username) b.accounts) [
  | none ↦ (failed account_not_found, b)
  | some p ↦ fn p b
]

-- What the caller of a login gets.
pub record Login : Type 0 where
  pub user_id : String
  pub auth_uid : String
  pub access : String
  pub refresh : String

abbrev pub new_auth_at : ℕ → String → String → Auth
new_auth_at now access refresh = record { acc = access; ref = refresh; creation = now }

abbrev pub put_auth : String → Auth → Account → Account
put_auth uid auth acc = record acc { auth = insert uid auth acc.auth }

-- `server` is the SRP server with its challenge, `none` an error of go-srp; `session` is fresh.
unfoldable pub new_auth_info : String → Option ℕ → String → M (String × List ℕ)
unfolding ◌>>=◌
new_auth_info username server session = with_acc_name username λ p. do
  acc ← get_acc p
  handle ← or_fail crypto_failure server
  modify (λ b. record b { srp = insert session handle b.srp })
  pure (session, acc.salt)

-- `verify` is `VerifyProofs` of the SRP server, `none` its error; the access and refresh tokens and
-- `uid` are fresh.
unfoldable pub new_auth :
    (ℕ → Option (List ℕ)) → ℕ → String → String → String → String → String → M Login
unfolding ◌>>=◌
new_auth verify now username session uid access refresh = with_acc_name username λ p. do
  found ← reads (λ b. lookup session b.srp)
  handle ← or_fail invalid_session found
  modify (λ b. record b { srp = delete session b.srp })
  or_fail invalid_proof (verify handle)
  set_acc p (put_auth uid (new_auth_at now access refresh))
  acc ← get_acc p
  pure (record { user_id = acc.user_id; auth_uid = uid; access = access; refresh = refresh })

-- The range of `NewAuthRef`: the first account that has the login.
unfoldable pub holder : String → Assoc String Account → Option (String × Auth)
holder uid [] = none
holder uid ((k, acc) ∷ m) =
    let rest = holder uid m in
    elim (lookup uid acc.auth) [ none ↦ rest | some auth ↦ some (k, auth) ]

unfoldable pub new_auth_ref : ℕ → String → String → String → String → M Login
unfolding ◌>>=◌ holder
new_auth_ref now uid old_refresh access refresh = do
  found ← reads (λ b. holder uid b.accounts)
  held ← or_fail invalid_auth found
  fail_if (not (held.1.ref == old_refresh)) invalid_ref
  set_acc held.0 (put_auth uid (new_auth_at now access refresh))
  acc ← get_acc held.0
  pure (record { user_id = acc.user_id; auth_uid = uid; access = access; refresh = refresh })

-- `time.Since(val.creation) > b.authLife`.
abbrev pub is_expired : ℕ → ℕ → Auth → Bool
is_expired life now auth = ltb (auth.creation + life) now

-- `auth{ref: val.ref, creation: val.creation}`: the access token is taken away.
abbrev pub without_access : Auth → Auth
without_access auth = record auth { acc = "" }

-- The range of `withAccAuth`: the account whose login the token fits, and the accounts with the access
-- tokens of expired logins taken away on the way.
unfoldable pub check_token :
    ℕ → ℕ → String → String → Assoc String Account → Option String × Assoc String Account
check_token life now uid access [] = (none, [])
check_token life now uid access ((k, acc) ∷ m) =
    let (found, m') = check_token life now uid access m in
    elim (lookup uid acc.auth) [
      | none ↦ (found, (k, acc) ∷ m')
      | some auth ↦
          if is_expired life now auth
          then (found, (k, put_auth uid (without_access auth) acc) ∷ m')
          else if auth.acc == access
          then (some k, (k, acc) ∷ m)
          else (found, (k, acc) ∷ m')
    ]

unfoldable pub verify_auth : ℕ → String → String → M String
unfolding ◌>>=◌ check_token
verify_auth now uid access = do
  result ← reads (λ b. check_token b.auth_life now uid access b.accounts)
  modify (λ b. record b { accounts = result.1 })
  p ← or_fail account_not_found result.0
  acc ← get_acc p
  pure acc.user_id

unfoldable pub get_sessions : String → M (List (String × ℕ))
unfolding ◌>>=◌
get_sessions user_id =
    with_acc_ret user_id
      λ p. do acc ← get_acc p; pure (map (λ entry. (entry.0, entry.1.creation)) acc.auth)

unfoldable pub delete_session : String → String → M Unit
unfolding ◌>>=◌
delete_session user_id uid =
    with_acc user_id λ p. do set_acc p (λ acc. record acc { auth = delete uid acc.auth })
