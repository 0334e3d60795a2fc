-- ===== src/Backend/Sessions/Checks.antt =====
-- What the check of a token leaves of the logins.
use go_proton_api.Base.{
  ℕ, String, string_eq, nat_eq, false, none, some, [], ◌∷◌, ◌==◌, ◌≡◌, refl, ◌∙◌, arith, str_iff,
  beq_refl, Bool-cases, Option-cases, inl, inr,
}
use go_proton_api.Base.Assoc.{Assoc, insert, lookup, lookup-insert}
use go_proton_api.Backend.Types.{Account, Auth}
use go_proton_api.Backend.Exec.{returned, failed, account_not_found}
use go_proton_api.Backend.Store.{Store, get_acc}
use go_proton_api.Backend.Sessions.{
  check_token, holder, is_expired, put_auth, verify_auth, without_access,
}

-- Looking for a login does not see what a check takes away.
pub holder-check_token :
    (life now : ℕ) (uid access p : String) (auth : Auth) (m : Assoc String Account)
    → holder uid m ≡ some (p, auth)
    → (check_token life now uid access m).0 ≡ none
    → (auth' : Auth) × (holder uid (check_token life now uid access m).1 ≡ some (p, auth'))
      × (auth'.ref ≡ auth.ref)
unfolding holder check_token
holder-check_token life now uid access p auth [] h n = absurd (ground arith)
holder-check_token life now uid access p auth ((k, acc) ∷ m) h n =
    elim (Option-cases (lookup uid acc.auth)) [
      | inl e ↦
          let rest =
            holder-check_token life now uid access p auth m (ground arith) (ground arith) in
          (rest.0, ground arith, rest.2)
      | inr (found, e) ↦
          let put : lookup uid (insert uid (without_access found) acc.auth)
              ≡ some (without_access found) =
            lookup-insert uid uid (without_access found) acc.auth ∙ rw (beq_refl uid) refl in
          elim (Bool-cases (is_expired life now found)) [
            | inl t ↦ (without_access found, ground arith, ground arith)
            | inr t ↦ elim (Bool-cases (found.acc == access)) [
              | inl a ↦ absurd (ground arith)
              | inr a ↦ (found, ground arith, ground arith)
            ]
          ]
    ]

pub lookup-check_token :
    (life now : ℕ) (uid access p : String) (acc : Account) (m : Assoc String Account)
    → lookup p m ≡ some acc
    → (acc' : Account) × (lookup p (check_token life now uid access m).1 ≡ some acc')
      × (acc'.user_id ≡ acc.user_id)
unfolding lookup check_token
lookup-check_token life now uid access p acc [] h = absurd (ground arith)
lookup-check_token life now uid access p acc ((k, a) ∷ m) h =
    elim (Option-cases (lookup uid a.auth)) [
      | inl e ↦ elim (Bool-cases (k == p)) [
        | inl t ↦ (acc, ground arith, refl)
        | inr t ↦
            let rest = lookup-check_token life now uid access p acc m (ground arith) in
            (rest.0, ground arith, rest.2)
      ]
      | inr (found, e) ↦ elim (Bool-cases (k == p)) [
        | inl t ↦ elim (Bool-cases (is_expired life now found)) [
          | inl x ↦ (put_auth uid (without_access found) a, ground arith, ground arith)
          | inr x ↦ (acc, ground arith, refl)
        ]
        | inr t ↦
            let rest = lookup-check_token life now uid access p acc m (ground arith) in
            elim (Bool-cases (is_expired life now found)) [
              | inl x ↦ (rest.0, ground arith, rest.2)
              | inr x ↦ elim (Bool-cases (found.acc == access)) [
                | inl y ↦ (acc, ground arith, refl)
                | inr y ↦ (rest.0, ground arith, rest.2)
              ]
            ]
      ]
    ]

-- The token of the first login with the id is found, unless the login has expired.
pub check_token-holder :
    (life now : ℕ) (uid p : String) (auth : Auth) (m : Assoc String Account)
    → holder uid m ≡ some (p, auth)
    → is_expired life now auth ≡ false
    → check_token life now uid auth.acc m ≡ (some p, m)
unfolding holder check_token
check_token-holder life now uid p auth [] h live = absurd (ground arith)
check_token-holder life now uid p auth ((k, acc) ∷ m) h live =
    elim (Option-cases (lookup uid acc.auth)) [
      | inl e ↦
          let rest = check_token-holder life now uid p auth m (ground arith) live in ground arith
      | inr (found, e) ↦ ground (arith, str_iff auth.acc auth.acc)
    ]

-- The store after the check of a token that fails.
abbrev pub checked : ℕ → String → String → Store → Store
checked now uid access b = record b {
  accounts = (check_token b.auth_life now uid access b.accounts).1;
}

pub verify_refused :
    (now : ℕ) (uid access : String) (b : Store)
    → (check_token b.auth_life now uid access b.accounts).0 ≡ none
    → verify_auth now uid access b ≡ (failed account_not_found, checked now uid access b)
unfolding verify_auth
verify_refused now uid access b h = ground arith

pub verify_accepted :
    (now : ℕ) (uid p : String) (auth : Auth) (acc : Account) (b : Store)
    → check_token b.auth_life now uid auth.acc b.accounts ≡ (some p, b.accounts)
    → lookup p b.accounts ≡ some acc
    → verify_auth now uid auth.acc b ≡ (returned acc.user_id, b)
unfolding verify_auth get_acc
verify_accepted now uid p auth acc b h q = rw (h, q) refl
