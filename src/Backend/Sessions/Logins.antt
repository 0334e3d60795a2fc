-- ===== src/Backend/Sessions/Logins.antt =====
-- What a login is good for: an SRP session works once, and a token for the life of a login.
use go_proton_api.Base.{
  ℕ, ◌+◌, ◌≤◌, ◌<◌, String, string_eq, true, false, Option, none, some, List, [], ◌∷◌, ◌==◌, ◌≡◌,
  ◌≢◌, refl, sym, ap, subst, ◌∙◌, arith, str_iff, beq_refl, Bool-cases, Option-cases, inl, inr,
}
use go_proton_api.Base.Assoc.{
  Assoc, AllValues, adjust, delete, find_key, insert, lookup, lookup-adjust, lookup-delete,
  lookup-insert, option_map,
}
use go_proton_api.Backend.Types.{Account, Auth}
use go_proton_api.Backend.Exec.{returned, failed, account_not_found}
use go_proton_api.Backend.Store.{Store, get_acc, set_acc}
use go_proton_api.Backend.Sessions.{
  Login, check_token, is_expired, new_auth, new_auth_at, put_auth, verify_auth, with_acc_name,
}

-- The state after a login that went through.
abbrev logged_in : String → String → String → Auth → Store → Store
logged_in session p uid auth b = record b {
  srp = delete session b.srp;
  accounts = adjust p (put_auth uid auth) b.accounts;
}

-- What a login that went through found and wrote.
record IsLogin (b after : Store) (session uid : String) (auth : Auth) (l : Login) : Type 0 where
  holder : String
  acc : Account
  found : lookup holder b.accounts ≡ some acc
  user : l.user_id ≡ acc.user_id
  wrote : after ≡ logged_in session holder uid auth b

adjusted :
    (p : String) (auth : Auth) (uid : String) (m : Assoc String Account)
    → lookup p (adjust p (put_auth uid auth) m) ≡ option_map (put_auth uid auth) (lookup p m)
adjusted p auth uid m = lookup-adjust p p (put_auth uid auth) m ∙ rw (beq_refl p) refl

new_auth-IsLogin :
    (verify : ℕ → Option (List ℕ)) (now : ℕ) (username session uid access refresh : String)
    (b : Store) (l : Login)
    → (new_auth verify now username session uid access refresh b).0 ≡ returned l
    → IsLogin b
        (new_auth verify now username session uid access refresh b).1
        session
        uid
        (new_auth_at now access refresh)
        l
unfolding new_auth with_acc_name get_acc set_acc
new_auth-IsLogin verify now username session uid access refresh b l h =
    elim (Option-cases (find_key (λ acc. acc.username == username) b.accounts)) [
      | inl e ↦ absurd (ground arith)
      | inr (p, e) ↦ elim (Option-cases (lookup session b.srp)) [
        | inl s ↦ absurd (ground arith)
        | inr (handle, s) ↦ elim (Option-cases (verify handle)) [
          | inl v ↦ absurd (ground arith)
          | inr (proof, v) ↦ elim (Option-cases (lookup p b.accounts)) [
            | inl q ↦
                let k = adjusted p (new_auth_at now access refresh) uid b.accounts in
                absurd (ground arith)
            | inr (acc, q) ↦
                let k = adjusted p (new_auth_at now access refresh) uid b.accounts in
                record {
                  holder = p;
                  acc = acc;
                  found = q;
                  user = ground arith;
                  wrote = ground arith;
                }
          ]
        ]
      ]
    ]

new_auth_unknown :
    (verify : ℕ → Option (List ℕ)) (now : ℕ) (username session uid access refresh : String)
    (b : Store) (l : Login)
    → lookup session b.srp ≡ none
    → (new_auth verify now username session uid access refresh b).0 ≢ returned l
unfolding new_auth with_acc_name
new_auth_unknown verify now username session uid access refresh b l s h =
    elim (Option-cases (find_key (λ acc. acc.username == username) b.accounts)) [
      | inl e ↦ ground arith
      | inr (p, e) ↦ ground arith
    ]

-- An SRP session is good for one login: after a login that went through, none with the same session
-- does, by whichever user and with whatever proof.
pub new_auth_once :
    (verify verify' : ℕ → Option (List ℕ)) (now now' : ℕ)
    (username username' session uid uid' access access' refresh refresh' : String) (b : Store)
    (l l' : Login)
    → (new_auth verify now username session uid access refresh b).0 ≡ returned l
    → (new_auth verify' now' username' session uid' access' refresh'
        (new_auth verify now username session uid access refresh b).1).0
      ≢ returned l'
new_auth_once verify verify' now now' username username' session uid uid' access access' refresh
      refresh' b l l' h =
    let r = new_auth-IsLogin verify now username session uid access refresh b l h in
    let gone : lookup session (delete session b.srp) ≡ none =
      lookup-delete session session b.srp ∙ rw (beq_refl session) refl in
    new_auth_unknown verify' now' username' session uid' access' refresh'
      (new_auth verify now username session uid access refresh b).1 l'
      (ap (λ (s : Store). lookup session s.srp) r.wrote ∙ gone)

-- No account has a login with the id.
abbrev pub IsFresh : String → Assoc String Account → Type 0
IsFresh uid = AllValues (λ acc. lookup uid acc.auth ≡ none)

check_token_fresh :
    (life now : ℕ) (uid access : String) (m : Assoc String Account)
    → IsFresh uid m
    → check_token life now uid access m ≡ (none, m)
unfolding check_token
check_token_fresh life now uid access [] f = refl
check_token_fresh life now uid access ((k, acc) ∷ m) f =
    rw (check_token, f.0, check_token_fresh life now uid access m f.1) refl

inserted :
    (uid : String) (auth : Auth) (m : Assoc String Auth)
    → lookup uid (insert uid auth m) ≡ some auth
inserted uid auth m = lookup-insert uid uid auth m ∙ rw (beq_refl uid) refl

check_token_valid :
    (life now : ℕ) (uid p : String) (auth : Auth) (m : Assoc String Account) (acc : Account)
    → IsFresh uid m
    → lookup p m ≡ some acc
    → is_expired life now auth ≡ false
    → check_token life now uid auth.acc (adjust p (put_auth uid auth) m)
      ≡ (some p, adjust p (put_auth uid auth) m)
unfolding check_token adjust lookup
check_token_valid life now uid p auth [] acc f q e = absurd (cc)
check_token_valid life now uid p auth ((k, a) ∷ m) acc f q e = elim (Bool-cases (k == p)) [
  | inl t ↦
      let same : k ≡ p = (str_iff k p).0 t in
      let here = inserted uid auth a.auth in
      rw (t, check_token, here, e, beq_refl auth.acc)
        (ap (λ x. (some x, (k, put_auth uid auth a) ∷ m)) same)
  | inr t ↦
      let rest = check_token_valid life now uid p auth m acc f.1 (ground arith) e in
      rw (t, check_token, f.0, rest) refl
]

check_token_expired :
    (life now : ℕ) (uid p access : String) (auth : Auth) (m : Assoc String Account)
    → IsFresh uid m
    → is_expired life now auth ≡ true
    → (check_token life now uid access (adjust p (put_auth uid auth) m)).0 ≡ none
unfolding check_token adjust
check_token_expired life now uid p access auth [] f e = refl
check_token_expired life now uid p access auth ((k, a) ∷ m) f e = elim (Bool-cases (k == p)) [
  | inl t ↦
      let here = inserted uid auth a.auth in
      let rest = check_token_fresh life now uid access m f.1 in
      rw (t, check_token, here, e, rest) refl
  | inr t ↦
      let rest = check_token_expired life now uid p access auth m f.1 e in
      rw (t, check_token, f.0) rest
]

verify_valid :
    (later : ℕ) (session p uid : String) (auth : Auth) (b : Store) (acc : Account)
    → IsFresh uid b.accounts
    → lookup p b.accounts ≡ some acc
    → is_expired b.auth_life later auth ≡ false
    → verify_auth later uid auth.acc (logged_in session p uid auth b)
      ≡ (returned acc.user_id, logged_in session p uid auth b)
unfolding verify_auth get_acc
verify_valid later session p uid auth b acc f q e =
    let valid = check_token_valid b.auth_life later uid p auth b.accounts acc f q e in
    let here = adjusted p auth uid b.accounts in rw (valid, here, q) refl

verify_expired :
    (later : ℕ) (session p uid access : String) (auth : Auth) (b : Store)
    → IsFresh uid b.accounts
    → is_expired b.auth_life later auth ≡ true
    → (verify_auth later uid access (logged_in session p uid auth b)).0 ≡ failed account_not_found
unfolding verify_auth
verify_expired later session p uid access auth b f e =
    rw (check_token_expired b.auth_life later uid p access auth b.accounts f e) refl

-- For the life of a login, and no longer, its access token stands for its user: checking the token in
-- that time returns the user and changes nothing; later, every token is refused for that login.
pub verify_auth-new_auth :
    (verify : ℕ → Option (List ℕ)) (now later : ℕ)
    (username session uid access access' refresh : String) (b : Store) (l : Login)
    → IsFresh uid b.accounts
    → (new_auth verify now username session uid access refresh b).0 ≡ returned l
    → (later ≤ now + b.auth_life
        → verify_auth later uid access (new_auth verify now username session uid access refresh b).1
          ≡ (returned l.user_id, (new_auth verify now username session uid access refresh b).1))
      × (now + b.auth_life < later
          → (verify_auth later uid access'
              (new_auth verify now username session uid access refresh b).1).0
            ≡ failed account_not_found)
verify_auth-new_auth verify now later username session uid access access' refresh b l f h =
    let r = new_auth-IsLogin verify now username session uid access refresh b l h in
    let auth : Auth = new_auth_at now access refresh in
    (
      (λ live.
          let v = verify_valid later session r.holder uid auth b r.acc f r.found (ground arith) in
          subst (λ (s : Store). verify_auth later uid access s ≡ (returned l.user_id, s))
            (sym r.wrote)
            (v ∙ ap (λ u. (returned u, logged_in session r.holder uid auth b)) (sym r.user))),
      (λ dead.
          ap (λ (s : Store). (verify_auth later uid access' s).0) r.wrote
          ∙ verify_expired later session r.holder uid access' auth b f (ground arith)),
    )
