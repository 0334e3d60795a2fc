-- ===== src/Backend/Sessions/Refreshes.antt =====
-- What a refresh of a login leaves of the tokens that it replaces.
use go_proton_api.Base.{
  ℕ, String, string_eq, false, some, [], ◌∷◌, ◌==◌, ◌≡◌, ◌≢◌, refl, sym, ap, ◌∙◌, arith, str_iff,
  beq_refl, Bool-cases, Option-cases, inl, inr,
}
use go_proton_api.Base.Assoc.{
  Assoc, adjust, insert, lookup, lookup-adjust, lookup-insert, option_map,
}
use go_proton_api.Backend.Types.{Account, Auth}
use go_proton_api.Backend.Exec.{returned, failed, invalid_ref, fail_if}
use go_proton_api.Backend.Store.{Store, get_acc, set_acc}
use go_proton_api.Backend.Sessions.{Login, holder, new_auth_at, new_auth_ref, put_auth}

pub holder-adjust :
    (uid p : String) (old auth : Auth) (m : Assoc String Account)
    → holder uid m ≡ some (p, old)
    → holder uid (adjust p (put_auth uid auth) m) ≡ some (p, auth)
unfolding holder adjust
holder-adjust uid p old auth [] h = absurd (ground arith)
holder-adjust uid p old auth ((k, acc) ∷ m) h =
    let put : lookup uid (insert uid auth acc.auth) ≡ some auth =
      lookup-insert uid uid auth acc.auth ∙ rw (beq_refl uid) refl in
    elim (Option-cases (lookup uid acc.auth)) [
      | inl n ↦
          let rest = holder-adjust uid p old auth m (ground arith) in ground (arith, str_iff k p)
      | inr (found, n) ↦ ground (arith, str_iff k p)
    ]

abbrev pub refreshed : String → String → Auth → Store → Store
refreshed p uid auth b = record b { accounts = adjust p (put_auth uid auth) b.accounts }

-- What a refresh that went through found and wrote.
pub record IsRefresh (b after : Store) (uid old_refresh : String) (auth : Auth) (l : Login)
    : Type 0 where
  pub owner : String
  pub acc : Account
  pub old : Auth
  pub held : holder uid b.accounts ≡ some (owner, old)
  pub known : lookup owner b.accounts ≡ some acc
  pub token : old.ref ≡ old_refresh
  pub login :
      l ≡ record { user_id = acc.user_id; auth_uid = uid; access = auth.acc; refresh = auth.ref }
  pub wrote : after ≡ refreshed owner uid auth b

pub adjusted :
    (p : String) (auth : Auth) (uid : String) (m : Assoc String Account)
    → lookup p (adjust p (put_auth uid auth) m) ≡ option_map (put_auth uid auth) (lookup p m)
adjusted p auth uid m = lookup-adjust p p (put_auth uid auth) m ∙ rw (beq_refl p) refl

pub new_auth_ref-IsRefresh :
    (now : ℕ) (uid old_refresh access refresh : String) (b : Store) (l : Login)
    → (new_auth_ref now uid old_refresh access refresh b).0 ≡ returned l
    → IsRefresh b
        (new_auth_ref now uid old_refresh access refresh b).1
        uid
        old_refresh
        (new_auth_at now access refresh)
        l
unfolding new_auth_ref get_acc set_acc fail_if
new_auth_ref-IsRefresh now uid old_refresh access refresh b l h =
    elim (Option-cases (holder uid b.accounts)) [
      | inl e ↦ absurd (ground arith)
      | inr ((p, old), e) ↦ elim (Bool-cases (old.ref == old_refresh)) [
        | inr t ↦ absurd (ground arith)
        | inl t ↦
            let k = adjusted p (new_auth_at now access refresh) uid b.accounts in
            elim (Option-cases (lookup p b.accounts)) [
              | inl q ↦ absurd (ground arith)
              | inr (acc, q) ↦ record {
                owner = p;
                acc = acc;
                old = old;
                held = e;
                known = q;
                token = ground (arith, str_iff old.ref old_refresh);
                login = ground arith;
                wrote = ground arith;
              }
            ]
      ]
    ]

-- A second refresh, in a state where the login is held with the refresh token `auth.ref`.
refused :
    (now : ℕ) (uid token access refresh p : String) (auth : Auth) (s : Store)
    → holder uid s.accounts ≡ some (p, auth)
    → auth.ref ≢ token
    → new_auth_ref now uid token access refresh s ≡ (failed invalid_ref, s)
unfolding new_auth_ref fail_if
refused now uid token access refresh p auth s h other =
    let wrong : (auth.ref == token) ≡ false = ground (arith, str_iff auth.ref token) in
    rw (new_auth_ref, h, wrong) refl

pub accepted :
    (now : ℕ) (uid access refresh p : String) (acc : Account) (auth : Auth) (s : Store)
    → holder uid s.accounts ≡ some (p, auth)
    → lookup p s.accounts ≡ some acc
    → (new_auth_ref now uid auth.ref access refresh s).0
      ≡ returned
          (record { user_id = acc.user_id; auth_uid = uid; access = access; refresh = refresh })
unfolding new_auth_ref fail_if get_acc set_acc
accepted now uid access refresh p acc auth s h q =
    let k = adjusted p (new_auth_at now access refresh) uid s.accounts in
    rw (new_auth_ref, h, beq_refl auth.ref, k, q) refl

-- A refresh that went through replaces the refresh token: the next refresh of the login goes through
-- with the new token, and is refused with any other, the old one included, and then changes nothing.
pub new_auth_ref_rotates :
    (now later : ℕ) (uid old_refresh access refresh access' refresh' token : String) (b : Store)
    (l : Login)
    → (new_auth_ref now uid old_refresh access refresh b).0 ≡ returned l
    → ((new_auth_ref later uid refresh access' refresh'
          (new_auth_ref now uid old_refresh access refresh b).1).0
        ≡ returned (record l { access = access'; refresh = refresh' }))
      × (refresh ≢ token
          → new_auth_ref later uid token access' refresh'
              (new_auth_ref now uid old_refresh access refresh b).1
            ≡ (failed invalid_ref, (new_auth_ref now uid old_refresh access refresh b).1))
new_auth_ref_rotates now later uid old_refresh access refresh access' refresh' token b l h =
    let r = new_auth_ref-IsRefresh now uid old_refresh access refresh b l h in
    let auth = new_auth_at now access refresh in
    let held =
      ap (λ (s : Store). holder uid s.accounts) r.wrote
      ∙ holder-adjust uid r.owner r.old auth b.accounts r.held in
    let known =
      ap (λ (s : Store). lookup r.owner s.accounts) r.wrote
      ∙ adjusted r.owner auth uid b.accounts
      ∙ ap (option_map (put_auth uid auth)) r.known in
    let after = (new_auth_ref now uid old_refresh access refresh b).1 in
    (
      accepted later uid access' refresh' r.owner (put_auth uid auth r.acc) auth after held known
          ∙ ap (λ (x : Login). returned (record x { access = access'; refresh = refresh' }))
              (sym r.login),
      refused later uid token access' refresh' r.owner auth after held,
    )
