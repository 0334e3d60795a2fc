-- ===== src/Client/Session/Recovery.antt =====
-- A client against the server: what happens when its access token is refused.
use go_proton_api.Base.{
  ℕ, suc, ◌+◌, ◌≤◌, String, string_eq, nat_eq, false, none, some, ◌==◌, if◌then◌else◌, ◌≡◌, ◌≢◌,
  refl, ap, subst, ◌∙◌, arith, str_iff, beq_refl,
}
use go_proton_api.Base.Assoc.{lookup, option_map}
use go_proton_api.Backend.Types.{Account, Auth}
use go_proton_api.Backend.Exec.{returned, fail_if}
use go_proton_api.Backend.Store.{Store, get_acc, set_acc}
use go_proton_api.Backend.Sessions.{
  Login, check_token, holder, new_auth_at, new_auth_ref, put_auth, verify_auth,
}
use go_proton_api.Backend.Sessions.Refreshes.{adjusted, holder-adjust, refreshed}
use go_proton_api.Backend.Sessions.Checks.{
  check_token-holder, checked, holder-check_token, lookup-check_token, verify_accepted,
  verify_refused,
}
use go_proton_api.Server.Response.{Handler, ok, aborted, answer, recovered}
use go_proton_api.Server.Auth.{
  Authorization, bearer, no_header, handle_post_auth_refresh, require_auth,
}
use go_proton_api.Client.Session.{
  Client, Request, Refresh, Reply, auth_refresh, conclude, do_res, exec, replied, retried, retry,
  take_auth,
}

abbrev pub header : String → Authorization
header acc = if acc == "" then no_header else bearer acc

-- The store behind the server, the time of each request by its number, and how many there were.
pub record World : Type 0 where
  pub store : Store
  pub clock : ℕ → ℕ
  pub count : ℕ

abbrev pub after : World → Store → World
after w s = record w { store = s; count = suc w.count }

-- The server answers the two requests of a client.
unfoldable pub served : {A : Type 0} → (String → String → Handler A) → Request World A
unfolding require_auth
served handler uid acc w =
    let (r, s) = require_auth (w.clock w.count) uid (header acc) handler w.store in
    (replied (recovered r), after w s)

-- The server makes fresh tokens.
unfoldable pub served_refresh : String → String → Refresh World
unfolding handle_post_auth_refresh
served_refresh access refresh uid ref acc w =
    let (r, s) =
      handle_post_auth_refresh (w.clock w.count) (some (uid, ref)) access refresh w.store in
    (replied (recovered r), after w s)

set_header : (acc : String) → acc ≢ "" → (acc == "") ≡ false
set_header acc h = ground (arith, str_iff acc "")

abbrev pub login_of : String → String → String → String → Login
login_of user_id uid access refresh = record {
  user_id = user_id;
  auth_uid = uid;
  access = access;
  refresh = refresh;
}

renews :
    (now : ℕ) (uid access refresh p : String) (acc : Account) (auth : Auth) (s : Store)
    → holder uid s.accounts ≡ some (p, auth)
    → lookup p s.accounts ≡ some acc
    → new_auth_ref now uid auth.ref access refresh s ≡ (
      returned (login_of acc.user_id uid access refresh),
      refreshed p uid (new_auth_at now access refresh) s,
    )
unfolding new_auth_ref fail_if get_acc set_acc
renews now uid access refresh p acc auth s h q =
    let k = adjusted p (new_auth_at now access refresh) uid s.accounts in
    rw (new_auth_ref, h, beq_refl auth.ref, k, q) refl

served_refresh_renews :
    (uid ref old access refresh p : String) (acc : Account) (auth : Auth) (w : World)
    → holder uid w.store.accounts ≡ some (p, auth)
    → auth.ref ≡ ref
    → lookup p w.store.accounts ≡ some acc
    → served_refresh access refresh uid ref old w ≡ (
      replied (ok (login_of acc.user_id uid access refresh)),
      after w (refreshed p uid (new_auth_at (w.clock w.count) access refresh) w.store),
    )
unfolding served_refresh handle_post_auth_refresh answer recovered
served_refresh_renews uid ref old access refresh p acc auth w h e q =
    let now = w.clock w.count in
    let step : new_auth_ref now uid ref access refresh w.store ≡ (
      returned (login_of acc.user_id uid access refresh),
      refreshed p uid (new_auth_at now access refresh) w.store,
    ) =
      subst
        (λ r. new_auth_ref now uid r access refresh w.store ≡ (
          returned (login_of acc.user_id uid access refresh),
          refreshed p uid (new_auth_at now access refresh) w.store,
        ))
        e (renews now uid access refresh p acc auth w.store h q) in
    rw step refl

module _ {A : Type 0} (handler : String → String → Handler A) where
  served_refused :
      (uid access : String) (w : World)
      → uid ≢ ""
      → access ≢ ""
      → (check_token w.store.auth_life (w.clock w.count) uid access w.store.accounts).0 ≡ none
      → served handler uid access w
        ≡ (replied (aborted 401 0), after w (checked (w.clock w.count) uid access w.store))
  unfolding served require_auth answer recovered
  served_refused uid access w u a h =
      rw
        (
          require_auth,
          set_header uid u,
          set_header access a,
          verify_refused (w.clock w.count) uid access w.store h,
        )
        refl

  served_accepted :
      (uid access user_id : String) (w : World)
      → uid ≢ ""
      → access ≢ ""
      → verify_auth (w.clock w.count) uid access w.store ≡ (returned user_id, w.store)
      → served handler uid access w ≡ (
        replied (recovered (handler user_id uid w.store).0),
        after w (handler user_id uid w.store).1,
      )
  unfolding served require_auth answer
  served_accepted uid access user_id w u a h =
      rw (require_auth, set_header uid u, set_header access a, h) refl

  -- The end of `doRes` after the replies to its three requests.
  three_requests :
      (refresh : Refresh World) (c : Client) (w w1 w2 w3 : World) (l : Login) (r : Reply A)
      → served handler c.uid c.acc w ≡ (replied (aborted 401 0), w1)
      → refresh c.uid c.ref c.acc w1 ≡ (replied (ok l), w2)
      → served handler c.uid l.access w2 ≡ (r, w3)
      → do_res (served handler) refresh c w ≡ (retried r, take_auth l c, w3)
  unfolding do_res exec conclude auth_refresh retry take_auth
  three_requests refresh c w w1 w2 w3 l r first second third =
      rw (first, conclude, auth_refresh, second, third) refl

-- A client whose access token the server no longer takes, and whose refresh token is the one that the
-- server holds for its login, still gets through: the request that is answered 401 is followed by a
-- refresh and made again. Its result is what the handler returns for the user of the login, in the
-- state after the refresh, and the client keeps the new tokens. The second request comes within the
-- life of the login that the refresh wrote.
pub do_res_recovers :
    {A : Type 0} (handler : String → String → Handler A) (c : Client) (w : World)
    (access refresh p : String) (auth : Auth) (acc : Account)
    → c.uid ≢ ""
    → c.acc ≢ ""
    → access ≢ ""
    → holder c.uid w.store.accounts ≡ some (p, auth)
    → auth.ref ≡ c.ref
    → lookup p w.store.accounts ≡ some acc
    → (check_token w.store.auth_life (w.clock w.count) c.uid c.acc w.store.accounts).0 ≡ none
    → w.clock (suc (suc w.count)) ≤ w.clock (suc w.count) + w.store.auth_life
    → (let b =
          refreshed p c.uid
            (new_auth_at (w.clock (suc w.count)) access refresh)
            (checked (w.clock w.count) c.uid c.acc w.store) in
        do_res (served handler) (served_refresh access refresh) c w ≡ (
          retried (replied (recovered (handler acc.user_id c.uid b).0)),
          take_auth (login_of acc.user_id c.uid access refresh) c,
          record w { store = (handler acc.user_id c.uid b).1; count = suc (suc (suc w.count)) },
        ))
do_res_recovers handler c w access refresh p auth acc uid_set acc_set access_set held token known
      refused live =
    let life = w.store.auth_life in
    let now = w.clock w.count in
    let kept = holder-check_token life now c.uid c.acc p auth w.store.accounts held refused in
    let there = lookup-check_token life now c.uid c.acc p acc w.store.accounts known in
    let b1 = checked now c.uid c.acc w.store in
    let auth' = new_auth_at (w.clock (suc w.count)) access refresh in
    let b2 = refreshed p c.uid auth' b1 in
    let holds = holder-adjust c.uid p kept.0 auth' b1.accounts kept.1 in
    let valid =
      check_token-holder life (w.clock (suc (suc w.count))) c.uid p auth' b2.accounts holds
        (ground arith) in
    let found =
      adjusted p auth' c.uid b1.accounts ∙ ap (option_map (put_auth c.uid auth')) there.1 in
    let verified =
      verify_accepted (w.clock (suc (suc w.count))) c.uid p auth' (put_auth c.uid auth' there.0) b2
        valid found in
    let w1 = after w b1 in
    let w2 = after w1 b2 in
    let user = there.0.user_id in
    let first = served_refused handler c.uid c.acc w uid_set acc_set refused in
    let second =
      served_refresh_renews c.uid c.ref c.acc access refresh p there.0 kept.0 w1 kept.1
        (kept.2 ∙ token) there.1 in
    let third = served_accepted handler c.uid access user w2 uid_set access_set verified in
    subst
      (λ (u : String). do_res (served handler) (served_refresh access refresh) c w ≡ (
        retried (replied (recovered (handler u c.uid b2).0)),
        take_auth (login_of u c.uid access refresh) c,
        after w2 (handler u c.uid b2).1,
      ))
      there.2
      (three_requests handler (served_refresh access refresh) c w w1 w2
        (after w2 (handler user c.uid b2).1) (login_of user c.uid access refresh)
        (replied (recovered (handler user c.uid b2).0)) first second third)
