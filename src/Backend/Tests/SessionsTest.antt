-- ===== src/Backend/Tests/SessionsTest.antt =====
-- A user logs in at time 5, to a backend where a login lives for 1000.
use go_proton_api.Base.{
  String, ℕ, ◌+◌, ◌≤◌, ◌<◌, string_eq, Option, some, List, [], ◌∷◌, ◌≡◌, ◌≢◌, refl,
}
use go_proton_api.Base.Assoc.{adjust, find_key, lookup}
use go_proton_api.Backend.Exec.{returned, failed, account_not_found, invalid_ref}
use go_proton_api.Backend.Store.{Store, get_acc, set_acc}
use go_proton_api.Backend.Sessions.{
  with_acc_name, Login, holder, new_auth, new_auth_ref, verify_auth,
}
use go_proton_api.Backend.Sessions.Logins.{IsFresh, new_auth_once, verify_auth-new_auth}
use go_proton_api.Backend.Sessions.Refreshes.{new_auth_ref_rotates}
use go_proton_api.Backend.Tests.Fixture.{mailbox, owner}

abbrev waiting : Store
waiting = record mailbox { srp = ("s", 7) ∷ [] }

abbrev accept : ℕ → Option (List ℕ)
accept handle = some []

abbrev login : Login
login = record { user_id = "u"; auth_uid = "uid"; access = "acc"; refresh = "ref" }

login_goes_through : (new_auth accept 5 "user" "s" "uid" "acc" "ref" waiting).0 ≡ returned login
unfolding new_auth with_acc_name find_key lookup set_acc get_acc adjust
login_goes_through = refl

new_auth_once_example :
    (new_auth accept 6 "user" "s" "uid2" "acc2" "ref2"
      (new_auth accept 5 "user" "s" "uid" "acc" "ref" waiting).1).0
    ≢ returned login
new_auth_once_example =
    new_auth_once accept accept 5 6 "user" "user" "s" "uid" "uid2" "acc" "acc2" "ref" "ref2" waiting
      login login login_goes_through

waiting-IsFresh : IsFresh "uid" waiting.accounts
unfolding lookup
waiting-IsFresh = (refl, tt)

verify_auth-new_auth_example :
    (10 ≤ 5 + 1000
      → verify_auth 10 "uid" "acc" (new_auth accept 5 "user" "s" "uid" "acc" "ref" waiting).1
        ≡ (returned "u", (new_auth accept 5 "user" "s" "uid" "acc" "ref" waiting).1))
    × (5 + 1000 < 10
        → (verify_auth 10 "uid" "x" (new_auth accept 5 "user" "s" "uid" "acc" "ref" waiting).1).0
          ≡ failed account_not_found)
verify_auth-new_auth_example =
    verify_auth-new_auth accept 5 10 "user" "s" "uid" "acc" "x" "ref" waiting login waiting-IsFresh
      login_goes_through

abbrev seen : Store
seen = record mailbox {
  accounts =
      ("u", record owner { auth = ("uid", record { acc = "a"; ref = "r"; creation = 0 }) ∷ [] })
      ∷ [];
}

refresh_goes_through :
    (new_auth_ref 7 "uid" "r" "a2" "r2" seen).0
    ≡ returned (record login { access = "a2"; refresh = "r2" })
unfolding new_auth_ref holder lookup set_acc get_acc adjust
refresh_goes_through = refl

new_auth_ref_rotates_example :
    ((new_auth_ref 8 "uid" "r2" "a3" "r3" (new_auth_ref 7 "uid" "r" "a2" "r2" seen).1).0
      ≡ returned (record login { access = "a3"; refresh = "r3" }))
    × (◌≢◌ {A = String} "r2" "r"
        → new_auth_ref 8 "uid" "r" "a3" "r3" (new_auth_ref 7 "uid" "r" "a2" "r2" seen).1
          ≡ (failed invalid_ref, (new_auth_ref 7 "uid" "r" "a2" "r2" seen).1))
new_auth_ref_rotates_example =
    new_auth_ref_rotates 7 8 "uid" "r" "a2" "r2" "a3" "r3" "r" seen
      (record login { access = "a2"; refresh = "r2" }) refresh_goes_through
