-- ===== src/Client/Tests/SessionTest.antt =====
-- A client with an expired login counts its messages.
use go_proton_api.Base.{
  ℕ, ◌+◌, String, string_eq, nat_eq, false, some, none, [], ◌∷◌, ◌==◌, ◌≡◌, ◌≢◌, refl, arith,
  str_iff,
}
use go_proton_api.Base.Assoc.{lookup, insert}
use go_proton_api.Backend.Types.{Account, Auth}
use go_proton_api.Backend.Mailbox.{count_messages}
use go_proton_api.Backend.Sessions.{check_token, holder, new_auth_at}
use go_proton_api.Backend.Sessions.Checks.{checked}
use go_proton_api.Backend.Sessions.Refreshes.{refreshed}
use go_proton_api.Backend.Tests.Fixture.{mailbox, owner}
use go_proton_api.Server.Response.{Handler, answer, recovered}
use go_proton_api.Client.Session.{Client, do_res, replied, retried, take_auth}
use go_proton_api.Client.Session.Recovery.{World, do_res_recovers, login_of, served, served_refresh}

abbrev old : Auth
old = record { acc = "a"; ref = "r"; creation = 0 }

abbrev user : Account
user = record owner { auth = ("uid", old) ∷ [] }

abbrev clock : ℕ → ℕ
clock n = 2000 + n

abbrev world : World
world = record { store = record mailbox { accounts = ("u", user) ∷ [] }; clock = clock; count = 0 }

abbrev client : Client
client = record {
  uid = "uid";
  acc = "a";
  ref = "r";
  auth_handlers = 1 ∷ [];
  deauth_handlers = [];
  deauth_done = false;
  log = [];
}

abbrev count : String → String → Handler ℕ
count user_id auth_uid = answer 500 (count_messages user_id)

held : holder "uid" world.store.accounts ≡ some ("u", old)
unfolding holder lookup
held = refl

known : lookup "u" world.store.accounts ≡ some user
unfolding lookup
known = refl

expired : (check_token 1000 2000 "uid" "a" world.store.accounts).0 ≡ none
unfolding check_token lookup insert
expired = refl

differ : (s : String) → (s == "") ≡ false → s ≢ ""
differ s h e = ground (arith, str_iff s "")

do_res_recovers_example : do_res (served count) (served_refresh "a2" "r2") client world ≡ (
  retried (
      replied (
        recovered
          (count "u" "uid" (
            refreshed "u" "uid"
              (new_auth_at 2001 "a2" "r2")
              (checked 2000 "uid" "a" world.store))).0)),
  take_auth (login_of "u" "uid" "a2" "r2") client,
  record world {
    store =
        (count "u" "uid" (
          refreshed "u" "uid" (new_auth_at 2001 "a2" "r2") (checked 2000 "uid" "a" world.store))).1;
    count = 3;
  },
)
do_res_recovers_example =
    do_res_recovers count client world "a2" "r2" "u" old user (differ "uid" refl) (differ "a" refl)
      (differ "a2" refl) held refl known expired (omega arith)
