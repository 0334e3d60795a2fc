-- ===== src/Backend/Users.antt =====
-- The user methods of server/backend/backend.go. Random salts and fresh ids are arguments.
pub mod Refresh
use go_proton_api.Base.{
  ℕ, String, string_eq, nat_eq, Option, List, [], ◌∷◌, ◌++◌, ◌==◌, if◌then◌else◌,
}
use go_proton_api.Base.Int.{pos}
use go_proton_api.Base.Assoc.{lookup, insert, delete}
use go_proton_api.Backend.Types.{Key, new_account}
use go_proton_api.Backend.Updates.{user_refreshed}
use go_proton_api.Backend.Exec.{
  crypto_failure, no_such_key, no_such_user, for_each, modify, or_fail, or_panic, pure, reads,
  ◌>>=◌, ◌>>◌,
}
use go_proton_api.Backend.Store.{M, new_update, set_acc, with_acc}
use go_proton_api.Backend.Mailbox.{delete_attachment}
use go_proton_api.Backend.Addresses.{KeyMaker, remove_key}

-- The values that a user is made from: what gopenpgp and go-srp return, with `none` for an error.
pub record NewUser : Type 0 where
  pub salt : Option (List ℕ)
  pub verifier : Option (List ℕ)
  pub key_id : String
  pub user_id : String

unfoldable pub create_user : KeyMaker → String → List ℕ → NewUser → M String
unfolding ◌>>=◌
create_user maker username password new = do
  salt ← or_fail crypto_failure new.salt
  passphrase ← or_fail crypto_failure (maker.hash_password password salt)
  verifier ← or_fail crypto_failure new.verifier
  arm_key ← or_fail crypto_failure (maker.generate_key username username passphrase (pos 2048))
  let acc = new_account new.user_id username arm_key salt verifier new.key_id
  modify (λ b. record b { accounts = insert new.user_id acc b.accounts })
  pure new.user_id

-- The body of the loop of `RemoveUser` over the messages.
unfoldable pub remove_message : String → M Unit
unfolding ◌>>=◌ delete_attachment
remove_message id = do
  found ← reads (λ b. lookup id b.messages)
  msg ← or_panic found
  for_each msg.att_ids delete_attachment
  modify (λ b. record b { messages = delete id b.messages })

unfoldable pub remove_user : String → M Unit
unfolding ◌>>=◌ remove_message
remove_user user_id = do
  found ← reads (λ b. lookup user_id b.accounts)
  user ← or_fail no_such_user found
  for_each user.label_ids (λ id. modify (λ b. record b { labels = delete id b.labels }))
  for_each user.message_ids remove_message
  modify (λ b. record b { accounts = delete user_id b.accounts })

-- `RefreshAll`, the flag after which a stream begins anew.
abbrev pub refresh_all : ℕ
refresh_all = 255

unfoldable pub refresh_user : String → ℕ → M Unit
unfolding ◌>>=◌
refresh_user user_id flag = with_acc user_id λ p. do
  update_id ← new_update (user_refreshed flag)
  set_acc p (λ acc. record acc {
    update_ids = if flag == refresh_all then update_id ∷ [] else acc.update_ids ++ update_id ∷ [];
  })

unfoldable pub create_user_key : KeyMaker → String → List ℕ → Option (List ℕ) → String → M Unit
unfolding ◌>>=◌
create_user_key maker user_id password random key_id = do
  found ← reads (λ b. lookup user_id b.accounts)
  user ← or_fail no_such_user found
  salt ← or_fail crypto_failure random
  passphrase ← or_fail crypto_failure (maker.hash_password password salt)
  arm_key ←
      or_fail crypto_failure (maker.generate_key user.username user.username passphrase (pos 2048))
  let k : Key = record { key_id = key_id; key = arm_key; tok = ""; sig = "" }
  set_acc user_id (λ acc. record acc { keys = acc.keys ++ k ∷ [] })

unfoldable pub remove_user_key : String → String → M Unit
unfolding ◌>>=◌
remove_user_key user_id key_id = do
  found ← reads (λ b. lookup user_id b.accounts)
  user ← or_fail no_such_user found
  kept ← or_fail no_such_key (remove_key key_id user.keys)
  set_acc user_id (λ acc. record acc { keys = kept })
