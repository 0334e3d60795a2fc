-- ===== src/Backend/Store.antt =====
-- The state of server/backend/backend.go and the accesses that its methods are built from. A pointer
-- to an account is the key under which the map of accounts holds it. Third-party SRP servers are
-- known by handles.
pub mod Keeps
pub mod Ordered
use go_proton_api.Base.{
  ℕ, String, Bool, Option, none, some, List, [], ◌∷◌, ◌++◌, ◌==◌, nat_eq, string_eq, length,
}
use go_proton_api.Base.Int.{ℤ, pos}
use go_proton_api.Base.Assoc.{Assoc, lookup, insert, delete, adjust, find_key}
use go_proton_api.Backend.Types.{Account, Attachment, Message, Label}
use go_proton_api.Backend.Updates.{Update}
use go_proton_api.Backend.Exec.{
  Exec, Error, Outcome, returned, failed, panicked, account_not_found, reads, or_panic, modify,
  ◌>>=◌,
}

-- `unsafeBackend`, without its ticket list and its observability counters.
pub record Store : Type 0 where
  pub accounts : Assoc String Account
  pub attachments : Assoc String Attachment
  pub att_data : Assoc String (List ℕ)
  pub messages : Assoc String Message
  pub labels : Assoc String Label
  pub updates : Assoc ℕ Update
  pub max_updates_per_event : ℤ
  pub srp : Assoc String ℕ
  pub auth_life : ℕ
  pub enable_dedup : Bool
  pub feature_flags : List (String × Bool)

abbrev pub M : Type 0 → Type 0
M A = Exec Store A

unfoldable pub new_store : ℕ → Bool → Store
new_store auth_life enable_dedup = record {
  accounts = [];
  attachments = [];
  att_data = [];
  messages = [];
  labels = [];
  updates = [];
  max_updates_per_event = pos 0;
  srp = [];
  auth_life = auth_life;
  enable_dedup = enable_dedup;
  feature_flags = [];
}

-- The method `withAcc`, which looks the account up under its key.
unfoldable pub with_acc : {A : Type 0} → String → (String → M A) → M A
with_acc user_id fn b = elim (lookup user_id b.accounts) [
  | none ↦ (failed account_not_found, b)
  | some acc ↦ fn user_id b
]

-- The function `withAcc`, which ranges over the accounts.
unfoldable pub with_acc_ret : {A : Type 0} → String → (String → M A) → M A
with_acc_ret user_id fn b = elim (find_key (λ acc. acc.user_id == user_id) b.accounts) [
  | none ↦ (failed account_not_found, b)
  | some p ↦ fn p b
]

-- Read and write through the pointer `p`.
unfoldable pub get_acc : String → M Account
unfolding ◌>>=◌
get_acc p = do found ← reads (λ b. lookup p b.accounts); or_panic found

unfoldable pub set_acc : String → (Account → Account) → M Unit
unfolding modify
set_acc p f = modify λ b. record b { accounts = adjust p f b.accounts }

unfoldable pub new_update : Update → M ℕ
new_update event b =
    let update_id = length b.updates in
    (returned update_id, record b { updates = insert update_id event b.updates })

-- `acc.updateIDs = append(acc.updateIDs, updateID)`.
abbrev pub push_id : ℕ → Account → Account
push_id update_id acc = record acc { update_ids = acc.update_ids ++ update_id ∷ [] }

-- The pair of statements by which every method reports a change to the account's event stream.
unfoldable pub post : String → Update → M Unit
unfolding new_update set_acc ◌>>=◌
post p event = do update_id ← new_update event; set_acc p (push_id update_id)
