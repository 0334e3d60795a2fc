-- ===== src/Backend/Updates.antt =====
-- server/backend/updates.go: the updates that an account collects, and the merge that drops those
-- that a later one replaces. `none` is the panic on an item that is deleted twice.
pub mod Merge
pub mod Panics
pub mod Reduced
use go_proton_api.Base.{
  ℕ, String, Bool, true, false, Option, none, some, List, [], ◌∷◌, if◌then◌else◌, ◌==◌, string_eq,
}
use go_proton_api.Backend.Types.{UserSettings}

-- The structs that implement the interface `update`.
pub data Update : Type 0 where
  user_refreshed : ℕ → Update
  message_created message_updated message_deleted : String → Update
  label_created label_updated label_deleted : String → Update
  address_created address_updated address_deleted : String → Update
  user_settings_update : UserSettings → Update
  user_info_update : Update

abbrev pub ◌>>=◌ {ℓ κ} : {A : Type ℓ} {B : Type κ} → Option A → (A → Option B) → Option B
none >>= f = none
some a >>= f = f a

infixl 5 ◌>>=◌
-- `update.replaces(other)`, by the dynamic type of `update` and then of `other`.
unfoldable pub replaces : Update → Update → Option Bool
replaces (message_updated a) (message_updated b) = some (a == b)
replaces (message_deleted a) (message_created b) = some (a == b)
replaces (message_deleted a) (message_updated b) = some (a == b)
replaces (message_deleted a) (message_deleted b) = if a == b then none else some false
replaces (label_updated a) (label_updated b) = some (a == b)
replaces (label_deleted a) (label_created b) = some (a == b)
replaces (label_deleted a) (label_updated b) = some (a == b)
replaces (label_deleted a) (label_deleted b) = if a == b then none else some false
replaces (address_updated a) (address_updated b) = some (a == b)
replaces (address_deleted a) (address_created b) = some (a == b)
replaces (address_deleted a) (address_updated b) = some (a == b)
replaces (address_deleted a) (address_deleted b) = if a == b then none else some false
replaces (user_settings_update s) (user_settings_update t) = some true
replaces user_info_update user_info_update = some true
replaces _ _ = some false

-- `slices.IndexFunc` over the merged updates, which stops at the first that replaces `u`.
unfoldable pub replaced : Update → List Update → Option Bool
replaced u [] = some false
replaced u (o ∷ os) = do
  hit ← replaces o u
  let rest = replaced u os
  if hit then some true else rest

unfoldable pub merge : List Update → Option (List Update)
merge [] = some []
merge (u ∷ []) = some (u ∷ [])
merge (u ∷ v ∷ us) = do
  merged ← merge (v ∷ us)
  hit ← replaced u merged
  some (if hit then merged else u ∷ merged)
