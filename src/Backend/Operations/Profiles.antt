-- ===== src/Backend/Operations/Profiles.antt =====
-- The operations on addresses, settings and keys, and the event streams.
use go_proton_api.Base.{ℕ, suc, String, Bool, Option, List, [], ◌∷◌, refl}
use go_proton_api.Base.Int.{ℤ}
use go_proton_api.Base.Assoc.{Assoc}
use go_proton_api.Backend.Types.{Account, Address, AddressStatus, Key, MailSettings, UserSettings}
use go_proton_api.Backend.Updates.{Update}
use go_proton_api.Backend.Store.{Store, set_acc, post}
use go_proton_api.Backend.Store.Keeps.{Keeps, Keeps-bind, Keeps-skip, keeps_rules}
use go_proton_api.Backend.Addresses.{
  KeyMaker, change_address, create_address, create_address_key, delete_address, edit_address,
  first_keys, make_address_key, remove_address, remove_address_key, set_address_order,
  set_address_status, set_order, set_orders,
}
use go_proton_api.Backend.Settings.{set_mail_settings, set_user_setting}
use go_proton_api.Backend.Users.{create_user_key, remove_user_key}
use go_proton_api.Backend.Operations.Streams.{IsStreamInvariant}

module _ {P : Store → Type 0} (inv : IsStreamInvariant P) where
  post_keeps : (p : String) (e : Update) → Keeps P (post p e)
  post_keeps p e = inv.posts p e

  -- Writes to an account that leave its stream alone.
  addresses_keeps :
      (p : String) (f : Account → Assoc String Address)
      → Keeps P (set_acc p (λ acc. record acc { addresses = f acc }))
  addresses_keeps p f = inv.edits p _ (λ acc. refl)

  keys_keeps :
      (p : String) (f : Account → List Key)
      → Keeps P (set_acc p (λ acc. record acc { keys = f acc }))
  keys_keeps p f = inv.edits p _ (λ acc. refl)

  mail_settings_keeps :
      (p : String) (f : Account → MailSettings)
      → Keeps P (set_acc p (λ acc. record acc { mail_settings = f acc }))
  mail_settings_keeps p f = inv.edits p _ (λ acc. refl)

  user_settings_keeps :
      (p : String) (f : Account → UserSettings)
      → Keeps P (set_acc p (λ acc. record acc { user_settings = f acc }))
  user_settings_keeps p f = inv.edits p _ (λ acc. refl)

  ruleset order_rules = (
    keeps_rules, post_keeps, addresses_keeps, keys_keeps, mail_settings_keeps, user_settings_keeps,
  )

  pub edit_address_keeps : (p id : String) (f : Address → Address) → Keeps P (edit_address p id f)
  unfolding edit_address
  edit_address_keeps p id f = search order_rules depth 24

  pub set_address_status_keeps :
      (st : AddressStatus) (user_id id : String) → Keeps P (set_address_status st user_id id)
  unfolding set_address_status
  set_address_status_keeps st user_id id = search (order_rules, edit_address_keeps) depth 24

  pub delete_address_keeps : (user_id id : String) → Keeps P (delete_address user_id id)
  unfolding delete_address
  delete_address_keeps user_id id = search order_rules depth 24

  pub remove_address_keeps : (user_id id : String) → Keeps P (remove_address user_id id)
  unfolding remove_address
  remove_address_keeps user_id id = search order_rules depth 24

  pub set_order_keeps : (p : String) (i : ℕ) (id : String) → Keeps P (set_order p i id)
  unfolding set_order
  set_order_keeps p i id = search order_rules depth 24

  set_orders_keeps : (p : String) (i : ℕ) (ids : List String) → Keeps P (set_orders p i ids)
  unfolding set_orders
  set_orders_keeps p i [] = Keeps-skip
  set_orders_keeps p i (id ∷ ids) =
      Keeps-bind _ _ (set_order_keeps p i id) (λ _. set_orders_keeps p (suc i) ids)

  pub set_address_order_keeps :
      (user_id : String) (ids : List String) → Keeps P (set_address_order user_id ids)
  unfolding set_address_order
  set_address_order_keeps user_id ids = search (order_rules, set_orders_keeps) depth 24

  pub change_address_keeps :
      (f : Address → Address) (user_id id : String) → Keeps P (change_address f user_id id)
  unfolding change_address
  change_address_keeps f user_id id = search order_rules depth 24

  pub remove_address_key_keeps :
      (user_id id key_id : String) → Keeps P (remove_address_key user_id id key_id)
  unfolding remove_address_key
  remove_address_key_keeps user_id id key_id = search (order_rules, edit_address_keeps) depth 24

  pub set_mail_settings_keeps :
      (user_id : String) (f : MailSettings → MailSettings) → Keeps P (set_mail_settings user_id f)
  unfolding set_mail_settings
  set_mail_settings_keeps user_id f = search order_rules depth 24

  pub set_user_setting_keeps :
      (user_id : String) (v : ℕ) (f : UserSettings → UserSettings)
      → Keeps P (set_user_setting user_id v f)
  unfolding set_user_setting
  set_user_setting_keeps user_id v f = search order_rules depth 24

  pub make_address_key_keeps :
      (k : KeyMaker) (acc : Account) (email : String) (pw : List ℕ) (bits : ℤ)
      (random : Option (List ℕ)) (id : String)
      → Keeps P (make_address_key k acc email pw bits random id)
  unfolding make_address_key
  make_address_key_keeps k acc email pw bits random id = search keeps_rules depth 24

  pub first_keys_keeps :
      (k : KeyMaker) (acc : Account) (email : String) (pw : List ℕ) (w : Bool) (bits : ℤ)
      (random : Option (List ℕ)) (id : String)
      → Keeps P (first_keys k acc email pw w bits random id)
  unfolding first_keys
  first_keys_keeps k acc email pw w bits random id =
      search (keeps_rules, make_address_key_keeps) depth 24

  pub create_address_keeps :
      (k : KeyMaker) (user_id email : String) (pw : List ℕ) (w : Bool) (st : AddressStatus) (t : ℕ)
      (u s : Bool) (bits : ℤ) (random : Option (List ℕ)) (key_id id : String)
      → Keeps P (create_address k user_id email pw w st t u s bits random key_id id)
  unfolding create_address
  create_address_keeps k user_id email pw w st t u s bits random key_id id =
      search (order_rules, first_keys_keeps) depth 24

  pub create_address_key_keeps :
      (k : KeyMaker) (user_id id : String) (pw : List ℕ) (random : Option (List ℕ))
      (key_id : String)
      → Keeps P (create_address_key k user_id id pw random key_id)
  unfolding create_address_key
  create_address_key_keeps k user_id id pw random key_id =
      search (order_rules, make_address_key_keeps, edit_address_keeps) depth 24

  pub create_user_key_keeps :
      (k : KeyMaker) (user_id : String) (pw : List ℕ) (random : Option (List ℕ)) (key_id : String)
      → Keeps P (create_user_key k user_id pw random key_id)
  unfolding create_user_key
  create_user_key_keeps k user_id pw random key_id = search order_rules depth 24

  pub remove_user_key_keeps : (user_id key_id : String) → Keeps P (remove_user_key user_id key_id)
  unfolding remove_user_key
  remove_user_key_keeps user_id key_id = search order_rules depth 24
