-- ===== src/Backend/Operations.antt =====
-- The methods of server/backend that write to the backend, as one type, and the runs of the backend:
-- one request after the other, each under the lock. A change of the mail or user settings carries
-- its function, as does a change of an address.
pub mod Streams
pub mod Invariants
pub mod Sessions
pub mod Lifecycle
pub mod Profiles
pub mod Deliveries
pub mod Runs
use go_proton_api.Base.{
  ◌≡◌, false, nat_eq, string_eq, ◌==◌, ◌&&◌, ℕ, String, Bool, Option, List, [], ◌∷◌,
}
use go_proton_api.Base.Int.{ℤ}
use go_proton_api.Backend.Types.{
  Address, AddressStatus, Attachment, Contact, Message, DraftAction, DraftTemplate, LabelType,
  MailSettings, UserSettings,
}
use go_proton_api.Backend.Exec.{skip, ◌>>◌, ◌>>=◌}
use go_proton_api.Backend.Store.{Store, M}
use go_proton_api.Backend.Labels.{create_label, delete_label, update_label}
use go_proton_api.Backend.Addresses.{
  KeyMaker, change_address, create_address, create_address_key, delete_address, remove_address,
  remove_address_key, set_address_order, set_address_status,
}
use go_proton_api.Backend.Attachments.{create_attachment}
use go_proton_api.Backend.Delivery.{Package, create_message, send_message}
use go_proton_api.Backend.Settings.{set_mail_settings, set_user_setting}
use go_proton_api.Contacts.Card.{Card}
use go_proton_api.Backend.Contacts.{add_user_contact, generate_contact_id, update_user_contact}
use go_proton_api.Backend.Reads.{
  add_address_created_update, add_address_updated_event, add_label_created_update,
  add_message_created_update, delete_feature_flags, push_feature_flag,
}
use go_proton_api.Backend.Sessions.{
  delete_session, new_auth, new_auth_info, new_auth_ref, verify_auth,
}
use go_proton_api.Backend.Users.{
  NewUser, create_user, create_user_key, refresh_all, refresh_user, remove_user, remove_user_key,
}
use go_proton_api.Backend.Mailbox.{
  create_draft, delete_message, label_messages, set_messages_forwarded, set_messages_read,
  unlabel_messages, update_draft,
}

-- What begins, ends or restarts the stream of an account: a new user, its removal, and a refresh with
-- its flag.
pub data UserOperation : Type 0 where
  user_create : String → List ℕ → NewUser → UserOperation
  user_remove : String → UserOperation
  user_refresh : String → ℕ → UserOperation

-- The operation begins, ends or restarts the stream of this account. A refresh without the flag
-- `RefreshAll` is an update like any other.
abbrev pub touches : String → UserOperation → Bool
touches p (user_create name password new) = new.user_id == p
touches p (user_remove user) = user == p
touches p (user_refresh user flag) = user == p && flag == refresh_all

-- The arguments of each operation; the first is the user, and a fresh id is the last.
pub data Operation : Type 0 where
  op_create_label : String → String → String → LabelType → String → Operation
  op_update_label : String → String → String → String → Operation
  op_delete_label : String → String → Operation
  op_set_read op_set_forwarded : String → Bool → List String → Operation
  op_label : String → String → Bool → List String → Operation
  op_unlabel : String → String → List String → Operation
  op_delete_message : String → String → Operation
  op_create_draft : String → String → DraftTemplate → String → DraftAction → String → Operation
  op_update_draft : String → String → DraftTemplate → Operation
  op_create_attachment : String → String → Attachment → List ℕ → Operation
  op_create_message : String → Message → Operation
  op_send : ℕ → String → String → List Package → Operation
  op_address_status : AddressStatus → String → String → Operation
  op_delete_address op_remove_address : String → String → Operation
  op_address_order : String → List String → Operation
  op_change_address : (Address → Address) → String → String → Operation
  op_create_address :
      String
      → String
      → List ℕ
      → Bool
      → AddressStatus
      → ℕ
      → Bool
      → Bool
      → ℤ
      → Option (List ℕ)
      → String
      → String
      → Operation
  op_address_key : String → String → List ℕ → Option (List ℕ) → String → Operation
  op_remove_address_key : String → String → String → Operation
  op_user_key : String → List ℕ → Option (List ℕ) → String → Operation
  op_remove_user_key : String → String → Operation
  op_mail_settings : String → (MailSettings → MailSettings) → Operation
  op_user_setting : String → ℕ → (UserSettings → UserSettings) → Operation
  op_announce_address op_announce_address_change : String → String → Operation
  op_announce_label op_announce_message : String → String → Operation
  op_add_contact : String → Contact → Operation
  op_update_contact : String → String → List Card → Operation
  op_contact_id : String → Operation
  op_auth_info : String → Option ℕ → String → Operation
  op_login : (ℕ → Option (List ℕ)) → ℕ → String → String → String → String → String → Operation
  op_refresh_login : ℕ → String → String → String → String → Operation
  op_check_login : ℕ → String → String → Operation
  op_delete_session : String → String → Operation
  op_push_flag : String → Operation
  op_delete_flags : Operation
  op_user : UserOperation → Operation

-- The request leaves the stream of the account its beginning.
abbrev pub Spares : String → Operation → Type 0
Spares p (op_user o) = touches p o ≡ false
Spares p _ = Unit

-- `fuel` bounds the walks over the labels.
module _ (maker : KeyMaker) (fuel : ℕ) where
  unfoldable pub perform_user : UserOperation → M Unit
  unfolding ◌>>=◌
  perform_user (user_create name password new) = create_user maker name password new >> skip
  perform_user (user_remove user) = remove_user user
  perform_user (user_refresh user flag) = refresh_user user flag

  unfoldable pub perform : Operation → M Unit
  unfolding ◌>>=◌ perform_user
  perform (op_create_label user name parent type id) =
      create_label fuel user name parent type id >> skip
  perform (op_update_label user id name parent) = update_label fuel user id name parent >> skip
  perform (op_delete_label user id) = delete_label fuel user id
  perform (op_set_read user read ids) = set_messages_read user read ids
  perform (op_set_forwarded user on ids) = set_messages_forwarded user on ids
  perform (op_label user label_id events ids) = label_messages user label_id events ids
  perform (op_unlabel user label_id ids) = unlabel_messages user label_id ids
  perform (op_delete_message user id) = delete_message user id
  perform (op_create_draft user addr draft parent action id) =
      create_draft user addr draft parent action id >> skip
  perform (op_update_draft user id changes) = update_draft user id changes >> skip
  perform (op_create_attachment user id att bytes) = create_attachment user id att bytes >> skip
  perform (op_create_message user msg) = create_message user msg >> skip
  perform (op_send now user id packages) = send_message maker.armor now user id packages >> skip
  perform (op_address_status status user id) = set_address_status status user id
  perform (op_delete_address user id) = delete_address user id
  perform (op_remove_address user id) = remove_address user id
  perform (op_address_order user ids) = set_address_order user ids
  perform (op_change_address f user id) = change_address f user id
  perform (op_create_address user email password with_key st type as_update send bits random k id) =
      create_address maker user email password with_key st type as_update send bits random k id
      >> skip
  perform (op_address_key user id password random k) =
      create_address_key maker user id password random k
  perform (op_remove_address_key user id k) = remove_address_key user id k
  perform (op_user_key user password random k) = create_user_key maker user password random k
  perform (op_remove_user_key user k) = remove_user_key user k
  perform (op_mail_settings user f) = set_mail_settings user f >> skip
  perform (op_user_setting user value f) = set_user_setting user value f >> skip
  perform (op_announce_address user id) = add_address_created_update user id
  perform (op_announce_address_change user id) = add_address_updated_event user id
  perform (op_announce_label user id) = add_label_created_update user id
  perform (op_announce_message user id) = add_message_created_update user id
  perform (op_add_contact user contact) = add_user_contact user contact >> skip
  perform (op_update_contact user id cards) = update_user_contact user id cards >> skip
  perform (op_contact_id user) = generate_contact_id user >> skip
  perform (op_auth_info name server session) = new_auth_info name server session >> skip
  perform (op_login verify now name session uid access refresh) =
      new_auth verify now name session uid access refresh >> skip
  perform (op_refresh_login now uid old access refresh) =
      new_auth_ref now uid old access refresh >> skip
  perform (op_check_login now uid access) = verify_auth now uid access >> skip
  perform (op_delete_session user uid) = delete_session user uid
  perform (op_push_flag name) = push_feature_flag name
  perform op_delete_flags = delete_feature_flags
  perform (op_user o) = perform_user o

  -- The state after the requests; one that fails or panics leaves what it wrote.
  unfoldable pub run_all : List Operation → Store → Store
  unfolding perform
  run_all [] b = b
  run_all (o ∷ os) b = run_all os (perform o b).1
