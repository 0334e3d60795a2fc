-- ===== src/Backend/Types.antt =====
-- The data that server/backend keeps: account.go, address.go, attachment.go, label.go, message.go,
-- types.go, mail_settings.go, and the API structs of the root package that it stores unchanged.
-- An id is a text, a time a number of nanoseconds, a nil pointer `none`.
use go_proton_api.Base.{ℕ, String, Bool, false, Option, List, [], ◌∷◌}
use go_proton_api.Base.Assoc.{Assoc}
use go_proton_api.Contacts.Card.{Card}

pub record Key : Type 0 where
  pub key_id : String
  pub key : String
  pub tok : String
  pub sig : String

pub record Auth : Type 0 where
  pub acc : String
  pub ref : String
  pub creation : ℕ

-- The statuses are disabled, enabled and deleting.
pub data AddressStatus : Type 0 where
  status_disabled status_enabled status_deleting : AddressStatus

pub record Address : Type 0 where
  pub addr_id : String
  pub email : String
  pub display_name : String
  pub order : ℕ
  pub status : AddressStatus
  pub addr_type : ℕ
  pub keys : List Key
  pub allow_send : Bool

pub record MailSettings : Type 0 where
  pub display_name : String
  pub sign : ℕ
  pub pgp_scheme : ℕ
  pub draft_mime_type : String
  pub attach_pub_key : Bool

unfoldable pub new_mail_settings : String → MailSettings
new_mail_settings name = record {
  display_name = name;
  sign = 0;
  pgp_scheme = 0;
  draft_mime_type = "text/html";
  attach_pub_key = false;
}

pub record UserSettings : Type 0 where
  pub telemetry : ℕ
  pub crash_reports : ℕ

abbrev pub setting_disabled : ℕ
setting_disabled = 0

abbrev pub setting_enabled : ℕ
setting_enabled = 1

unfoldable pub new_user_settings : UserSettings
new_user_settings = record { telemetry = setting_enabled; crash_reports = setting_enabled }

-- The contacts that the backend stores; the fields that it never sets are left out.
pub record ContactEmail : Type 0 where
  pub id : String
  pub name : String
  pub email : String
  pub contact_id : String

pub record Contact : Type 0 where
  pub id : String
  pub name : String
  pub contact_emails : List ContactEmail
  pub cards : List Card

pub record Account : Type 0 where
  pub user_id : String
  pub username : String
  pub addresses : Assoc String Address
  pub mail_settings : MailSettings
  pub user_settings : UserSettings
  pub contacts : Assoc String Contact
  pub contact_counter : ℕ
  pub auth : Assoc String Auth
  pub keys : List Key
  pub salt : List ℕ
  pub verifier : List ℕ
  pub label_ids : List String
  pub message_ids : List String
  pub update_ids : List ℕ

-- `key_id` is the fresh id that the source draws for the first key.
unfoldable pub new_account : String → String → String → List ℕ → List ℕ → String → Account
unfolding new_mail_settings new_user_settings
new_account user_id username arm_key salt verifier key_id = record {
  user_id = user_id;
  username = username;
  addresses = [];
  mail_settings = new_mail_settings username;
  user_settings = new_user_settings;
  contacts = [];
  contact_counter = 0;
  auth = [];
  keys = record { key_id = key_id; key = arm_key; tok = ""; sig = "" } ∷ [];
  salt = salt;
  verifier = verifier;
  label_ids = [];
  message_ids = [];
  update_ids = [];
}

pub data LabelType : Type 0 where
  type_label type_contact_group type_folder type_system : LabelType

pub record Label : Type 0 where
  pub label_id : String
  pub parent_id : String
  pub name : String
  pub label_type : LabelType

pub record Attachment : Type 0 where
  pub attach_id : String
  pub att_data_id : String
  pub filename : String
  pub mime_type : String
  pub disposition : String
  pub content_id : String
  pub key_packets : List ℕ
  pub arm_sig : String

-- net/mail's Address.
pub record MailAddress : Type 0 where
  pub display : String
  pub address : String

pub data DraftAction : Type 0 where
  reply reply_all forward auto_response read_receipt : DraftAction

pub record Message : Type 0 where
  pub message_id : String
  pub external_id : String
  pub addr_id : String
  pub label_ids : List String
  pub att_ids : List String
  pub in_reply_to : String
  pub internal_parent_id : String
  pub sys_label : Option String
  pub subject : String
  pub sender : Option MailAddress
  pub to_list : List MailAddress
  pub cc_list : List MailAddress
  pub bcc_list : List MailAddress
  pub reply_tos : List MailAddress
  pub date : ℕ
  pub draft_action : DraftAction
  pub arm_body : List ℕ
  pub mime_type : String
  pub flags : ℕ
  pub unread : Bool
  pub starred : Bool

-- A nil list differs from an empty one: `none` is nil.
pub record DraftTemplate : Type 0 where
  pub subject : String
  pub sender : Option MailAddress
  pub to_list : Option (List MailAddress)
  pub cc_list : Option (List MailAddress)
  pub bcc_list : Option (List MailAddress)
  pub body : List ℕ
  pub mime_type : String
  pub unread : Bool
  pub external_id : String
