-- ===== src/Backend/Metadata.antt =====
-- `toMetadata`, `toMessage` and `toUser` of server/backend: what the API shows of a message or user.
-- A nil pointer is `none`. Keys of a user, which third-party code reads, are left out.
use go_proton_api.Base.{
  ℕ, ◌+◌, String, string_eq, nat_eq, Bool, Option, none, some, List, [], ◌∷◌, ◌==◌, length,
  if◌then◌else◌,
}
use go_proton_api.Base.Assoc.{Assoc, lookup, option_map}
use go_proton_api.Backend.Types.{Account, Address, Attachment, Message, MailAddress}
use go_proton_api.Backend.Message.{
  has, flag_forwarded, flag_replied, flag_replied_all, shown_labels,
}

-- message_types.go's `MessageMetadata`.
pub record Metadata : Type 0 where
  pub id : String
  pub external_id : String
  pub address_id : String
  pub label_ids : List String
  pub subject : String
  pub sender : Option MailAddress
  pub to_list : List MailAddress
  pub cc_list : List MailAddress
  pub bcc_list : List MailAddress
  pub reply_tos : List MailAddress
  pub size : ℕ
  pub flags : ℕ
  pub unread : Bool
  pub is_forwarded : Bool
  pub is_replied : Bool
  pub is_replied_all : Bool
  pub num_attachments : ℕ

abbrev pub bytes_at : Assoc String (List ℕ) → String → ℕ
bytes_at att_data id = elim (lookup id att_data) [ none ↦ 0 | some bytes ↦ length bytes ]

-- The loop that adds the sizes of the attachments.
unfoldable pub attachments_size :
    Assoc String (List ℕ) → Assoc String Attachment → List String → Option ℕ
attachments_size att_data atts [] = some 0
attachments_size att_data atts (a ∷ ids) =
    let rest = attachments_size att_data atts ids in
    elim (lookup a atts) [
      | none ↦ none
      | some att ↦ option_map (◌+◌ (bytes_at att_data att.att_data_id)) rest
    ]

unfoldable pub to_metadata :
    Assoc String (List ℕ) → Assoc String Attachment → Message → Option Metadata
unfolding has shown_labels
to_metadata att_data atts msg = elim (attachments_size att_data atts msg.att_ids) [
  | none ↦ none
  | some bytes ↦ some (record {
    id = msg.message_id;
    external_id = msg.external_id;
    address_id = msg.addr_id;
    label_ids = shown_labels msg;
    subject = msg.subject;
    sender = msg.sender;
    to_list = msg.to_list;
    cc_list = msg.cc_list;
    bcc_list = msg.bcc_list;
    reply_tos = msg.reply_tos;
    size = length msg.arm_body + bytes;
    flags = msg.flags;
    unread = msg.unread;
    is_forwarded = has msg.flags flag_forwarded;
    is_replied = has msg.flags flag_replied;
    is_replied_all = has msg.flags flag_replied_all;
    num_attachments = length att_data;
  })
]

-- `primary`: the first address in the map whose order is 1.
unfoldable pub primary : Assoc String Address → Option Address
primary [] = none
primary ((k, addr) ∷ m) = if addr.order == 1 then some addr else primary m

pub record UserView : Type 0 where
  pub id : String
  pub name : String
  pub email : String

unfoldable pub to_user : Account → Option UserView
unfolding primary
to_user acc = elim (primary acc.addresses) [
  | none ↦ none
  | some addr ↦ some (record { id = acc.user_id; name = acc.username; email = addr.email })
]

-- `toMessage`, without the header text that net/mail prints and parses, and with the attachments as
-- they are stored.
pub record MessageView : Type 0 where
  pub metadata : Metadata
  pub body : List ℕ
  pub mime_type : String
  pub attachments : List Attachment

unfoldable pub attachments_of : Assoc String Attachment → List String → Option (List Attachment)
attachments_of atts [] = some []
attachments_of atts (id ∷ ids) =
    let rest = attachments_of atts ids in
    elim (lookup id atts) [ none ↦ none | some att ↦ option_map (◌∷◌ att) rest ]

unfoldable pub to_message :
    Assoc String (List ℕ) → Assoc String Attachment → Message → Option MessageView
to_message att_data atts msg = elim (to_metadata att_data atts msg) [
  | none ↦ none
  | some m ↦
      option_map
        (λ shown. record {
          metadata = m;
          body = msg.arm_body;
          mime_type = msg.mime_type;
          attachments = shown;
        })
        (attachments_of atts msg.att_ids)
]
