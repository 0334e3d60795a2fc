-- ===== src/Backend/Delivery.antt =====
-- How messages come into a mailbox: `CreateMessage` of backend.go and `SendMessage` of api.go.
-- Texts in base64 stand decoded, `none` where the decoding fails. Fresh ids are arguments.
pub mod Duplicates
use go_proton_api.Base.{
  ℕ, zero, suc, ◌+◌, String, string_eq, Bool, true, false, not, ◌&&◌, ◌||◌, Option, none, some,
  List, [], ◌∷◌, ◌++◌, ◌==◌, if◌then◌else◌, any,
}
use go_proton_api.Base.Assoc.{Assoc, adjust, find_key, insert, lookup}
use go_proton_api.Backend.Types.{
  Account, Address, Attachment, DraftAction, MailAddress, Message, reply, reply_all, forward,
}
use go_proton_api.Backend.Updates.{message_created, message_updated}
use go_proton_api.Backend.Exec.{
  account_not_found, crypto_failure, decode_failure, no_such_address, for_each, modify, or_fail,
  or_panic, panic, pure, reads, skip, ◌>>=◌, ◌>>◌,
}
use go_proton_api.Backend.Store.{Store, M, get_acc, post, set_acc, with_acc_ret}
use go_proton_api.Backend.Labels.{inbox_label, sent_label}
use go_proton_api.Backend.Message.{
  add_flag, add_label, flag_forwarded, flag_received, flag_replied, flag_replied_all, flag_sent,
}
use go_proton_api.Backend.Metadata.{MessageView, to_message}
use go_proton_api.Backend.Mailbox.{edit_message, push_message_id, store_message}
use go_proton_api.Backend.Attachments.{sort_attachments}

-- `addrListEqual`: the addresses are compared, the names are not.
unfoldable pub same_list : List MailAddress → List MailAddress → Bool
same_list [] [] = true
same_list [] (b ∷ bs) = false
same_list (a ∷ as') [] = false
same_list (a ∷ as') (b ∷ bs) = a.address == b.address && same_list as' bs

-- The comparison of `CreateMessage`, which follows both pointers to the sender; `none` is a nil one.
unfoldable pub is_duplicate : Message → Message → Option Bool
unfolding same_list
is_duplicate msg m = elim m.sender [
  | none ↦ none
  | some from ↦ elim msg.sender [
    | none ↦ none
    | some from' ↦ some (
        from.address == from'.address
        && same_list m.to_list msg.to_list
        && same_list m.bcc_list msg.bcc_list
        && same_list m.cc_list msg.cc_list
        && m.subject == msg.subject)
  ]
]

-- The range over the messages: the id of the first duplicate, if there is one. Go ranges over a map in
-- an order of its own at each call: the list stands for the order of one range, and what holds of
-- every range is stated for every order of the messages.
unfoldable pub find_duplicate : Message → Assoc String Message → Option (Option String)
unfolding is_duplicate
find_duplicate msg [] = some none
find_duplicate msg ((k, m) ∷ ms) =
    let rest = find_duplicate msg ms in
    if not (m.addr_id == msg.addr_id) then rest else elim (is_duplicate msg m) [
      | none ↦ none
      | some same ↦ if same then some (some m.message_id) else rest
    ]

-- The message is stored unless a duplicate was found; either way its id is returned.
unfoldable pub store_unless : String → Message → Option String → M String
unfolding ◌>>=◌ store_message
store_unless p msg none = do store_message p msg; pure msg.message_id
store_unless p msg (some id) = pure id

-- `msg` is the result of `newMessage` with its flags set, under a fresh id.
unfoldable pub create_message : String → Message → M String
unfolding ◌>>=◌ find_duplicate store_unless
create_message user_id msg = with_acc_ret user_id λ p. do
  b ← reads (λ b. b)
  found ← or_panic (if b.enable_dedup then find_duplicate msg b.messages else some none)
  store_unless p msg found

unfoldable pub new_message_from_sent : String → List ℕ → Message → String → ℕ → Message
new_message_from_sent addr_id body msg id date = record {
  message_id = id;
  external_id = msg.external_id;
  addr_id = addr_id;
  label_ids = [];
  att_ids = [];
  in_reply_to = msg.in_reply_to;
  internal_parent_id = "";
  sys_label = some "";
  subject = msg.subject;
  sender = msg.sender;
  to_list = msg.to_list;
  cc_list = msg.cc_list;
  bcc_list = [];
  reply_tos = msg.reply_tos;
  date = date;
  draft_action = reply;
  arm_body = body;
  mime_type = msg.mime_type;
  flags = 0;
  unread = false;
  starred = false;
}

-- One entry of `pkg.Addresses`, with the fresh ids of the message and of the attachments, by position,
-- that the recipient gets.
pub record Recipient : Type 0 where
  pub email : String
  pub internal : Bool
  pub body_key : Option (List ℕ)
  pub attachment_key : String → Option (List ℕ)
  pub new_id : String
  pub new_attachment : ℕ → String

pub record Package : Type 0 where
  pub body : Option (List ℕ)
  pub recipients : List Recipient

-- `getAddr`.
unfoldable pub get_addr : String → Assoc String Address → Option Address
get_addr email [] = none
get_addr email ((k, a) ∷ m) =
    let rest = get_addr email m in if a.email == email then some a else rest

abbrev has_email : String → Account → Bool
has_email email acc = any (λ entry. entry.1.email == email) acc.addresses

-- `withAccEmail`, up to the call of its argument.
unfoldable pub find_account : String → M String
unfolding ◌>>=◌ any
find_account email = do
  b ← reads (λ b. b)
  or_fail account_not_found (find_key (has_email email) b.accounts)

unfoldable pub get_address_id : String → M String
unfolding ◌>>=◌ find_account get_addr
get_address_id email = do
  q ← find_account email
  acc ← get_acc q
  addr ← or_fail no_such_address (get_addr email acc.addresses)
  pure addr.addr_id

-- The copy of one attachment for the recipient; `i` is its position.
unfoldable pub copy_attachment : Recipient → ℕ → String → M Unit
unfolding ◌>>=◌ edit_message
copy_attachment r i id = do
  key ← or_fail decode_failure (r.attachment_key id)
  b ← reads (λ b. b)
  att ← or_panic (lookup id b.attachments)
  let new_id = r.new_attachment i
  let copy : Attachment = record att { attach_id = new_id; key_packets = key }
  modify (λ b. record b { attachments = insert new_id copy b.attachments })
  edit_message r.new_id (λ msg. record msg { att_ids = msg.att_ids ++ new_id ∷ [] })

unfoldable pub copy_attachments : Recipient → ℕ → List String → M Unit
unfolding ◌>>=◌ copy_attachment
copy_attachments r i [] = skip
copy_attachments r i (id ∷ ids) =
    let rest = copy_attachments r (suc i) ids in copy_attachment r i id >>= λ _. rest

unfoldable pub sort_message : String → M Unit
unfolding ◌>>=◌ edit_message
sort_message id = do
  b ← reads (λ b. b)
  msg ← or_panic (lookup id b.messages)
  sorted ← or_panic (sort_attachments b.attachments msg.att_ids)
  edit_message id (λ msg. record msg { att_ids = sorted })

abbrev received : Message → Message
received msg = record msg { flags = add_flag msg.flags flag_received }

-- `armor` is `GetArmored` of gopenpgp on the key packet and the body, `none` its error.
module _ (armor : List ℕ → List ℕ → Option (List ℕ)) (now : ℕ) where
  unfoldable pub deliver_to : String → List ℕ → Recipient → M Unit
  unfolding ◌>>=◌ find_account get_address_id copy_attachments sort_message
  deliver_to message_id body r = if not r.internal then skip else do
    q ← find_account r.email
    key ← or_fail decode_failure r.body_key
    arm_body ← or_fail crypto_failure (armor key body)
    addr_id ← get_address_id r.email
    b ← reads (λ b. b)
    msg ← or_panic (lookup message_id b.messages)
    let copy = received (new_message_from_sent addr_id arm_body msg r.new_id now)
    labelled ← or_panic (add_label inbox_label b.labels copy)
    modify (λ b. record b {
      messages = insert r.new_id (record labelled { unread = true }) b.messages;
    })
    copy_attachments r 0 msg.att_ids
    sort_message r.new_id
    sort_message message_id
    post q (message_created r.new_id)
    set_acc q (push_message_id r.new_id)

  unfoldable pub deliver_package : String → Package → M Unit
  unfolding ◌>>=◌ deliver_to
  deliver_package message_id pkg = do
    body ← or_fail decode_failure pkg.body
    for_each pkg.recipients (deliver_to message_id body)

  abbrev answered : DraftAction → ℕ → ℕ
  answered reply flags = add_flag flags flag_replied
  answered reply_all flags = add_flag flags flag_replied_all
  answered forward flags = add_flag flags flag_forwarded
  answered _ flags = flags

  -- The parent of a reply is marked as answered, if it is there.
  unfoldable pub mark_parent : String → Message → Option Message → M Unit
  unfolding ◌>>=◌ edit_message
  mark_parent p msg none = skip
  mark_parent p msg (some parent) = do
    edit_message msg.internal_parent_id
        (λ m. record m { flags = answered msg.draft_action m.flags })
    post p (message_updated msg.internal_parent_id)

  unfoldable pub send_message : String → String → List Package → M MessageView
  unfolding ◌>>=◌ edit_message mark_parent deliver_package
  send_message user_id message_id packages = with_acc_ret user_id λ p. do
    edit_message message_id (λ m. record m { flags = add_flag m.flags flag_sent })
    b ← reads (λ b. b)
    msg ← or_panic (lookup message_id b.messages)
    sent ← or_panic (add_label sent_label b.labels msg)
    edit_message message_id (λ _. sent)
    parent ← reads (λ b. lookup sent.internal_parent_id b.messages)
    mark_parent p sent parent
    post p (message_updated message_id)
    for_each packages (deliver_package message_id)
    after ← reads (λ b. b)
    final ← or_panic (lookup message_id after.messages)
    or_panic (to_message after.att_data after.attachments final)
