-- ===== src/Backend/Mailbox.antt =====
-- The message methods of server/backend/api.go: flags, labels, deletion, drafts and the list of ids.
-- A message is written through the pointer that the map of messages holds.
pub mod Pages
pub mod Effects
pub mod Deletion
use Prim.Native.String.{◌++◌ as str_append}
use go_proton_api.Base.{
  ℕ, ◌-◌, zero, suc, String, string_eq, nat_eq, Bool, true, false, not, ◌||◌, Option, none, some,
  List, [], ◌∷◌, ◌++◌, ◌==◌, if◌then◌else◌, length, filter, index_plus_one, ltb, min,
}
use go_proton_api.Base.Int.{ℤ, pos, negsuc, add_len}
use go_proton_api.Base.Assoc.{Assoc, lookup, insert, delete, adjust}
use go_proton_api.Backend.Types.{
  Account, Attachment, DraftAction, DraftTemplate, Message, MailAddress,
}
use go_proton_api.Backend.Updates.{message_created, message_updated, message_deleted}
use go_proton_api.Backend.Exec.{
  no_such_message, not_allowed, sender_required, address_required, bad_mime_type, fail_if, for_each,
  modify, or_fail, or_panic, pure, reads, skip, panic, ◌>>=◌, ◌>>◌,
}
use go_proton_api.Backend.Store.{Store, M, with_acc, with_acc_ret, get_acc, set_acc, post}
use go_proton_api.Backend.Labels.{all_drafts_label, all_mail_label, all_sent_label, drafts_label}
use go_proton_api.Backend.Message.{
  add_flag, add_label, apply_changes, flag_forwarded, new_message_from_template, rem_label,
  remove_flag,
}
use go_proton_api.Backend.Metadata.{MessageView, to_message}
use go_proton_api.Backend.Events.{slice}

-- A write through the pointer `messages[id]`, which panics if the map does not hold the id.
unfoldable pub edit_message : String → (Message → Message) → M Unit
unfolding ◌>>=◌
edit_message id f = do
  found ← reads (λ b. lookup id b.messages)
  or_panic found
  modify (λ b. record b { messages = adjust id f b.messages })

unfoldable pub set_messages_read : String → Bool → List String → M Unit
unfolding ◌>>=◌ edit_message
set_messages_read user_id read ids = with_acc user_id λ p.
    for_each ids λ id. do
      edit_message id (λ msg. record msg { unread = not read })
      post p (message_updated id)

abbrev pub set_forwarded : Bool → ℕ → ℕ
set_forwarded true flags = add_flag flags flag_forwarded
set_forwarded false flags = remove_flag flags flag_forwarded

unfoldable pub set_messages_forwarded : String → Bool → List String → M Unit
unfolding ◌>>=◌ edit_message
set_messages_forwarded user_id forwarded ids = with_acc user_id λ p. for_each ids λ id. do
  edit_message id (λ msg. record msg { flags = set_forwarded forwarded msg.flags })
  post p (message_updated id)

-- The labels that only the backend puts on a message.
abbrev pub is_computed_label : String → Bool
is_computed_label id = id == all_mail_label || id == all_drafts_label || id == all_sent_label

-- The body of the loop of `labelMessages` for a message that is there.
unfoldable pub label_message : String → String → Bool → String → Message → M Unit
unfolding ◌>>=◌
label_message p label_id do_events id msg = do
  labels ← reads (λ b. b.labels)
  labelled ← or_panic (add_label label_id labels msg)
  modify (λ b. record b { messages = adjust id (λ _. labelled) b.messages })
  if do_events then post p (message_updated id) else skip

unfoldable pub label_messages : String → String → Bool → List String → M Unit
unfolding ◌>>=◌ label_message
label_messages user_id label_id do_events ids = do
  fail_if (is_computed_label label_id) not_allowed
  with_acc user_id λ p. for_each ids λ id. do
    found ← reads (λ b. lookup id b.messages)
    elim found [ none ↦ skip | some msg ↦ label_message p label_id do_events id msg ]

unfoldable pub unlabel_messages : String → String → List String → M Unit
unfolding ◌>>=◌ edit_message
unlabel_messages user_id label_id ids = do
  fail_if (is_computed_label label_id) not_allowed
  with_acc user_id λ p. for_each ids λ id. do
    labels ← reads (λ b. b.labels)
    edit_message id (rem_label label_id labels)
    post p (message_updated id)

-- The attachments that share the bytes.
unfoldable pub count_sharing : String → Assoc String Attachment → ℕ
count_sharing data_id [] = 0
count_sharing data_id ((k, att) ∷ m) =
    let rest = count_sharing data_id m in if att.att_data_id == data_id then suc rest else rest

abbrev pub without_attachment : String → Attachment → Store → Store
without_attachment id att b = record b {
  attachments = delete id b.attachments;
  att_data =
      if count_sharing att.att_data_id b.attachments == 1
      then delete att.att_data_id b.att_data
      else b.att_data;
}

-- The body of the loop of `DeleteMessage`. The nil pointer of a missing attachment is followed only if
-- there is an attachment to compare it with.
unfoldable pub delete_attachment : String → M Unit
unfolding count_sharing ◌>>=◌
delete_attachment id = do
  atts ← reads (λ b. b.attachments)
  found ← reads (λ b. lookup id b.attachments)
  elim found [
    | none ↦ if length atts == 0 then skip else panic
    | some att ↦ modify (without_attachment id att)
  ]

unfoldable pub delete_message : String → String → M Unit
unfolding ◌>>=◌ delete_attachment
delete_message user_id id = with_acc user_id λ p. do
  found ← reads (λ b. lookup id b.messages)
  msg ← or_fail no_such_message found
  for_each msg.att_ids delete_attachment
  modify (λ b. record b { messages = delete id b.messages })
  post p (message_deleted id)
  set_acc p
      (λ acc. record acc { message_ids = filter (λ other. not (other == id)) acc.message_ids })

abbrev pub push_message_id : String → Account → Account
push_message_id id acc = record acc { message_ids = acc.message_ids ++ id ∷ [] }

-- The statements that store a new message of the account and report it.
unfoldable pub store_message : String → Message → M Unit
unfolding ◌>>=◌
store_message p msg = do
  modify (λ b. record b { messages = insert msg.message_id msg b.messages })
  post p (message_created msg.message_id)
  set_acc p (push_message_id msg.message_id)

-- The references of a reply: those of a parent that the map holds.
abbrev parent_refs : String → Option Message → String × String
parent_refs parent_id none = ("", "")
parent_refs parent_id (some parent) =
    (str_append "<" (str_append parent.external_id ">"), parent_id)

abbrev find_parent : String → Assoc String Message → Option Message
find_parent parent_id messages = if parent_id == "" then none else lookup parent_id messages

-- `new_id` is the fresh id of the draft.
unfoldable pub create_draft :
    String → String → DraftTemplate → String → DraftAction → String → M MessageView
unfolding ◌>>=◌ store_message
create_draft user_id addr_id draft parent_id action new_id = with_acc_ret user_id λ p. do
  messages ← reads (λ b. b.messages)
  let (ref, internal_id) = parent_refs parent_id (find_parent parent_id messages)
  let msg = new_message_from_template addr_id draft ref internal_id action new_id
  labels ← reads (λ b. b.labels)
  drafted ← or_panic (add_label drafts_label labels msg)
  store_message p drafted
  or_panic (to_message [] [] drafted)

abbrev pub sender_address : Option MailAddress → String
sender_address none = ""
sender_address (some a) = a.address

unfoldable pub update_draft : String → String → DraftTemplate → M MessageView
unfolding ◌>>=◌ edit_message
update_draft user_id draft_id changes = do
  or_fail sender_required changes.sender
  fail_if (sender_address changes.sender == "") address_required
  fail_if (not (changes.mime_type == "text/plain" || changes.mime_type == "text/html"))
      bad_mime_type
  with_acc_ret user_id λ p. do
    found ← reads (λ b. lookup draft_id b.messages)
    or_fail no_such_message found
    edit_message draft_id (λ msg. apply_changes msg changes)
    post p (message_updated draft_id)
    b ← reads (λ b. b)
    msg ← or_panic (lookup draft_id b.messages)
    or_panic (to_message b.att_data b.attachments msg)

-- `lo + limit`, in machine arithmetic.
abbrev plus_limit : ℕ → ℤ → ℤ
plus_limit lo (pos n) = add_len lo n
plus_limit lo (negsuc n) = if ltb n lo then pos (lo - suc n) else negsuc (n - lo)

abbrev at_most : ℕ → ℤ → ℤ
at_most len (pos n) = pos (min n len)
at_most len (negsuc n) = negsuc n

abbrev page_end : ℕ → ℕ → ℤ → ℤ
page_end len lo (pos zero) = pos len
page_end len lo (pos (suc n)) = at_most len (plus_limit lo (pos (suc n)))
page_end len lo (negsuc n) = at_most len (plus_limit lo (negsuc n))

-- The page of ids that follow `after_id`; `none` is the panic of the slice expression.
unfoldable pub message_page : List String → String → ℤ → Option (List String)
unfolding slice add_len
message_page [] after_id limit = some []
message_page (x ∷ xs) after_id limit =
    let all = x ∷ xs in
    let lo = if after_id == "" then 0 else index_plus_one all after_id in
    slice all lo (page_end (length all) lo limit)

unfoldable pub get_message_ids : String → String → ℤ → M (List String)
unfolding ◌>>=◌
get_message_ids user_id after_id limit =
    with_acc_ret user_id
      λ p. do acc ← get_acc p; or_panic (message_page acc.message_ids after_id limit)

unfoldable pub count_messages : String → M ℕ
unfolding ◌>>=◌
count_messages user_id = with_acc_ret user_id λ p. do acc ← get_acc p; pure (length acc.message_ids)

unfoldable pub get_message : String → String → M MessageView
unfolding ◌>>=◌
get_message user_id id = with_acc_ret user_id λ p. do
  b ← reads (λ b. b)
  msg ← or_fail no_such_message (lookup id b.messages)
  or_panic (to_message b.att_data b.attachments msg)
