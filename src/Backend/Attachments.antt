-- ===== src/Backend/Attachments.antt =====
-- The attachments of server/backend: `sortAttachment`, `CreateAttachment` and `GetAttachment` of
-- api.go, with the constructors of attachment.go. Fresh ids are arguments.
pub mod Sorting
pub mod Sharing
pub mod Creating
use Prim.Native.Nat.{Ordering}
use Prim.Native.String.{compare}
use go_proton_api.Base.{
  ℕ, String, string_eq, Bool, true, false, not, ◌&&◌, ◌||◌, Option, none, some, List, [], ◌∷◌, ◌++◌,
  ◌==◌, if◌then◌else◌, map,
}
use go_proton_api.Base.Assoc.{Assoc, insert, lookup}
use go_proton_api.Backend.Types.{Attachment, Message}
use go_proton_api.Backend.Updates.{message_updated}
use go_proton_api.Backend.Exec.{
  bad_disposition, needs_content_id, no_such_attachment, fail_if, modify, or_fail, or_panic, pure,
  reads, ◌>>=◌, ◌>>◌,
}
use go_proton_api.Backend.Store.{Store, M, post, with_acc_ret}
use go_proton_api.Backend.Mailbox.{edit_message}

-- Go's `<=` on strings.
abbrev pub str_leb : String → String → Bool
str_leb a b = elim (compare a b) [ Ordering.gt ↦ false | _ ↦ true ]

-- `sort.Strings`, on the keys of a map.
unfoldable pub insert_sorted : String → List String → List String
insert_sorted x [] = x ∷ []
insert_sorted x (y ∷ ys) =
    let rest = insert_sorted x ys in if str_leb x y then x ∷ y ∷ ys else y ∷ rest

unfoldable pub sort_strings : List String → List String
unfolding insert_sorted
sort_strings [] = []
sort_strings (x ∷ xs) = insert_sorted x (sort_strings xs)

-- The key under which `sortAttachment` files an attachment with a content id, and one without.
abbrev pub by_content : Attachment → Option String
by_content att = if att.content_id == "" then none else some att.content_id

abbrev pub by_name : Attachment → Option String
by_name att = if att.content_id == "" then some att.filename else none

-- A loop that fills the map from keys to attachment ids; `none` is the nil pointer of a missing
-- attachment.
unfoldable pub file_by :
    (Attachment → Option String)
    → Assoc String Attachment
    → List String
    → Assoc String String
    → Option (Assoc String String)
file_by key atts [] filed = some filed
file_by key atts (id ∷ ids) filed = elim (lookup id atts) [
  | none ↦ none
  | some att ↦ elim (key att) [
    | none ↦ file_by key atts ids filed
    | some k ↦ file_by key atts ids (insert k id filed)
  ]
]

abbrev id_or_empty : Option String → String
id_or_empty none = ""
id_or_empty (some id) = id

-- The ids of a map in the order of their keys.
unfoldable pub in_order : Assoc String String → List String
unfolding sort_strings
in_order filed =
    map (λ k. id_or_empty (lookup k filed)) (sort_strings (map (λ entry. entry.0) filed))

unfoldable pub sort_attachments : Assoc String Attachment → List String → Option (List String)
unfolding file_by in_order
sort_attachments atts ids = elim (file_by by_content atts ids []) [
  | none ↦ none
  | some contents ↦ elim (file_by by_name atts ids []) [
    | none ↦ none
    | some names ↦ some (in_order contents ++ in_order names)
  ]
]

abbrev pub inline : String
inline = "inline"

abbrev pub attached : String
attached = "attachment"

-- `createAttData`.
unfoldable pub create_att_data : String → List ℕ → M Unit
unfolding ◌>>=◌
create_att_data data_id bytes = modify λ b. record b { att_data = insert data_id bytes b.att_data }

-- The statements that give the message a new attachment and sort its list.
unfoldable pub attach_to : String → String → M Unit
unfolding ◌>>=◌ edit_message
attach_to message_id attach_id = do
  edit_message message_id (λ msg. record msg { att_ids = msg.att_ids ++ attach_id ∷ [] })
  b ← reads (λ b. b)
  msg ← or_panic (lookup message_id b.messages)
  sorted ← or_panic (sort_attachments b.attachments msg.att_ids)
  edit_message message_id (λ msg. record msg { att_ids = sorted })

-- `att` is the result of `newAttachment`, with its fresh id and that of its bytes. It is returned as it
-- is stored: the wire form, which encodes the key packets in base64, is left out.
unfoldable pub create_attachment : String → String → Attachment → List ℕ → M Attachment
unfolding ◌>>=◌ create_att_data attach_to
create_attachment user_id message_id att bytes = do
  fail_if (not (att.disposition == inline || att.disposition == attached)) bad_disposition
  fail_if (att.disposition == inline && att.content_id == "") needs_content_id
  with_acc_ret user_id λ p. do
    create_att_data att.att_data_id bytes
    modify (λ b. record b { attachments = insert att.attach_id att b.attachments })
    attach_to message_id att.attach_id
    post p (message_updated message_id)
    pure att

abbrev bytes_or_nil : Option (List ℕ) → List ℕ
bytes_or_nil none = []
bytes_or_nil (some bytes) = bytes

unfoldable pub get_attachment : String → M (List ℕ)
unfolding ◌>>=◌
get_attachment id = do
  b ← reads (λ b. b)
  att ← or_fail no_such_attachment (lookup id b.attachments)
  pure (bytes_or_nil (lookup att.att_data_id b.att_data))
