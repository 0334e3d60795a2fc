-- ===== src/Backend/Message.antt =====
-- server/backend/message.go: the labels and flags of a message. message_types.go has the flags, as
-- bits of a word.
pub mod Places
pub mod Shown
use go_proton_api.Base.{
  ℕ, ◌-◌, String, string_eq, nat_eq, Bool, true, false, not, ◌||◌, Option, none, some, List, [],
  ◌∷◌, ◌++◌, if◌then◌else◌, ◌==◌, filter, contains, any, bit_and, bit_or,
}
use go_proton_api.Base.Assoc.{lookup}
use go_proton_api.Backend.Types.{
  Message, Label, LabelType, type_label, DraftTemplate, MailAddress, DraftAction, reply,
}
use go_proton_api.Backend.Labels.{
  Labels, inbox_label, all_drafts_label, all_sent_label, trash_label, spam_label, all_mail_label,
  archive_label, sent_label, drafts_label, starred_label, all_scheduled_label,
}

abbrev pub flag_received : ℕ
flag_received = 1

abbrev pub flag_sent : ℕ
flag_sent = 2

abbrev pub flag_replied : ℕ
flag_replied = 32

abbrev pub flag_replied_all : ℕ
flag_replied_all = 64

abbrev pub flag_forwarded : ℕ
flag_forwarded = 128

abbrev pub flag_scheduled_send : ℕ
flag_scheduled_send = 1_048_576

-- `MessageFlag.Has`.
unfoldable pub has : ℕ → ℕ → Bool
has f flag = not (bit_and f flag == 0)

-- `MessageFlag.HasAny`.
unfoldable pub has_any : ℕ → List ℕ → Bool
unfolding has any
has_any f flags = any (has f) flags

-- `MessageFlag.Add`, and `flags |= flag`.
unfoldable pub add_flag : ℕ → ℕ → ℕ
add_flag f flag = bit_or f flag

-- `MessageFlag.Remove`, `f &^ flag`.
unfoldable pub remove_flag : ℕ → ℕ → ℕ
remove_flag f flag = f - bit_and f flag

unfoldable pub toggle_flag : ℕ → ℕ → ℕ
unfolding has add_flag remove_flag
toggle_flag f flag = if has f flag then remove_flag f flag else add_flag f flag

unfoldable pub new_message :
    String
    → String
    → Option MailAddress
    → List MailAddress
    → List MailAddress
    → List MailAddress
    → List MailAddress
    → List ℕ
    → String
    → String
    → ℕ
    → String
    → Message
new_message addr_id subject sender to_list cc_list bcc_list reply_tos body mime external_id date
      id =
    record {
      message_id = id;
      external_id = external_id;
      addr_id = addr_id;
      label_ids = [];
      att_ids = [];
      in_reply_to = "";
      internal_parent_id = "";
      sys_label = some "";
      subject = subject;
      sender = sender;
      to_list = to_list;
      cc_list = cc_list;
      bcc_list = bcc_list;
      reply_tos = reply_tos;
      date = date;
      draft_action = reply;
      arm_body = body;
      mime_type = mime;
      flags = 0;
      unread = false;
      starred = false;
    }

abbrev list_or_nil {ℓ} : {A : Type ℓ} → Option (List A) → List A
list_or_nil none = []
list_or_nil (some xs) = xs

unfoldable pub new_message_from_template :
    String → DraftTemplate → String → String → DraftAction → String → Message
new_message_from_template addr_id template parent_ref internal_parent_id action id = record {
  message_id = id;
  external_id = template.external_id;
  addr_id = addr_id;
  label_ids = [];
  att_ids = [];
  in_reply_to = parent_ref;
  internal_parent_id = internal_parent_id;
  sys_label = some "";
  subject = template.subject;
  sender = template.sender;
  to_list = list_or_nil template.to_list;
  cc_list = list_or_nil template.cc_list;
  bcc_list = list_or_nil template.bcc_list;
  reply_tos = [];
  date = 0;
  draft_action = action;
  arm_body = template.body;
  mime_type = template.mime_type;
  flags = 0;
  unread = template.unread;
  starred = false;
}

-- The label that the flags stand for, where the message has no system label of its own.
unfoldable pub flag_label : ℕ → String
unfolding has
flag_label flags =
    if has flags flag_received
    then inbox_label
    else if has flags flag_sent
    then sent_label
    else if has flags flag_scheduled_send
    then all_scheduled_label
    else drafts_label

-- `append`, under a test.
abbrev pub when {ℓ} : {A : Type ℓ} → Bool → A → List A
when true a = a ∷ []
when false a = []

abbrev pub system_place : Option String → ℕ → List String
system_place none flags = flag_label flags ∷ []
system_place (some l) flags = when (not (l == "")) l

abbrev pub mail_parts : ℕ → List String
mail_parts flags =
    (all_mail_label ∷ [])
    ++ (when (has_any flags (flag_sent ∷ flag_scheduled_send ∷ [])) all_sent_label
        ++ when (not (has_any flags (flag_sent ∷ flag_scheduled_send ∷ flag_received ∷ [])))
            all_drafts_label)

unfoldable pub get_label_ids : Message → List String
unfolding has_any flag_label
get_label_ids msg =
    mail_parts msg.flags ++ (when msg.starred starred_label ++ system_place msg.sys_label msg.flags)

-- The field `LabelIDs` that `toMetadata` returns.
unfoldable pub shown_labels : Message → List String
unfolding get_label_ids
shown_labels msg = msg.label_ids ++ get_label_ids msg

-- `applyChanges`: the fields of the template that are set replace those of the message.
abbrev unless_nil {ℓ} : {A : Type ℓ} → Option A → A → A
unless_nil none old = old
unless_nil (some new) old = new

abbrev unless_empty : String → String → String
unless_empty new old = if new == "" then old else new

abbrev unless_no_bytes : List ℕ → List ℕ → List ℕ
unless_no_bytes [] old = old
unless_no_bytes (x ∷ xs) old = x ∷ xs

unfoldable pub apply_changes : Message → DraftTemplate → Message
apply_changes msg changes = record msg {
  subject = unless_empty changes.subject msg.subject;
  sender = elim changes.sender [ none ↦ msg.sender | some s ↦ some s ];
  to_list = unless_nil changes.to_list msg.to_list;
  cc_list = unless_nil changes.cc_list msg.cc_list;
  bcc_list = unless_nil changes.bcc_list msg.bcc_list;
  arm_body = unless_no_bytes changes.body msg.arm_body;
  mime_type = unless_empty changes.mime_type msg.mime_type;
  external_id = unless_empty changes.external_id msg.external_id;
}

abbrev pub is_label : LabelType → Bool
is_label type_label = true
is_label _ = false

-- The filter that keeps the labels and drops the folders. `none` is the nil pointer of an id that
-- is not in the map.
unfoldable pub keep_labels : Labels → List String → Option (List String)
keep_labels labels [] = some []
keep_labels labels (id ∷ ids) =
    let rest = keep_labels labels ids in
    elim (lookup id labels) [
      | none ↦ none
      | some l ↦ elim rest [
        | none ↦ none
        | some kept ↦ some (if is_label l.label_type then id ∷ kept else kept)
      ]
    ]

-- The common part of `addFlagLabel`, `addSystemLabel` and of `addUserLabel` for a folder.
unfoldable pub move_to : Labels → Option String → Message → Option Message
move_to labels place msg = elim (keep_labels labels msg.label_ids) [
  | none ↦ none
  | some kept ↦ some (record msg { label_ids = kept; sys_label = place })
]

abbrev append_label : Label → Message → Message
append_label l msg =
    if contains msg.label_ids l.label_id
    then msg
    else record msg { label_ids = msg.label_ids ++ l.label_id ∷ [] }

unfoldable pub add_user_label : Label → Labels → Message → Option Message
unfolding move_to contains
add_user_label l labels msg =
    if is_label l.label_type
    then some (append_label l msg)
    else elim (move_to labels (some "") msg) [
      | none ↦ none
      | some moved ↦ some (append_label l moved)
    ]

abbrev pub is_flag_label : String → Bool
is_flag_label id =
    id == inbox_label || id == sent_label || id == drafts_label || id == all_scheduled_label

abbrev pub is_system_label : String → Bool
is_system_label id = id == trash_label || id == spam_label || id == archive_label

unfoldable pub add_label : String → Labels → Message → Option Message
add_label id labels msg =
    if is_flag_label id
    then move_to labels none msg
    else if is_system_label id
    then move_to labels (some id) msg
    else if id == starred_label
    then some (record msg { starred = true })
    else elim (lookup id labels) [ none ↦ some msg | some l ↦ add_user_label l labels msg ]

unfoldable pub rem_flag_label : Message → Message
rem_flag_label msg = elim msg.sys_label [ none ↦ record msg { sys_label = some "" } | some s ↦ msg ]

unfoldable pub rem_system_label : String → Message → Message
rem_system_label id msg = elim msg.sys_label [
  | none ↦ msg
  | some s ↦ if s == id then record msg { sys_label = some "" } else msg
]

unfoldable pub rem_user_label : Label → Message → Message
unfolding filter
rem_user_label l msg = record msg {
  label_ids = filter (λ other. not (other == l.label_id)) msg.label_ids;
}

unfoldable pub rem_label : String → Labels → Message → Message
rem_label id labels msg =
    if is_flag_label id
    then rem_flag_label msg
    else if is_system_label id
    then rem_system_label id msg
    else if id == starred_label
    then record msg { starred = false }
    else elim (lookup id labels) [ none ↦ msg | some l ↦ rem_user_label l msg ]
