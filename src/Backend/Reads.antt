-- ===== src/Backend/Reads.antt =====
-- The methods of server/backend/api.go that only read, and those that only announce a change.
use go_proton_api.Base.{
  ℕ, suc, ◌+◌, ◌%◌, ◌^◌, String, string_eq, Bool, true, Option, none, some, List, [], ◌∷◌, ◌++◌,
  ◌==◌, map, length, filter, any, if◌then◌else◌,
}
use go_proton_api.Base.Assoc.{Assoc, lookup, insert, values}
use go_proton_api.Backend.Types.{Address, Key, LabelType, type_system, Message}
use go_proton_api.Backend.Exec.{
  crypto_failure, label_not_found, no_such_address, or_fail, or_panic, pure, reads, modify, ◌>>=◌,
}
use go_proton_api.Backend.Store.{Store, M, get_acc, with_acc, with_acc_ret, post}
use go_proton_api.Backend.Updates.{address_created, address_updated, label_created, message_created}
use go_proton_api.Backend.Labels.{
  LabelView, to_label, all_drafts_label, all_mail_label, all_scheduled_label, all_sent_label,
  archive_label, drafts_label, inbox_label, outbox_label, sent_label, spam_label, starred_label,
  trash_label,
}
use go_proton_api.Backend.Message.{get_label_ids}
use go_proton_api.Backend.Metadata.{UserView, to_user}
use go_proton_api.Backend.Delivery.{find_account}

-- The bytes of the attachments of a message that are there.
abbrev pub attachment_bytes : Store → List String → ℕ
attachment_bytes b [] = 0
attachment_bytes b (id ∷ ids) =
    let rest = attachment_bytes b ids in
    elim (lookup id b.attachments) [
      | none ↦ rest
      | some att ↦ elim (lookup att.att_data_id b.att_data) [
        | none ↦ rest
        | some bytes ↦ length bytes + rest
      ]
    ]

-- The body counts where the address is one of the account; the attachments count always.
abbrev pub message_bytes : Store → Assoc String Address → List Message → ℕ
message_bytes b addresses [] = 0
message_bytes b addresses (msg ∷ msgs) =
    (elim (lookup msg.addr_id addresses) [ none ↦ 0 | some addr ↦ length msg.arm_body ])
    + attachment_bytes b msg.att_ids
    + message_bytes b addresses msgs

unfoldable pub get_user : String → M (UserView × ℕ)
unfolding ◌>>=◌ to_user values
get_user user_id = with_acc_ret user_id λ p. do
  acc ← get_acc p
  user ← or_panic (to_user acc)
  b ← reads (λ b. b)
  pure (user, message_bytes b acc.addresses (values b.messages) % 2 ^ 64)

-- Each key with the salt of the account.
unfoldable pub get_key_salts : String → M (List (String × List ℕ))
unfolding ◌>>=◌
get_key_salts user_id =
    with_acc_ret user_id
      λ p. do acc ← get_acc p; pure (map (λ key. (key.key_id, acc.salt)) acc.keys)

unfoldable pub get_address : String → String → M Address
unfolding ◌>>=◌
get_address user_id addr_id =
    with_acc_ret user_id
      λ p. do acc ← get_acc p; or_fail no_such_address (lookup addr_id acc.addresses)

unfoldable pub get_addresses : String → M (List Address)
unfolding ◌>>=◌ values
get_addresses user_id = with_acc_ret user_id λ p. do acc ← get_acc p; pure (values acc.addresses)

-- `xslices.Map` over the label ids: a missing label is a nil pointer that is followed.
unfoldable pub label_views : List String → M (List LabelView)
unfolding ◌>>=◌ to_label
label_views [] = pure []
label_views (id ∷ ids) =
    let rest = label_views ids in
    do
      labels ← reads (λ b. b.labels)
      l ← or_panic (lookup id labels)
      view ← to_label (suc (length labels)) labels l
      views ← rest
      pure (view ∷ views)

abbrev system_view : String → String → LabelView
system_view name id = record {
  label = record { label_id = id; parent_id = ""; name = name; label_type = type_system };
  path = name ∷ [];
}

abbrev pub system_labels : List LabelView
system_labels =
    system_view "Inbox" inbox_label
    ∷ system_view "AllDrafts" all_drafts_label
    ∷ system_view "AllSent" all_sent_label
    ∷ system_view "Trash" trash_label
    ∷ system_view "Spam" spam_label
    ∷ system_view "All Mail" all_mail_label
    ∷ system_view "Archive" archive_label
    ∷ system_view "Sent" sent_label
    ∷ system_view "Drafts" drafts_label
    ∷ system_view "Outbox" outbox_label
    ∷ system_view "Starred" starred_label
    ∷ system_view "Scheduled" all_scheduled_label
    ∷ []

abbrev pub of_types :
    (LabelType → LabelType → Bool) → List LabelType → List LabelView → List LabelView
of_types same [] views = views
of_types same (t ∷ types) views = filter (λ v. any (same v.label.label_type) (t ∷ types)) views

-- `same` is the equality of label types.
unfoldable pub get_labels :
    (LabelType → LabelType → Bool) → String → List LabelType → M (List LabelView)
unfolding ◌>>=◌ label_views
get_labels same user_id types = with_acc_ret user_id λ p. do
  acc ← get_acc p
  views ← label_views acc.label_ids
  pure (of_types same types (views ++ system_labels))

abbrev pub first_view : (LabelView → Bool) → List LabelView → Option LabelView
first_view test [] = none
first_view test (v ∷ views) = if test v then some v else first_view test views

-- `none` is the result with the flag false.
unfoldable pub has_label : (LabelType → LabelType → Bool) → String → String → M (Option String)
unfolding ◌>>=◌ get_labels
has_label same user_id name = do
  views ← get_labels same user_id []
  pure (elim (first_view (λ v. v.label.name == name) views) [
    | none ↦ none
    | some v ↦ some v.label.label_id
  ])

unfoldable pub get_label : (LabelType → LabelType → Bool) → String → String → M LabelView
unfolding ◌>>=◌ get_labels
get_label same user_id label_id = do
  views ← get_labels same user_id []
  or_fail label_not_found (first_view (λ v. v.label.label_id == label_id) views)

abbrev pub all_or_none : {A B : Type 0} → (A → Option B) → List A → Option (List B)
all_or_none f [] = some []
all_or_none f (x ∷ xs) =
    let rest = all_or_none f xs in
    elim (f x) [ none ↦ none | some y ↦ elim rest [ none ↦ none | some ys ↦ some (y ∷ ys) ] ]

abbrev keys_of : String → List Address → List Key
keys_of email [] = []
keys_of email (a ∷ addrs) =
    let rest = keys_of email addrs in if a.email == email then a.keys ++ rest else rest

-- `public` is the armored public key of a key.
unfoldable pub get_public_keys : (Key → Option String) → String → M (List String)
unfolding ◌>>=◌ find_account values
get_public_keys public email = do
  p ← find_account email
  acc ← get_acc p
  or_fail crypto_failure (all_or_none public (keys_of email (values acc.addresses)))

-- The totals and the unread counts by label.
abbrev or_zero : Option (ℕ × ℕ) → ℕ × ℕ
or_zero none = (0, 0)
or_zero (some n) = n

abbrev pub count_label : Bool → String → Assoc String (ℕ × ℕ) → Assoc String (ℕ × ℕ)
count_label unread label stats =
    let old = or_zero (lookup label stats) in
    insert label (suc old.0, if unread then suc old.1 else old.1) stats

abbrev pub count_labels : Bool → List String → Assoc String (ℕ × ℕ) → Assoc String (ℕ × ℕ)
count_labels unread [] stats = stats
count_labels unread (label ∷ labels) stats =
    count_labels unread labels (count_label unread label stats)

unfoldable pub count_all : List Message → Assoc String (ℕ × ℕ) → Assoc String (ℕ × ℕ)
unfolding get_label_ids
count_all [] stats = stats
count_all (msg ∷ msgs) stats = count_all msgs (count_labels msg.unread (get_label_ids msg) stats)

unfoldable pub get_message_group_count : String → M (Assoc String (ℕ × ℕ))
unfolding ◌>>=◌ count_all values
get_message_group_count user_id =
    with_acc user_id λ p. do b ← reads (λ b. b); pure (count_all (values b.messages) [])

unfoldable pub add_address_created_update : String → String → M Unit
add_address_created_update user_id addr_id = with_acc user_id λ p. post p (address_created addr_id)

unfoldable pub add_address_updated_event : String → String → M Unit
add_address_updated_event user_id addr_id = with_acc user_id λ p. post p (address_updated addr_id)

unfoldable pub add_label_created_update : String → String → M Unit
add_label_created_update user_id label_id = with_acc user_id λ p. post p (label_created label_id)

unfoldable pub add_message_created_update : String → String → M Unit
add_message_created_update user_id message_id =
    with_acc user_id λ p. post p (message_created message_id)

unfoldable pub get_feature_flags : M (List (String × Bool))
get_feature_flags = reads (λ b. b.feature_flags)

unfoldable pub push_feature_flag : String → M Unit
push_feature_flag name =
    modify (λ b. record b { feature_flags = b.feature_flags ++ (name, true) ∷ [] })

unfoldable pub delete_feature_flags : M Unit
delete_feature_flags = modify (λ b. record b { feature_flags = [] })
