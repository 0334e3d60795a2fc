-- ===== src/Backend/Operations/Streams.antt =====
-- The operations and the event streams: what holds of the streams is kept by every operation.
use go_proton_api.Base.{◌==◌, nat_eq, length, ℕ, String, string_eq, Bool, List, [], ◌∷◌, ◌≡◌, refl}
use go_proton_api.Base.Assoc.{Assoc, lookup, insert}
use go_proton_api.Backend.Types.{
  Account, Attachment, DraftAction, DraftTemplate, Label, LabelType, Message,
}
use go_proton_api.Backend.Exec.{modify}
use go_proton_api.Backend.Store.{Store, post, set_acc}
use go_proton_api.Backend.Store.Keeps.{
  Keeps, Keeps-bind, Keeps-modify, Keeps-option, keeps_rules, Keeps-reads, Keeps-fail_if,
  Keeps-with_acc, Keeps-for_each, Keeps-skip, Keeps-if, Keeps-panic,
}
use go_proton_api.Backend.Updates.{Update}
use go_proton_api.Backend.Labels.{
  Labels, check_parent, create_label, delete_label, delete_one_label, to_label, update_label,
  write_label,
}
use go_proton_api.Backend.Mailbox.{
  create_draft, delete_attachment, delete_message, without_attachment, edit_message, label_message,
  label_messages, set_messages_forwarded, set_messages_read, store_message, unlabel_messages,
  update_draft,
}

-- The streams of the accounts.
abbrev pub streams_of : Assoc String Account → Assoc String (List ℕ)
streams_of [] = []
streams_of ((k, acc) ∷ m) = (k, acc.update_ids) ∷ streams_of m

-- A property of the accounts' streams and of the updates: the other maps, and the other fields of an
-- account, do not count, and an update may be posted.
pub record IsStreamInvariant (P : Store → Type 0) : Type 1 where
  pub frame : (b b' : Store) → b'.accounts ≡ b.accounts → b'.updates ≡ b.updates → P b → P b'
  pub same_streams :
      (b : Store) (m : Assoc String Account)
      → streams_of m ≡ streams_of b.accounts
      → P b
      → P (record b { accounts = m })
  pub edits :
      (p : String) (f : Account → Account)
      → ((acc : Account) → (f acc).update_ids ≡ acc.update_ids)
      → Keeps P (set_acc p f)
  pub posts : (p : String) (e : Update) → Keeps P (post p e)

module _ {P : Store → Type 0} (inv : IsStreamInvariant P) where
  post_keeps : (p : String) (e : Update) → Keeps P (post p e)
  post_keeps p e = inv.posts p e

  -- Writes to the maps other than those of accounts and updates.
  messages_keeps :
      (f : Store → Assoc String Message) → Keeps P (modify λ b. record b { messages = f b })
  messages_keeps f = Keeps-modify _ (λ b h. inv.frame b _ refl refl h)

  labels_keeps : (f : Store → Assoc String Label) → Keeps P (modify λ b. record b { labels = f b })
  labels_keeps f = Keeps-modify _ (λ b h. inv.frame b _ refl refl h)

  without_attachment_keeps :
      (id : String) (att : Attachment) → Keeps P (modify (without_attachment id att))
  without_attachment_keeps id att = Keeps-modify _ (λ b h. inv.frame b _ refl refl h)

  -- Writes to an account that leave its stream alone.
  message_ids_keeps :
      (p : String) (f : Account → List String)
      → Keeps P (set_acc p (λ acc. record acc { message_ids = f acc }))
  message_ids_keeps p f = inv.edits p _ (λ acc. refl)

  label_ids_keeps :
      (p : String) (f : Account → List String)
      → Keeps P (set_acc p (λ acc. record acc { label_ids = f acc }))
  label_ids_keeps p f = inv.edits p _ (λ acc. refl)

  ruleset order_rules = (
    keeps_rules, Keeps-option, post_keeps, messages_keeps, labels_keeps, without_attachment_keeps,
    message_ids_keeps, label_ids_keeps,
  )

  pub edit_message_keeps : (id : String) (f : Message → Message) → Keeps P (edit_message id f)
  unfolding edit_message
  edit_message_keeps id f = search order_rules depth 16

  pub set_messages_read_keeps :
      (user_id : String) (read : Bool) (ids : List String)
      → Keeps P (set_messages_read user_id read ids)
  unfolding set_messages_read
  set_messages_read_keeps user_id read ids = search (order_rules, edit_message_keeps) depth 16

  pub set_messages_forwarded_keeps :
      (user_id : String) (on : Bool) (ids : List String)
      → Keeps P (set_messages_forwarded user_id on ids)
  unfolding set_messages_forwarded
  set_messages_forwarded_keeps user_id on ids = search (order_rules, edit_message_keeps) depth 16

  pub label_message_keeps :
      (p label_id : String) (do_events : Bool) (id : String) (msg : Message)
      → Keeps P (label_message p label_id do_events id msg)
  unfolding label_message
  label_message_keeps p label_id do_events id msg = search order_rules depth 16

  pub label_messages_keeps :
      (user_id label_id : String) (do_events : Bool) (ids : List String)
      → Keeps P (label_messages user_id label_id do_events ids)
  unfolding label_messages
  label_messages_keeps user_id label_id do_events ids = Keeps-bind _ _ (Keeps-fail_if _ _) λ _.
      Keeps-with_acc _ _ λ p. Keeps-for_each _ _ λ id. Keeps-bind _ _ (Keeps-reads _) λ found.
        Keeps-option found _ _ Keeps-skip (λ msg. label_message_keeps p label_id do_events id msg)

  pub unlabel_messages_keeps :
      (user_id label_id : String) (ids : List String)
      → Keeps P (unlabel_messages user_id label_id ids)
  unfolding unlabel_messages
  unlabel_messages_keeps user_id label_id ids = search (order_rules, edit_message_keeps) depth 16

  pub delete_attachment_keeps : (id : String) → Keeps P (delete_attachment id)
  unfolding delete_attachment
  delete_attachment_keeps id = Keeps-bind _ _ (Keeps-reads (λ b. b.attachments)) λ atts.
      Keeps-bind _ _ (Keeps-reads (λ b. lookup id b.attachments)) λ found.
        Keeps-option found _ _ (Keeps-if (length atts == 0) _ _ Keeps-skip Keeps-panic)
          (λ att. without_attachment_keeps id att)

  pub delete_message_keeps : (user_id id : String) → Keeps P (delete_message user_id id)
  unfolding delete_message
  delete_message_keeps user_id id = search (order_rules, delete_attachment_keeps) depth 16

  pub store_message_keeps : (p : String) (msg : Message) → Keeps P (store_message p msg)
  unfolding store_message
  store_message_keeps p msg = search order_rules depth 16

  pub create_draft_keeps :
      (user_id addr_id : String) (draft : DraftTemplate) (parent_id : String) (action : DraftAction)
      (id : String)
      → Keeps P (create_draft user_id addr_id draft parent_id action id)
  unfolding create_draft
  create_draft_keeps user_id addr_id draft parent_id action id =
      search (order_rules, store_message_keeps) depth 16

  pub update_draft_keeps :
      (user_id id : String) (changes : DraftTemplate) → Keeps P (update_draft user_id id changes)
  unfolding update_draft
  update_draft_keeps user_id id changes = search (order_rules, edit_message_keeps) depth 16

  write_label_keeps : (id : String) (l : Label) → Keeps P (write_label id l)
  unfolding write_label
  write_label_keeps id l = labels_keeps (λ b. insert id l b.labels)

  check_parent_keeps : (id : String) (folder : Bool) → Keeps P (check_parent id folder)
  unfolding check_parent
  check_parent_keeps id folder = search keeps_rules depth 16

  to_label_keeps : (fuel : ℕ) (labels : Labels) (l : Label) → Keeps P (to_label fuel labels l)
  unfolding to_label
  to_label_keeps fuel labels l = search keeps_rules depth 16

  ruleset label_rules = (order_rules, write_label_keeps, check_parent_keeps, to_label_keeps)

  pub create_label_keeps :
      (fuel : ℕ) (user_id name parent_id : String) (type : LabelType) (id : String)
      → Keeps P (create_label fuel user_id name parent_id type id)
  unfolding create_label
  create_label_keeps fuel user_id name parent_id type id = search label_rules depth 16

  pub update_label_keeps :
      (fuel : ℕ) (user_id id name parent_id : String)
      → Keeps P (update_label fuel user_id id name parent_id)
  unfolding update_label
  update_label_keeps fuel user_id id name parent_id = search label_rules depth 16

  pub delete_one_label_keeps : (p id : String) → Keeps P (delete_one_label p id)
  unfolding delete_one_label
  delete_one_label_keeps p id = search order_rules depth 16

  pub delete_label_keeps : (fuel : ℕ) (user_id id : String) → Keeps P (delete_label fuel user_id id)
  unfolding delete_label
  delete_label_keeps fuel user_id id = search (order_rules, delete_one_label_keeps) depth 16
