-- ===== src/Backend/Operations/Deliveries.antt =====
-- Delivery, attachments, and the event streams.
use go_proton_api.Base.{ℕ, suc, String, Option, none, some, List, [], ◌∷◌, refl}
use go_proton_api.Base.Assoc.{Assoc}
use go_proton_api.Backend.Types.{Attachment, Message}
use go_proton_api.Backend.Updates.{Update}
use go_proton_api.Backend.Exec.{modify}
use go_proton_api.Backend.Store.{Store, post, set_acc}
use go_proton_api.Backend.Store.Keeps.{
  Keeps, Keeps-bind, Keeps-modify, Keeps-option, Keeps-skip, keeps_rules,
}
use go_proton_api.Backend.Mailbox.{push_message_id}
use go_proton_api.Backend.Attachments.{attach_to, create_att_data, create_attachment}
use go_proton_api.Backend.Delivery.{
  Package, Recipient, copy_attachment, copy_attachments, create_message, deliver_package,
  deliver_to, find_account, get_address_id, mark_parent, send_message, sort_message, store_unless,
}
use go_proton_api.Backend.Operations.Streams.{
  IsStreamInvariant, edit_message_keeps, store_message_keeps,
}

module _ {P : Store → Type 0} (inv : IsStreamInvariant P) where
  post_keeps : (p : String) (e : Update) → Keeps P (post p e)
  post_keeps p e = inv.posts p e

  messages_keeps :
      (f : Store → Assoc String Message) → Keeps P (modify λ b. record b { messages = f b })
  messages_keeps f = Keeps-modify _ (λ b h. inv.frame b _ refl refl h)

  attachments_keeps :
      (f : Store → Assoc String Attachment) → Keeps P (modify λ b. record b { attachments = f b })
  attachments_keeps f = Keeps-modify _ (λ b h. inv.frame b _ refl refl h)

  att_data_keeps :
      (f : Store → Assoc String (List ℕ)) → Keeps P (modify λ b. record b { att_data = f b })
  att_data_keeps f = Keeps-modify _ (λ b h. inv.frame b _ refl refl h)

  push_message_id_keeps : (p id : String) → Keeps P (set_acc p (push_message_id id))
  push_message_id_keeps p id = inv.edits p _ (λ acc. refl)

  ruleset delivery_rules = (
    keeps_rules, Keeps-option, post_keeps, messages_keeps, attachments_keeps, att_data_keeps,
    push_message_id_keeps, edit_message_keeps, store_message_keeps,
  )

  attach_to_keeps : (message_id id : String) → Keeps P (attach_to message_id id)
  unfolding attach_to
  attach_to_keeps message_id id = search delivery_rules depth 24

  create_att_data_keeps : (id : String) (bytes : List ℕ) → Keeps P (create_att_data id bytes)
  unfolding create_att_data
  create_att_data_keeps id bytes = search delivery_rules depth 8

  pub create_attachment_keeps :
      (user_id message_id : String) (att : Attachment) (bytes : List ℕ)
      → Keeps P (create_attachment user_id message_id att bytes)
  unfolding create_attachment
  create_attachment_keeps user_id message_id att bytes =
      search (delivery_rules, attach_to_keeps, create_att_data_keeps) depth 24

  store_unless_keeps :
      (p : String) (msg : Message) (found : Option String) → Keeps P (store_unless p msg found)
  unfolding store_unless
  store_unless_keeps p msg none = search delivery_rules depth 16
  store_unless_keeps p msg (some id) = search delivery_rules depth 16

  pub create_message_keeps :
      (user_id : String) (msg : Message) → Keeps P (create_message user_id msg)
  unfolding create_message
  create_message_keeps user_id msg = search (delivery_rules, store_unless_keeps) depth 24

  find_account_keeps : (email : String) → Keeps P (find_account email)
  unfolding find_account
  find_account_keeps email = search delivery_rules depth 16

  get_address_id_keeps : (email : String) → Keeps P (get_address_id email)
  unfolding get_address_id
  get_address_id_keeps email = search (delivery_rules, find_account_keeps) depth 16

  sort_message_keeps : (id : String) → Keeps P (sort_message id)
  unfolding sort_message
  sort_message_keeps id = search delivery_rules depth 24

  copy_attachment_keeps : (r : Recipient) (i : ℕ) (id : String) → Keeps P (copy_attachment r i id)
  unfolding copy_attachment
  copy_attachment_keeps r i id = search delivery_rules depth 24

  copy_attachments_keeps :
      (r : Recipient) (i : ℕ) (ids : List String) → Keeps P (copy_attachments r i ids)
  unfolding copy_attachments
  copy_attachments_keeps r i [] = Keeps-skip
  copy_attachments_keeps r i (id ∷ ids) =
      Keeps-bind _ _ (copy_attachment_keeps r i id) (λ _. copy_attachments_keeps r (suc i) ids)

  module _ (armor : List ℕ → List ℕ → Option (List ℕ)) (now : ℕ) where
    deliver_to_keeps :
        (id : String) (body : List ℕ) (r : Recipient) → Keeps P (deliver_to armor now id body r)
    unfolding deliver_to
    deliver_to_keeps id body r =
        search
          (
            delivery_rules, find_account_keeps, get_address_id_keeps, sort_message_keeps,
            copy_attachments_keeps,
          )
          depth 40

    deliver_package_keeps :
        (id : String) (pkg : Package) → Keeps P (deliver_package armor now id pkg)
    unfolding deliver_package
    deliver_package_keeps id pkg = search (delivery_rules, deliver_to_keeps) depth 16

    mark_parent_keeps :
        (p : String) (msg : Message) (parent : Option Message)
        → Keeps P (mark_parent armor now p msg parent)
    unfolding mark_parent
    mark_parent_keeps p msg none = search delivery_rules depth 16
    mark_parent_keeps p msg (some parent) = search delivery_rules depth 16

    pub send_message_keeps :
        (user_id id : String) (packages : List Package)
        → Keeps P (send_message armor now user_id id packages)
    unfolding send_message
    send_message_keeps user_id id packages =
        search (delivery_rules, mark_parent_keeps, deliver_package_keeps) depth 40
