-- ===== src/Server/Profile.antt =====
-- The handlers of server/labels.go, addresses.go, events.go, attachments.go and users.go.
pub mod Counting
pub mod Order
use go_proton_api.Base.{
  ℕ, String, string_eq, nat_eq, Bool, true, false, not, ◌&&◌, Option, none, some, List, [], ◌∷◌,
  ◌==◌, length, contains, if◌then◌else◌,
}
use go_proton_api.Backend.Types.{
  Address, AddressStatus, status_disabled, status_enabled, Attachment, LabelType,
}
use go_proton_api.Backend.Exec.{pure, ◌>>=◌}
use go_proton_api.Backend.Store.{M}
use go_proton_api.Backend.Labels.{LabelView, create_label, delete_label, update_label}
use go_proton_api.Backend.Metadata.{UserView}
use go_proton_api.Backend.Addresses.{delete_address, set_address_order, set_address_status}
use go_proton_api.Backend.Attachments.{create_attachment, get_attachment}
use go_proton_api.Backend.Events.{Event, get_event, get_latest_event_id}
use go_proton_api.Backend.Reads.{get_address, get_addresses, get_labels, get_user, has_label}
use go_proton_api.Server.Response.{
  Handler, abort, answer, bad_request, bind_json, conflict, internal_server_error, ok,
  unprocessable_entity, ◌then_with◌,
}

-- `same` is the equality of label types; a type that is no number makes the handler panic.
unfoldable pub handle_get_mail_labels :
    (LabelType → LabelType → Bool) → String → List LabelType → Handler (List LabelView)
unfolding answer
handle_get_mail_labels same user_id types =
    answer internal_server_error (get_labels same user_id types)

-- A new label has the name, the parent and the type.
unfoldable pub handle_post_mail_labels :
    (LabelType → LabelType → Bool)
    → ℕ
    → String
    → Option (String × String × LabelType)
    → String
    → Handler LabelView
unfolding answer bind_json ◌>>=◌
handle_post_mail_labels same fuel user_id req new_id = bind_json req λ r.
    answer internal_server_error (has_label same user_id r.0) then_with λ found. elim found [
      | some id ↦ abort conflict
      | none ↦ answer internal_server_error (create_label fuel user_id r.0 r.1 r.2 new_id)
    ]

abbrev is_other : String → Option String → Bool
is_other label_id none = false
is_other label_id (some id) = not (id == label_id)

unfoldable pub handle_put_mail_label :
    (LabelType → LabelType → Bool)
    → ℕ
    → String
    → String
    → Option (String × String)
    → Handler LabelView
unfolding answer bind_json ◌>>=◌
handle_put_mail_label same fuel user_id label_id req = bind_json req λ r.
    answer internal_server_error (has_label same user_id r.0) then_with λ found.
    if is_other label_id found
    then abort conflict
    else answer internal_server_error (update_label fuel user_id label_id r.0 r.1)

unfoldable pub handle_delete_mail_label : ℕ → String → String → Handler Unit
unfolding answer
handle_delete_mail_label fuel user_id label_id =
    answer bad_request (delete_label fuel user_id label_id)

unfoldable pub handle_get_addresses : String → Handler (List Address)
unfolding answer
handle_get_addresses user_id = answer internal_server_error (get_addresses user_id)

unfoldable pub handle_get_address : String → String → Handler Address
unfolding answer
handle_get_address user_id addr_id = answer internal_server_error (get_address user_id addr_id)

unfoldable pub handle_put_address_enable : String → String → Handler Unit
unfolding answer
handle_put_address_enable user_id addr_id =
    answer internal_server_error (set_address_status status_enabled user_id addr_id)

unfoldable pub handle_put_address_disable : String → String → Handler Unit
unfolding answer
handle_put_address_disable user_id addr_id =
    answer internal_server_error (set_address_status status_disabled user_id addr_id)

unfoldable pub handle_delete_address : String → String → Handler Unit
unfolding answer
handle_delete_address user_id addr_id =
    answer internal_server_error (delete_address user_id addr_id)

-- Every address of the account is in the order.
abbrev pub all_named : List String → List Address → Bool
all_named ids [] = true
all_named ids (a ∷ addrs) = contains ids a.addr_id && all_named ids addrs

unfoldable pub handle_put_addresses_order : String → Option (List String) → Handler Unit
unfolding answer bind_json ◌>>=◌
handle_put_addresses_order user_id req = bind_json req λ ids.
    answer internal_server_error (get_addresses user_id) then_with λ addrs.
    if not (length ids == length addrs)
    then abort bad_request
    else if not (all_named ids addrs)
    then abort bad_request
    else answer internal_server_error (set_address_order user_id ids)

unfoldable pub handle_get_events : ℕ → String → ℕ → Handler (Event × Bool)
unfolding answer
handle_get_events fuel user_id event_id = answer bad_request (get_event fuel user_id event_id)

unfoldable pub handle_get_events_latest : String → Handler ℕ
unfolding answer
handle_get_events_latest user_id = answer bad_request (get_latest_event_id user_id)

-- The form has the message and, with its fresh ids, the attachment and its bytes.
unfoldable pub handle_post_mail_attachments :
    String → Option (String × Attachment × List ℕ) → Handler Attachment
unfolding answer bind_json
handle_post_mail_attachments user_id form =
    bind_json form λ f. answer unprocessable_entity (create_attachment user_id f.0 f.1 f.2)

unfoldable pub handle_get_mail_attachment : String → Handler (List ℕ)
unfolding answer
handle_get_mail_attachment id = answer unprocessable_entity (get_attachment id)

unfoldable pub handle_get_users : String → Handler (UserView × ℕ)
unfolding answer
handle_get_users user_id = answer internal_server_error (get_user user_id)
