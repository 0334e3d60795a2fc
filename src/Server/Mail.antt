-- ===== src/Server/Mail.antt =====
-- The handlers of server/messages.go but the import. The user is what `requireAuth` sets; a path or a body
-- is an argument, `none` where the body cannot be bound.
use go_proton_api.Base.{
  ℕ, String, string_eq, true, false, Option, none, some, List, [], ◌∷◌, ◌==◌, map, if◌then◌else◌,
}
use go_proton_api.Base.Int.{ℤ}
use go_proton_api.Base.Assoc.{Assoc}
use go_proton_api.Backend.Types.{DraftAction, DraftTemplate, MailAddress}
use go_proton_api.Backend.Exec.{panic, pure, ◌>>=◌}
use go_proton_api.Backend.Metadata.{Metadata, MessageView}
use go_proton_api.Backend.Mailbox.{
  create_draft, delete_message, get_message, get_message_ids, label_messages,
  set_messages_forwarded, set_messages_read, unlabel_messages, update_draft,
}
use go_proton_api.Backend.Delivery.{Package, get_address_id, send_message}
use go_proton_api.Backend.Reads.{get_message_group_count}
use go_proton_api.Backend.Search.{ListTools, MessageFilter, get_mail_messages}
use go_proton_api.Server.Response.{
  Handler, answer, answer_code, bind_json, internal_server_error, invalid_value, ok,
  unprocessable_entity, ◌then_with◌,
}

-- `mustParseInt` panics on a query that is no number, so the numbers are arguments.
unfoldable pub handle_get_mail_messages :
    ListTools → String → ℤ → ℤ → List String → Handler (List Metadata × ℕ)
unfolding answer get_mail_messages
handle_get_mail_messages tools user_id page page_size ids = answer internal_server_error (
    get_mail_messages tools user_id page page_size (record {
      ids = ids;
      subject = "";
      address_id = "";
      external_id = "";
      label_id = "";
      end_id = "";
      desc = false;
    }))

pub record DraftReq : Type 0 where
  pub message : DraftTemplate
  pub parent_id : String
  pub action : DraftAction

abbrev address_of : Option MailAddress → Option String
address_of none = none
address_of (some a) = some a.address

-- A draft whose sender is nil cannot be asked for its address: the nil pointer is followed.
unfoldable pub post_mail_messages : String → Option DraftReq → String → Handler MessageView
unfolding answer bind_json ◌>>=◌ get_address_id create_draft
post_mail_messages user_id req new_id = bind_json req λ r. elim (address_of r.message.sender) [
  | none ↦ panic
  | some email ↦ answer unprocessable_entity (get_address_id email) then_with λ addr_id.
      answer unprocessable_entity
        (create_draft user_id addr_id r.message r.parent_id r.action new_id)
]

pub data Posted : Type 0 where
  listed : List Metadata × ℕ → Posted
  drafted : MessageView → Posted

-- The header X-HTTP-Method-Override decides; a search comes with its page and page size.
unfoldable pub handle_post_mail_messages :
    ListTools
    → String
    → String
    → Option (MessageFilter × ℤ × ℤ)
    → Option DraftReq
    → String
    → Handler Posted
unfolding answer bind_json ◌>>=◌ get_mail_messages post_mail_messages
handle_post_mail_messages tools user_id override search draft new_id =
    if override == "GET"
    then (bind_json search λ r.
        answer internal_server_error (get_mail_messages tools user_id r.1 r.2 r.0) then_with λ page.
        pure (ok (listed page)))
    else post_mail_messages user_id draft new_id then_with λ m. pure (ok (drafted m))

-- The limit is `none` where it is no number.
unfoldable pub handle_get_mail_message_ids : String → String → Option ℤ → Handler (List String)
unfolding answer bind_json
handle_get_mail_message_ids user_id after_id limit =
    bind_json limit λ n. answer unprocessable_entity (get_message_ids user_id after_id n)

unfoldable pub handle_get_mail_message : String → String → Handler MessageView
unfolding answer_code
handle_get_mail_message user_id id =
    answer_code unprocessable_entity invalid_value (get_message user_id id)

unfoldable pub handle_post_mail_message :
    (List ℕ → List ℕ → Option (List ℕ))
    → ℕ
    → String
    → String
    → Option (List Package)
    → Handler MessageView
unfolding answer bind_json
handle_post_mail_message armor now user_id id req =
    bind_json req
      λ packages. answer unprocessable_entity (send_message armor now user_id id packages)

unfoldable pub handle_put_mail_message :
    String → String → Option DraftTemplate → Handler MessageView
unfolding answer bind_json
handle_put_mail_message user_id id req =
    bind_json req λ changes. answer unprocessable_entity (update_draft user_id id changes)

unfoldable pub handle_put_mail_messages_read : String → Option (List String) → Handler Unit
unfolding answer bind_json
handle_put_mail_messages_read user_id req =
    bind_json req λ ids. answer unprocessable_entity (set_messages_read user_id true ids)

unfoldable pub handle_put_mail_messages_unread : String → Option (List String) → Handler Unit
unfolding answer bind_json
handle_put_mail_messages_unread user_id req =
    bind_json req λ ids. answer unprocessable_entity (set_messages_read user_id false ids)

-- One answer with the code 1000 for each id.
abbrev done_each : List String → List (String × ℕ)
done_each ids = map (λ id. (id, 1000)) ids

unfoldable pub handle_put_mail_messages_forwarded :
    String → Option (List String) → Handler (List (String × ℕ))
unfolding answer bind_json ◌>>=◌
handle_put_mail_messages_forwarded user_id req = bind_json req λ ids.
    answer unprocessable_entity (set_messages_forwarded user_id true ids) then_with λ _.
    pure (ok (done_each ids))

unfoldable pub handle_put_mail_messages_unforwarded :
    String → Option (List String) → Handler (List (String × ℕ))
unfolding answer bind_json ◌>>=◌
handle_put_mail_messages_unforwarded user_id req = bind_json req λ ids.
    answer unprocessable_entity (set_messages_forwarded user_id false ids) then_with λ _.
    pure (ok (done_each ids))

-- A request has the label and the ids.
unfoldable pub handle_put_mail_messages_label :
    String → Option (String × List String) → Handler Unit
unfolding answer bind_json
handle_put_mail_messages_label user_id req =
    bind_json req λ r. answer unprocessable_entity (label_messages user_id r.0 true r.1)

unfoldable pub handle_put_mail_messages_unlabel :
    String → Option (String × List String) → Handler Unit
unfolding answer bind_json
handle_put_mail_messages_unlabel user_id req =
    bind_json req λ r. answer unprocessable_entity (unlabel_messages user_id r.0 r.1)

-- The loop stops at the first message that cannot be deleted; those before it are gone.
unfoldable pub delete_messages : String → List String → Handler Unit
unfolding answer ◌>>=◌
delete_messages user_id [] = pure (ok tt)
delete_messages user_id (id ∷ ids) =
    let rest = delete_messages user_id ids in
    answer unprocessable_entity (delete_message user_id id) then_with λ _. rest

unfoldable pub handle_delete_mail_messages : String → Option (List String) → Handler Unit
unfolding bind_json delete_messages
handle_delete_mail_messages user_id req = bind_json req λ ids. delete_messages user_id ids

unfoldable pub handle_message_group_count : String → Handler (Assoc String (ℕ × ℕ))
unfolding answer_code
handle_message_group_count user_id =
    answer_code unprocessable_entity invalid_value (get_message_group_count user_id)
