-- ===== src/Server/Settings.antt =====
-- The handlers of server/mail_settings.go, core_settings.go, keys.go, features.go and contacts.go that
-- answer with what a method of the backend gives.
use go_proton_api.Base.{ℕ, suc, String, string_eq, Bool, Option, none, some, List, [], ◌∷◌, ◌++◌}
use go_proton_api.Contacts.Card.{Card, CardTools}
use go_proton_api.Backend.Types.{Contact, ContactEmail, Key, MailSettings, UserSettings}
use go_proton_api.Backend.Exec.{
  Outcome, returned, failed, panicked, stuck, crypto_failure, lift, or_fail, pure, ◌>>=◌,
}
use go_proton_api.Backend.Store.{M}
use go_proton_api.Backend.Settings.{
  get_mail_settings, get_user_settings, set_mail_settings_attach_public_key,
  set_mail_settings_draft_mime_type, set_mail_settings_pgp_scheme, set_mail_settings_sign,
  set_user_settings_crash_reports, set_user_settings_telemetry,
}
use go_proton_api.Backend.Contacts.{
  add_user_contact, contact_card_to_contact, generate_contact_id, get_user_contact,
  get_user_contact_emails, get_user_contacts, update_user_contact,
}
use go_proton_api.Backend.Reads.{get_feature_flags, get_key_salts, get_public_keys, get_user}
use go_proton_api.Server.Response.{Handler, answer, bad_request, bind_json, internal_server_error}

unfoldable pub handle_get_mail_settings : String → Handler MailSettings
unfolding answer
handle_get_mail_settings user_id = answer internal_server_error (get_mail_settings user_id)

unfoldable pub handle_put_mail_settings_attach_public_key :
    String → Option Bool → Handler MailSettings
unfolding answer bind_json
handle_put_mail_settings_attach_public_key user_id req =
    bind_json req
      λ attach. answer internal_server_error (set_mail_settings_attach_public_key user_id attach)

unfoldable pub handle_put_mail_settings_draft_type : String → Option String → Handler MailSettings
unfolding answer bind_json
handle_put_mail_settings_draft_type user_id req =
    bind_json req
      λ mime. answer internal_server_error (set_mail_settings_draft_mime_type user_id mime)

unfoldable pub handle_put_mail_settings_sign : String → Option ℕ → Handler MailSettings
unfolding answer bind_json
handle_put_mail_settings_sign user_id req =
    bind_json req λ sign. answer internal_server_error (set_mail_settings_sign user_id sign)

unfoldable pub handle_put_mail_settings_pgp_scheme : String → Option ℕ → Handler MailSettings
unfolding answer bind_json
handle_put_mail_settings_pgp_scheme user_id req =
    bind_json req
      λ scheme. answer internal_server_error (set_mail_settings_pgp_scheme user_id scheme)

unfoldable pub handle_get_user_settings : String → Handler UserSettings
unfolding answer
handle_get_user_settings user_id = answer internal_server_error (get_user_settings user_id)

unfoldable pub handle_put_user_settings_telemetry : String → Option ℕ → Handler UserSettings
unfolding answer bind_json
handle_put_user_settings_telemetry user_id req =
    bind_json req λ value. answer internal_server_error (set_user_settings_telemetry user_id value)

unfoldable pub handle_put_user_settings_crash_reports : String → Option ℕ → Handler UserSettings
unfolding answer bind_json
handle_put_user_settings_crash_reports user_id req =
    bind_json req
      λ value. answer internal_server_error (set_user_settings_crash_reports user_id value)

-- An error and an account without keys both make the recipient external, which is `none`.
abbrev keys_or_external : Outcome (List String) → Outcome (Option (List String))
keys_or_external (returned []) = returned none
keys_or_external (returned (k ∷ keys)) = returned (some (k ∷ keys))
keys_or_external (failed e) = returned none
keys_or_external panicked = panicked
keys_or_external stuck = stuck

unfoldable pub handle_get_keys : (Key → Option String) → String → Handler (Option (List String))
unfolding answer get_public_keys
handle_get_keys public email =
    answer internal_server_error
      (λ b. let (r, b') = get_public_keys public email b in (keys_or_external r, b'))

unfoldable pub handle_get_key_salts : String → Handler (List (String × List ℕ))
unfolding answer
handle_get_key_salts user_id = answer internal_server_error (get_key_salts user_id)

unfoldable pub handle_get_features : Handler (List (String × Bool))
unfolding answer
handle_get_features = answer internal_server_error get_feature_flags

-- A page or a page size that is no number makes the handler panic, so both are numbers here.
unfoldable pub handle_get_contacts :
    (ℕ → List Contact → List (List Contact)) → String → ℕ → ℕ → Handler (ℕ × List Contact)
unfolding answer
handle_get_contacts chunk user_id page page_size =
    answer bad_request (get_user_contacts chunk user_id page page_size)

unfoldable pub handle_get_contacts_emails :
    (ℕ → List ContactEmail → List (List ContactEmail))
    → String
    → String
    → ℕ
    → ℕ
    → Handler (ℕ × List ContactEmail)
unfolding answer
handle_get_contacts_emails chunk user_id email page page_size =
    answer bad_request (get_user_contact_emails chunk user_id email page page_size)

unfoldable pub handle_get_contact : String → String → Handler Contact
unfolding answer
handle_get_contact user_id contact_id = answer bad_request (get_user_contact user_id contact_id)

unfoldable pub handle_put_contact : String → String → Option (List Card) → Handler Contact
unfolding answer bind_json
handle_put_contact user_id contact_id req =
    bind_json req λ cards. answer bad_request (update_user_contact user_id contact_id cards)

-- The contact of one card, which is stored under the next id; `digits` prints the counter, `email_id` gives
-- an id of an address by the contact and the position.
unfoldable pub create_contact :
    CardTools → String → (ℕ → String) → (ℕ → ℕ → String) → String → Card → M Contact
unfolding ◌>>=◌ contact_card_to_contact generate_contact_id add_user_contact
create_contact tools name_field digits email_id user_id card = do
  n ← generate_contact_id user_id
  contact ← lift (contact_card_to_contact tools name_field (email_id n) card (digits n))
  add_user_contact user_id contact

-- An error of one card is its response, which is `none`.
abbrev response : ℕ → Outcome Contact → Outcome (ℕ × Option Contact)
response i (returned c) = returned (i, some c)
response i (failed e) = returned (i, none)
response i panicked = panicked
response i stuck = stuck

-- The cards of the contact at a position.
unfoldable pub create_contacts : (Card → M Contact) → ℕ → List Card → M (List (ℕ × Option Contact))
unfolding ◌>>=◌
create_contacts create i [] = pure []
create_contacts create i (card ∷ cards) =
    let rest = create_contacts create i cards in
    do
      made ← (λ b. let (r, b') = create card b in (response i r, b'))
      responses ← rest
      pure (made ∷ responses)

unfoldable pub create_all :
    (Card → M Contact) → ℕ → List (List Card) → M (List (ℕ × Option Contact))
unfolding ◌>>=◌ create_contacts
create_all create i [] = pure []
create_all create i (cards ∷ contacts) =
    let rest = create_all create (suc i) contacts in
    do made ← create_contacts create i cards; responses ← rest; pure (made ++ responses)

-- `key_ring` makes the key ring of the user's public keys, with which the cards are decoded.
unfoldable pub handle_post_contacts :
    (Key → Option String)
    → (List String → Option CardTools)
    → String
    → (ℕ → String)
    → (ℕ → ℕ → String)
    → String
    → Option (List (List Card))
    → Handler (List (ℕ × Option Contact))
unfolding answer bind_json ◌>>=◌ create_all create_contact get_user get_public_keys
handle_post_contacts public key_ring name_field digits email_id user_id req =
    bind_json req λ contacts. answer bad_request (do
      user ← get_user user_id
      keys ← get_public_keys public user.0.email
      tools ← or_fail crypto_failure (key_ring keys)
      create_all (create_contact tools name_field digits email_id user_id) 0 contacts)
