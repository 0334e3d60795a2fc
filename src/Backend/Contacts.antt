-- ===== src/Backend/Contacts.antt =====
-- The contact methods of server/backend/api.go, and `ContactCardToContact` of server/backend/contact.go.
use go_proton_api.Base.{
  ℕ, suc, ltb, String, string_eq, ◌||◌, List, [], ◌∷◌, ◌++◌, ◌==◌, length, filter, get_elem?,
  if◌then◌else◌,
}
use go_proton_api.Base.Assoc.{lookup, insert, adjust, values}
use go_proton_api.Contacts.Card.{Card, CardTools, Field, value, error, card_get}
use go_proton_api.Backend.Types.{Contact, ContactEmail}
use go_proton_api.Backend.Exec.{
  Outcome, returned, failed, no_such_contact, crypto_failure, or_fail, or_panic, pure, ◌>>◌, ◌>>=◌,
}
use go_proton_api.Backend.Store.{M, get_acc, set_acc, with_acc_ret}
use go_proton_api.Backend.Attachments.{str_leb}

-- `slices.SortFunc` by a text.
unfoldable pub insert_by : {A : Type 0} → (A → String) → A → List A → List A
insert_by key x [] = x ∷ []
insert_by key x (y ∷ ys) =
    let rest = insert_by key x ys in if str_leb (key x) (key y) then x ∷ y ∷ ys else y ∷ rest

unfoldable pub sort_by : {A : Type 0} → (A → String) → List A → List A
unfolding insert_by
sort_by key [] = []
sort_by key (x ∷ xs) = insert_by key x (sort_by key xs)

-- The names and ids of `ContactEmails`; `id` gives the next value of the counter of all contacts.
abbrev pub emails_from : (ℕ → String) → String → String → ℕ → List Field → List ContactEmail
emails_from id name contact_id n [] = []
emails_from id name contact_id n (f ∷ fields) =
    record { id = id n; name = name; email = f.value; contact_id = contact_id }
    ∷ emails_from id name contact_id (suc n) fields

-- The last steps of `ContactCardToContact`; without a name the index is out of range.
unfoldable pub contact_of : (ℕ → String) → Card → String → List Field → List Field → Outcome Contact
contact_of id card contact_id emails [] = Outcome.panicked
contact_of id card contact_id emails (name ∷ names) = returned (record {
  id = contact_id;
  name = name.value;
  contact_emails = emails_from id name.value contact_id 0 emails;
  cards = card ∷ [];
})

-- `name_field` is the name of the field FN.
unfoldable pub contact_card_to_contact :
    CardTools → String → (ℕ → String) → Card → String → Outcome Contact
unfolding card_get contact_of
contact_card_to_contact tools name_field id card contact_id =
    elim (card_get tools tools.email_field card) [
      | error e ↦ failed crypto_failure
      | value emails ↦ elim (card_get tools name_field card) [
        | error e ↦ failed crypto_failure
        | value names ↦ contact_of id card contact_id emails names
      ]
    ]

unfoldable pub get_user_contact : String → String → M Contact
unfolding ◌>>=◌
get_user_contact user_id contact_id =
    with_acc_ret user_id
      λ p. do acc ← get_acc p; or_fail no_such_contact (lookup contact_id acc.contacts)

-- `chunk` is juniper's `Chunk` by a positive size; the page is an index into it.
unfoldable pub get_user_contacts :
    (ℕ → List Contact → List (List Contact)) → String → ℕ → ℕ → M (ℕ × List Contact)
unfolding ◌>>=◌ sort_by values
get_user_contacts chunk user_id page page_size = with_acc_ret user_id λ p. do
  acc ← get_acc p
  let sorted = sort_by (λ c. c.id) (values acc.contacts)
  contacts ← or_panic (get_elem? (chunk page_size sorted) page)
  pure (length acc.contacts, contacts)

abbrev pub emails_of : List Contact → List ContactEmail
emails_of [] = []
emails_of (c ∷ contacts) = c.contact_emails ++ emails_of contacts

unfoldable pub get_user_contact_emails :
    (ℕ → List ContactEmail → List (List ContactEmail))
    → String
    → String
    → ℕ
    → ℕ
    → M (ℕ × List ContactEmail)
unfolding ◌>>=◌ sort_by values
get_user_contact_emails chunk user_id email page page_size = with_acc_ret user_id λ p. do
  acc ← get_acc p
  let found = filter (λ e. email == "" || e.email == email) (emails_of (values acc.contacts))
  if ltb (length found) page_size then pure (length found, found) else do
    emails ← or_panic (get_elem? (chunk page_size (sort_by (λ e. e.id) found)) page)
    pure (length found, emails)

unfoldable pub add_user_contact : String → Contact → M Contact
unfolding ◌>>=◌
add_user_contact user_id contact = with_acc_ret user_id λ p. do
  set_acc p (λ acc. record acc { contacts = insert contact.id contact acc.contacts })
  pure contact

-- A missing contact is a nil pointer that is written through.
unfoldable pub update_user_contact : String → String → List Card → M Contact
unfolding ◌>>=◌
update_user_contact user_id contact_id cards = with_acc_ret user_id λ p. do
  acc ← get_acc p
  contact ← or_panic (lookup contact_id acc.contacts)
  set_acc p (λ acc. record acc {
    contacts = adjust contact_id (λ c. record c { cards = cards }) acc.contacts;
  })
  pure (record contact { cards = cards })

-- The counter after it was increased, whose digits are the id.
unfoldable pub generate_contact_id : String → M ℕ
unfolding ◌>>=◌
generate_contact_id user_id = with_acc_ret user_id λ p. do
  set_acc p (λ acc. record acc { contact_counter = suc acc.contact_counter })
  acc ← get_acc p
  pure acc.contact_counter
