-- ===== src/Client/Tests/ContactListTest.antt =====
-- A client lists two contacts, which the backend keeps in another order.
use go_proton_api.Base.{ℕ, String, string_eq, List, [], ◌∷◌, ◌≡◌, refl, arith}
use go_proton_api.Base.Assoc.{find_key, lookup, values}
use go_proton_api.Backend.Types.{Account, Contact}
use go_proton_api.Backend.Exec.{returned}
use go_proton_api.Backend.Store.{Store}
use go_proton_api.Backend.Contacts.{get_user_contacts, sort_by}
use go_proton_api.Backend.Tests.Fixture.{mailbox, owner}
use go_proton_api.Client.ContactList.{get_all}
use go_proton_api.Client.ContactList.Served.{get_all_contacts_served, served_contacts}

abbrev contact : String → Contact
contact id = record { id = id; name = "name"; contact_emails = []; cards = [] }

abbrev listed : Account
listed = record owner { contacts = ("2", contact "2") ∷ ("1", contact "1") ∷ [] }

abbrev store : Store
store = record mailbox { accounts = ("u", listed) ∷ [] }

-- All of a short list is one chunk.
abbrev one_chunk : ℕ → List Contact → List (List Contact)
one_chunk size [] = []
one_chunk size (c ∷ cs) = (c ∷ cs) ∷ []

get_all_contacts_served_example :
    get_all (served_contacts one_chunk "u" store) ≡ returned (contact "1" ∷ contact "2" ∷ [])
unfolding find_key get_user_contacts lookup values sort_by
get_all_contacts_served_example =
    get_all_contacts_served one_chunk "u" "u" store listed refl refl (omega arith, omega arith) refl
