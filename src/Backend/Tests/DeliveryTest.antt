-- ===== src/Backend/Tests/DeliveryTest.antt =====
-- A message comes in, is deleted, and the stream is refreshed.
use go_proton_api.Base.{
  true, String, All, In, inl, inr, ◌==◌, string_eq, nat_eq, some, none, [], ◌∷◌, ◌≡◌, refl, arith,
}
use go_proton_api.Base.Int.{pos}
use go_proton_api.Base.Assoc.{Assoc, insert, lookup, find_key}
use go_proton_api.Backend.Types.{Account, Address, status_enabled, MailAddress, Message}
use go_proton_api.Backend.Updates.{message_created}
use go_proton_api.Backend.Exec.{for_each, returned}
use go_proton_api.Backend.Store.{Store, post, set_acc, with_acc, with_acc_ret}
use go_proton_api.Backend.Events.{get_event}
use go_proton_api.Backend.Metadata.{to_user}
use go_proton_api.Backend.Mailbox.{delete_message, store_message}
use go_proton_api.Backend.Mailbox.Deletion.{IsGone, delete_message-IsGone}
use go_proton_api.Backend.Users.{refresh_all, refresh_user}
use go_proton_api.Backend.Users.Refresh.{refresh_user_restarts, shown_refresh}
use go_proton_api.Backend.Delivery.{create_message, is_duplicate, find_duplicate, store_unless}
use go_proton_api.Backend.Delivery.Duplicates.{create_message_twice, with_id, IsOther, IsReordered}
use go_proton_api.Backend.Tests.Fixture.{letter, mailbox, owner}

abbrev friend : MailAddress
friend = record { display = "Friend"; address = "friend@example.com" }

abbrev mail : Message
mail = record letter { sender = some friend; att_ids = [] }

abbrev other_mail : Message
other_mail = record mail { message_id = "k"; subject = "another" }

abbrev before : Store
before = record mailbox { messages = ("k", other_mail) ∷ [] }

abbrev both : Assoc String Message
both = ("m", mail) ∷ ("k", other_mail) ∷ []

swap_in : (a b entry : String × Message) → In entry (a ∷ b ∷ []) → In entry (b ∷ a ∷ [])
swap_in a b entry (inl e) = inr (inl e)
swap_in a b entry (inr (inl e)) = inl e
swap_in a b entry (inr (inr h)) = absurd h

not_there : lookup mail.message_id before.messages ≡ none
unfolding lookup
not_there = refl

others : All (IsOther mail) before.messages
unfolding is_duplicate
others = (λ same. refl, tt)

owned : find_key (λ acc. acc.user_id == "u") before.accounts ≡ some "u"
unfolding find_key
owned = refl

reordered : IsReordered (create_message "u" mail before).1.messages both
unfolding create_message with_acc_ret find_key find_duplicate store_unless store_message post
    set_acc insert
reordered entry =
    (swap_in ("k", other_mail) ("m", mail) entry, swap_in ("m", mail) ("k", other_mail) entry)

create_message_twice_example :
    ((create_message "u" mail before).0 ≡ returned "m")
    × (lookup "m" (create_message "u" mail before).1.messages ≡ some mail)
    × (create_message "u"
          (with_id "n" mail)
          (record (create_message "u" mail before).1 { messages = both })
        ≡ (returned "m", record (create_message "u" mail before).1 { messages = both }))
create_message_twice_example =
    create_message_twice "u" "u" "n" mail friend before both refl refl owned not_there others
      reordered

abbrev user : Account
user = record owner { message_ids = "m" ∷ "k" ∷ []; update_ids = 0 ∷ [] }

abbrev store : Store
store = record mailbox {
  accounts = ("u", user) ∷ [];
  messages = ("m", mail) ∷ ("k", mail) ∷ [];
  updates = (0, message_created "m") ∷ [];
}

user_known : lookup "u" store.accounts ≡ some user
unfolding lookup
user_known = refl

deletion_works : (delete_message "u" "m" store).0 ≡ returned tt
unfolding delete_message with_acc lookup for_each post
deletion_works = refl

delete_message-IsGone_example : IsGone "u" "m" user store (delete_message "u" "m" store).1
delete_message-IsGone_example = delete_message-IsGone "u" "m" user store user_known deletion_works

abbrev main_address : Address
main_address = record {
  addr_id = "addr";
  email = "owner@example.com";
  display_name = "Owner";
  order = 1;
  status = status_enabled;
  addr_type = 1;
  keys = [];
  allow_send = true;
}

abbrev addressed : Account
addressed = record user { addresses = ("addr", main_address) ∷ [] }

abbrev inbox : Store
inbox = record store { accounts = ("u", addressed) ∷ []; max_updates_per_event = pos 50 }

addressed_known :
    (find_key (λ acc. acc.user_id == "u") inbox.accounts ≡ some "u")
    × (lookup "u" inbox.accounts ≡ some addressed)
unfolding find_key lookup
addressed_known = (refl, refl)

refresh_user_restarts_example : get_event 9 "u" 0 (refresh_user "u" refresh_all inbox).1 ≡ (
  shown_refresh 1 (some (record { id = "u"; name = owner.username; email = "owner@example.com" })),
  (refresh_user "u" refresh_all inbox).1,
)
unfolding to_user
refresh_user_restarts_example =
    refresh_user_restarts 9 "u" inbox addressed 0 addressed_known.0 addressed_known.1 (omega arith)
      (omega arith)
