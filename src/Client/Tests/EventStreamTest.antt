-- ===== src/Client/Tests/EventStreamTest.antt =====
-- The client reads a stream of five updates from a backend that sends two at a time.
use go_proton_api.Base.{nat_eq, string_eq, ◌==◌, true, some, [], ◌∷◌, ◌⊎◌, ◌≡◌, refl, arith}
use go_proton_api.Base.Int.{pos}
use go_proton_api.Base.Assoc.{find_key, lookup}
use go_proton_api.Backend.Types.{Account, Address, status_enabled}
use go_proton_api.Backend.Updates.{label_deleted, message_deleted, user_info_update, user_refreshed}
use go_proton_api.Backend.Store.{Store}
use go_proton_api.Backend.Events.Answers.{window_event}
use go_proton_api.Backend.Tests.Fixture.{mailbox, owner}
use go_proton_api.Client.EventStream.{get_event}
use go_proton_api.Client.EventStream.Delivery.{
  serve, event_key, Delivers, Stops, get_event-Delivers,
}

abbrev main_address : Address
main_address = record {
  addr_id = "addr";
  email = "owner@example.com";
  display_name = "Owner";
  order = 1;
  status = status_enabled;
  addr_type = 1;
  keys = [];
  allow_send = true;
}

abbrev reader : Account
reader = record owner {
  addresses = ("addr", main_address) ∷ [];
  update_ids = 0 ∷ 2 ∷ 3 ∷ 7 ∷ 9 ∷ [];
}

abbrev store : Store
store = record mailbox {
  accounts = ("u", reader) ∷ [];
  updates =
      (0, user_info_update)
      ∷ (2, label_deleted "l")
      ∷ (3, user_info_update)
      ∷ (7, message_deleted "m")
      ∷ (9, user_refreshed 255)
      ∷ [];
  max_updates_per_event = pos 2;
}

reader_known :
    (find_key (λ acc. acc.user_id == "u") store.accounts ≡ some "u")
    × (lookup "u" store.accounts ≡ some reader)
unfolding find_key lookup
reader_known = (refl, refl)

get_event-Delivers_example :
    Delivers
      (window_event 9 store reader)
      reader.update_ids
      1
      50
      (get_event (serve 9 "u" store) event_key 0)
    ⊎ Stops
        (window_event 9 store reader)
        reader.update_ids
        1
        (get_event (serve 9 "u" store) event_key 0)
get_event-Delivers_example =
    get_event-Delivers 9 "u" "u" store reader 10 reader_known.0 reader_known.1 (omega arith)
      (omega arith) 0 0 refl
