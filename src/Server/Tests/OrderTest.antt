-- ===== src/Server/Tests/OrderTest.antt =====
-- A user asks the server to swap the order of two addresses.
use go_proton_api.Base.{ℕ, String, string_eq, nat_eq, true, some, [], ◌∷◌, ◌≡◌, refl, contains}
use go_proton_api.Base.Assoc.{lookup, adjust, insert, find_key, values}
use go_proton_api.Backend.Types.{Account, Address, status_enabled}
use go_proton_api.Backend.Exec.{returned}
use go_proton_api.Backend.Store.{Store, get_acc, post, set_acc, with_acc, with_acc_ret}
use go_proton_api.Backend.Metadata.{primary}
use go_proton_api.Backend.Mailbox.Pages.{Distinct}
use go_proton_api.Backend.Addresses.{set_address_order}
use go_proton_api.Backend.Addresses.Order.{IsOrdering}
use go_proton_api.Backend.Reads.{get_addresses}
use go_proton_api.Server.Response.{answer, ok}
use go_proton_api.Server.Profile.{handle_put_addresses_order}
use go_proton_api.Server.Profile.Counting.{AllIn, IsSame}
use go_proton_api.Server.Profile.Order.{ids_of, handle_put_addresses_order-IsOrdering}
use go_proton_api.Backend.Tests.Fixture.{mailbox, owner}

abbrev address : String → ℕ → Address
address id order = record {
  addr_id = id;
  email = id;
  display_name = "";
  order = order;
  status = status_enabled;
  addr_type = 1;
  keys = [];
  allow_send = true;
}

abbrev two : Store
two = record mailbox {
  accounts =
      ("u", record owner { addresses = ("a", address "a" 1) ∷ ("b", address "b" 2) ∷ [] }) ∷ [];
}

abbrev user : Account
user = record owner { addresses = ("a", address "a" 1) ∷ ("b", address "b" 2) ∷ [] }

swap_ids-Distinct : Distinct (ids_of user)
unfolding values contains
swap_ids-Distinct = (refl, (refl, tt))

swap_answered : (handle_put_addresses_order "u" (some ("b" ∷ "a" ∷ [])) two).0 ≡ returned (ok tt)
unfolding handle_put_addresses_order answer get_addresses set_address_order with_acc with_acc_ret
    get_acc set_acc post lookup adjust insert find_key values primary contains
swap_answered = refl

handle_put_addresses_order-IsOrdering_example :
    IsSame (ids_of user) ("b" ∷ "a" ∷ [])
    × AllIn (ids_of user) ("b" ∷ "a" ∷ [])
    × IsOrdering "u" 0
        ("b" ∷ "a" ∷ [])
        two
        (handle_put_addresses_order "u" (some ("b" ∷ "a" ∷ [])) two).1
unfolding find_key lookup
handle_put_addresses_order-IsOrdering_example =
    handle_put_addresses_order-IsOrdering "u" ("b" ∷ "a" ∷ []) two user refl refl swap_ids-Distinct
      swap_answered
