-- ===== src/Backend/Tests/AddressesTest.antt =====
-- A user with two addresses swaps their order.
use go_proton_api.Base.{ℕ, String, string_eq, nat_eq, true, [], ◌∷◌, ◌≡◌, refl}
use go_proton_api.Base.Assoc.{lookup, adjust, insert}
use go_proton_api.Backend.Types.{Address, status_enabled}
use go_proton_api.Backend.Exec.{returned}
use go_proton_api.Backend.Store.{Store, get_acc, post, set_acc, with_acc}
use go_proton_api.Backend.Metadata.{primary}
use go_proton_api.Backend.Addresses.{set_address_order}
use go_proton_api.Backend.Tests.Fixture.{mailbox, owner}

abbrev address : String → ℕ → Address
address id order = record {
  addr_id = id;
  email = id;
  display_name = "";
  order = order;
  status = status_enabled;
  addr_type = 1;
  keys = [];
  allow_send = true;
}

abbrev two : Store
two = record mailbox {
  accounts =
      ("u", record owner { addresses = ("a", address "a" 1) ∷ ("b", address "b" 2) ∷ [] }) ∷ [];
}

swap_works : (set_address_order "u" ("b" ∷ "a" ∷ []) two).0 ≡ returned tt
unfolding set_address_order with_acc get_acc set_acc post lookup adjust insert primary
swap_works = refl
