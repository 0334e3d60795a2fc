-- ===== src/Server/Profile/Order.antt =====
-- A request for a new order of the addresses, by its guards and the order that it leaves.
use go_proton_api.Base.{
  ℕ, suc, nat_eq, nat_beq_iff, String, string_eq, Bool, true, false, not, some, List, [], ◌∷◌, ◌==◌,
  length, map, ◌≡◌, refl, ap, sym, subst, ◌∙◌, arith, if◌then◌else◌,
}
use go_proton_api.Base.Assoc.{find_key, lookup, values}
use go_proton_api.Backend.Types.{Account, Address}
use go_proton_api.Backend.Exec.{Outcome, pure, returned, failed, panicked, stuck}
use go_proton_api.Backend.Store.{Store, get_acc, with_acc_ret}
use go_proton_api.Backend.Mailbox.Pages.{Distinct}
use go_proton_api.Backend.Addresses.{set_address_order}
use go_proton_api.Backend.Addresses.Order.{IsOrdering, set_address_order-IsOrdering}
use go_proton_api.Backend.Reads.{get_addresses}
use go_proton_api.Server.Response.{
  Handler, abort, bad_request, ok, answer, caught, bind_json, internal_server_error,
}
use go_proton_api.Server.Profile.{all_named, handle_put_addresses_order}
use go_proton_api.Server.Profile.Counting.{AllIn, IsSame, AllIn-IsSame}

abbrev pub ids_of : Account → List String
ids_of acc = map (λ a. a.addr_id) (values acc.addresses)

all_named-AllIn :
    (ids : List String) (addrs : List Address)
    → all_named ids addrs ≡ true
    → AllIn (map (λ a. a.addr_id) addrs) ids
all_named-AllIn ids [] h = tt
all_named-AllIn ids (a ∷ addrs) h = (ground arith, all_named-AllIn ids addrs (ground arith))

length-map : {A B : Type 0} (f : A → B) (xs : List A) → length (map f xs) ≡ length xs
length-map f [] = refl
length-map f (x ∷ xs) = ap suc (length-map f xs)

caught-ok :
    {A : Type 0} (status : ℕ) (r : Outcome A) (a : A)
    → caught status 0 r ≡ returned (ok a)
    → r ≡ returned a
caught-ok status (returned b) a h = ground arith
caught-ok status (failed e) a h = absurd (ground arith)
caught-ok status panicked a h = absurd (ground arith)
caught-ok status stuck a h = absurd (ground arith)

abbrev guarded : Bool → Bool → String → List String → Handler Unit
guarded counted named user_id ids =
    if not counted
    then abort bad_request
    else if not named
    then abort bad_request
    else answer internal_server_error (set_address_order user_id ids)

handle_put_addresses_order-guarded :
    (user_id : String) (ids : List String) (b : Store) (acc : Account)
    → find_key (λ acc. acc.user_id == user_id) b.accounts ≡ some user_id
    → lookup user_id b.accounts ≡ some acc
    → handle_put_addresses_order user_id (some ids) b
      ≡ guarded
          (length ids == length (values acc.addresses))
          (all_named ids (values acc.addresses))
          user_id
          ids
          b
unfolding handle_put_addresses_order answer bind_json get_addresses with_acc_ret get_acc
handle_put_addresses_order-guarded user_id ids b acc found held =
    rw
      (
        handle_put_addresses_order, bind_json, answer, get_addresses, with_acc_ret, get_acc, found,
        held,
      )
      refl

-- What holds where the handler answers that the order was set.
record WasSet (counted named : Bool) (user_id : String) (ids : List String) (b : Store)
    : Type 0 where
  count : counted ≡ true
  all : named ≡ true
  set : (set_address_order user_id ids b).0 ≡ returned tt
  after : (guarded counted named user_id ids b).1 ≡ (set_address_order user_id ids b).1

guarded-WasSet :
    (counted named : Bool) (user_id : String) (ids : List String) (b : Store)
    → (guarded counted named user_id ids b).0 ≡ returned (ok tt)
    → WasSet counted named user_id ids b
unfolding answer pure
guarded-WasSet false named user_id ids b h = absurd (ground arith)
guarded-WasSet true false user_id ids b h = absurd (ground arith)
guarded-WasSet true true user_id ids b h = record {
  count = refl;
  all = refl;
  set = caught-ok internal_server_error (set_address_order user_id ids b).0 tt h;
  after = refl;
}

-- When the handler answers that a new order was set, the list names every address of the account and nothing else, none of them twice, and the addresses have the orders 1, 2 and so on in the order of the list. The account is found under its id, and its addresses have different ids.
pub handle_put_addresses_order-IsOrdering :
    (user_id : String) (ids : List String) (b : Store) (acc : Account)
    → find_key (λ acc. acc.user_id == user_id) b.accounts ≡ some user_id
    → lookup user_id b.accounts ≡ some acc
    → Distinct (ids_of acc)
    → (handle_put_addresses_order user_id (some ids) b).0 ≡ returned (ok tt)
    → IsSame (ids_of acc) ids
      × AllIn (ids_of acc) ids
      × IsOrdering user_id 0 ids b (handle_put_addresses_order user_id (some ids) b).1
handle_put_addresses_order-IsOrdering user_id ids b acc found held distinct h =
    let addrs = values acc.addresses in
    let counted = length ids == length addrs in
    let named = all_named ids addrs in
    let handled = handle_put_addresses_order-guarded user_id ids b acc found held in
    let was = guarded-WasSet counted named user_id ids b (sym (ap (λ r. r.0) handled) ∙ h) in
    let all = all_named-AllIn ids addrs was.all in
    let as_many = (nat_beq_iff (length ids) (length addrs)).0 was.count in
    let mapped = length-map (λ (a : Address). a.addr_id) addrs in
    let same = AllIn-IsSame (ids_of acc) ids distinct all (omega (arith, as_many, mapped)) in
    let order = set_address_order-IsOrdering user_id ids b same.distinct was.set in
    (
      same,
      all,
      subst (λ s. IsOrdering user_id 0 ids b s) (sym (ap (λ r. r.1) handled ∙ was.after)) order,
    )
