-- ===== src/Backend/Addresses.antt =====
-- The address methods of server/backend: api.go and backend.go. Random tokens and fresh ids are
-- arguments.
pub mod Order
use go_proton_api.Base.{
  ℕ, ◌+◌, zero, suc, String, string_eq, nat_eq, Bool, true, false, not, Option, none, some, List,
  [], ◌∷◌, ◌++◌, ◌==◌, if◌then◌else◌, length,
}
use go_proton_api.Base.Int.{ℤ, pos, negsuc}
use go_proton_api.Base.Assoc.{lookup, insert, delete, adjust, find_key}
use go_proton_api.Backend.Types.{Account, Address, AddressStatus, status_disabled, Key}
use go_proton_api.Backend.Updates.{
  address_created, address_deleted, address_updated, user_info_update,
}
use go_proton_api.Backend.Exec.{
  bad_key_length, crypto_failure, no_such_address, no_such_key, not_disabled, fail_if, or_fail,
  or_panic, pure, skip, ◌>>=◌, ◌>>◌,
}
use go_proton_api.Backend.Store.{M, with_acc, with_acc_ret, get_acc, set_acc, post}
use go_proton_api.Backend.Metadata.{primary}

-- The parts of gopenpgp that make and open keys and write a message out, with their errors as `none`.
pub record KeyMaker : Type 1 where
  pub KeyRing : Type 0
  pub hash_password : List ℕ → List ℕ → Option (List ℕ)
  pub generate_key : String → String → List ℕ → ℤ → Option String
  pub unlock : Key → List ℕ → Option KeyRing
  pub encrypt_with_signature : KeyRing → List ℕ → Option (String × String)
  pub armor : List ℕ → List ℕ → Option (List ℕ)

abbrev pub is_disabled : AddressStatus → Bool
is_disabled status_disabled = true
is_disabled _ = false

-- A write through the pointer `acc.addresses[id]`.
abbrev pub adjust_address : String → (Address → Address) → Account → Account
adjust_address id f acc = record acc { addresses = adjust id f acc.addresses }

unfoldable pub edit_address : String → String → (Address → Address) → M Unit
unfolding ◌>>=◌
edit_address p id f = do
  acc ← get_acc p
  or_panic (lookup id acc.addresses)
  set_acc p (adjust_address id f)

-- `EnableAddress` and `DisableAddress`.
unfoldable pub set_address_status : AddressStatus → String → String → M Unit
unfolding ◌>>=◌ edit_address
set_address_status status user_id id =
    with_acc user_id
      λ p. do edit_address p id (λ a. record a { status = status }); post p (address_updated id)

abbrev without_address : String → Account → Account
without_address id acc = record acc { addresses = delete id acc.addresses }

unfoldable pub delete_address : String → String → M Unit
unfolding ◌>>=◌
delete_address user_id id = with_acc user_id λ p. do
  acc ← get_acc p
  addr ← or_panic (lookup id acc.addresses)
  fail_if (not (is_disabled addr.status)) not_disabled
  set_acc p (without_address id)
  post p (address_deleted id)

unfoldable pub remove_address : String → String → M Unit
unfolding ◌>>=◌
remove_address user_id id = with_acc user_id λ p. do
  acc ← get_acc p
  or_fail no_such_address (lookup id acc.addresses)
  set_acc p (without_address id)
  post p (address_deleted id)

-- The body of the loop of `SetAddressOrder`, at the position `i`.
unfoldable pub set_order : String → ℕ → String → M Unit
unfolding ◌>>=◌
set_order p i id = do
  acc ← get_acc p
  addr ← or_fail no_such_address (lookup id acc.addresses)
  if addr.order == i + 1 then skip else post p (address_updated id)
  set_acc p (adjust_address id (λ a. record a { order = i + 1 }))

unfoldable pub set_orders : String → ℕ → List String → M Unit
unfolding ◌>>=◌ set_order
set_orders p i [] = skip
set_orders p i (id ∷ ids) = let rest = set_orders p (suc i) ids in set_order p i id >>= λ _. rest

unfoldable pub set_address_order : String → List String → M Unit
unfolding ◌>>=◌ set_orders
set_address_order user_id ids = with_acc user_id λ p. do
  before ← get_acc p
  old ← or_panic (primary before.addresses)
  set_orders p 0 ids
  after ← get_acc p
  new ← or_panic (primary after.addresses)
  if old.addr_id == new.addr_id then skip else post p user_info_update

-- `ChangeAddressType`, `ChangeAddressAllowSend` and `ChangeAddressDisplayName`, which differ in the
-- field that they write. The range stops at the first address with the id.
unfoldable pub change_address : (Address → Address) → String → String → M Unit
unfolding ◌>>=◌
change_address f user_id id = with_acc user_id λ p. do
  acc ← get_acc p
  key ← or_fail no_such_address (find_key (λ a. a.addr_id == id) acc.addresses)
  set_acc p (adjust_address key f)

module _ (maker : KeyMaker) where
  abbrev is_positive : ℤ → Bool
  is_positive (pos zero) = false
  is_positive (pos (suc n)) = true
  is_positive (negsuc n) = false

  -- The address key that `createAddress` and `CreateAddressKey` make from a random token.
  unfoldable pub make_address_key : Account → String → List ℕ → ℤ → Option (List ℕ) → String → M Key
  unfolding ◌>>=◌
  make_address_key acc email password bits random key_id = do
    token ← or_fail crypto_failure random
    fail_if (not (is_positive bits)) bad_key_length
    arm_key ← or_fail crypto_failure (maker.generate_key acc.username email token bits)
    passphrase ← or_fail crypto_failure (maker.hash_password password acc.salt)
    first ← or_panic (elim acc.keys [ [] ↦ none | k ∷ ks ↦ some k ])
    ring ← or_fail crypto_failure (maker.unlock first passphrase)
    signed ← or_fail crypto_failure (maker.encrypt_with_signature ring token)
    pure (record { key_id = key_id; key = arm_key; tok = signed.0; sig = signed.1 })

  abbrev new_address : Account → String → AddressStatus → ℕ → List Key → Bool → String → Address
  new_address acc email status addr_type keys allow_send id = record {
    addr_id = id;
    email = email;
    display_name = email;
    order = length acc.addresses + 1;
    status = status;
    addr_type = addr_type;
    keys = keys;
    allow_send = allow_send;
  }

  -- The keys of a new address: one, if it is asked for.
  unfoldable pub first_keys :
      Account → String → List ℕ → Bool → ℤ → Option (List ℕ) → String → M (List Key)
  unfolding ◌>>=◌ make_address_key
  first_keys acc email password with_key bits random key_id =
      if not with_key
      then pure []
      else do k ← make_address_key acc email password bits random key_id; pure (k ∷ [])

  -- The four exported forms fix `as_update`, `allow_send` and `bits`.
  unfoldable pub create_address :
      String
      → String
      → List ℕ
      → Bool
      → AddressStatus
      → ℕ
      → Bool
      → Bool
      → ℤ
      → Option (List ℕ)
      → String
      → String
      → M String
  unfolding ◌>>=◌ first_keys
  create_address user_id email password with_key status addr_type as_update allow_send bits random
        key_id id =
      with_acc_ret user_id λ p. do
        acc ← get_acc p
        keys ← first_keys acc email password with_key bits random key_id
        let addr = new_address acc email status addr_type keys allow_send id
        set_acc p (λ acc. record acc { addresses = insert id addr acc.addresses })
        post p (if as_update then address_updated id else address_created id)
        pure id

  -- The address is read through a pointer that may be nil.
  unfoldable pub create_address_key : String → String → List ℕ → Option (List ℕ) → String → M Unit
  unfolding ◌>>=◌ make_address_key edit_address
  create_address_key user_id id password random key_id = with_acc user_id λ p. do
    acc ← get_acc p
    or_fail crypto_failure random
    addr ← or_panic (lookup id acc.addresses)
    k ← make_address_key acc addr.email password (pos 2048) random key_id
    edit_address p id (λ a. record a { keys = a.keys ++ k ∷ [] })
    post p (address_updated id)

-- The keys without the first that has the id, if there is one.
unfoldable pub remove_key : String → List Key → Option (List Key)
remove_key id [] = none
remove_key id (k ∷ ks) =
    let rest = remove_key id ks in
    if k.key_id == id then some ks else elim rest [ none ↦ none | some ks' ↦ some (k ∷ ks') ]

unfoldable pub remove_address_key : String → String → String → M Unit
unfolding ◌>>=◌ remove_key edit_address
remove_address_key user_id id key_id = with_acc user_id λ p. do
  acc ← get_acc p
  addr ← or_panic (lookup id acc.addresses)
  kept ← or_fail no_such_key (remove_key key_id addr.keys)
  edit_address p id (λ a. record a { keys = kept })
  post p (address_updated id)
