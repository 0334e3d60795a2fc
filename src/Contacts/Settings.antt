-- ===== src/Contacts/Settings.antt =====
-- `GetSettings` and `SetSettings` of contact_types.go: the settings of an address, which are kept in the
-- group of its address in a card.
pub mod Written
pub mod Texts
pub mod Names
pub mod Stored
pub mod RoundTrip
use Prim.Native.Char.{code}
use go_proton_api.Base.{
  ℕ, nat_eq, Bool, true, false, ◌||◌, String, string_eq, ◌==◌, Option, none, some, List, [], ◌∷◌,
  ◌++◌, any, if◌then◌else◌,
}
use go_proton_api.Base.Assoc.{option_map}
use go_proton_api.Contacts.Card.{
  CardTools, Card, CardError, CardResult, value, error, no_such_card, bad_bool, bad_base64, bad_key,
  and_then, or_error, get_card, put_card,
}
use go_proton_api.Contacts.Group.{CardGroup, get_group, get, set}

-- `EncryptionScheme`; an `unnamed_scheme` is a number that is none of its constants.
pub data EncryptionScheme : Type 0 where
  internal_scheme encrypted_outside_scheme clear_scheme : EncryptionScheme
  pgp_inline_scheme pgp_mime_scheme clear_mime_scheme : EncryptionScheme
  unnamed_scheme : ℕ → EncryptionScheme

pub record ContactSettings (Key : Type 0) : Type 0 where
  pub mime_type : Option String
  pub scheme : Option EncryptionScheme
  pub sign : Option Bool
  pub encrypt : Option Bool
  pub encrypt_untrusted : Option Bool
  pub keys : List Key

-- The keys of gopenpgp, the base64 of texts, and the five MIME types that are written.
pub record KeyTools (Key : Type 0) : Type 0 where
  pub serialize : Key → Option (List ℕ)
  pub new_key : List ℕ → Option Key
  pub encode64 : List ℕ → String
  pub decode64 : String → Option (List ℕ)
  pub mime_types : List String

abbrev pub pm_scheme : String
pm_scheme = "X-PM-SCHEME"

abbrev pub pm_sign : String
pm_sign = "X-PM-SIGN"

abbrev pub pm_encrypt : String
pm_encrypt = "X-PM-ENCRYPT"

abbrev pub pm_encrypt_untrusted : String
pm_encrypt_untrusted = "X-PM-ENCRYPT-UNTRUSTED"

abbrev pub pm_mime_type : String
pm_mime_type = "X-PM-MIMETYPE"

-- `strconv.ParseBool`.
unfoldable pub parse_bool : String → Option Bool
parse_bool s =
    if any (λ t. s == t) ("1" ∷ "t" ∷ "T" ∷ "true" ∷ "TRUE" ∷ "True" ∷ [])
    then some true
    else if any (λ t. s == t) ("0" ∷ "f" ∷ "F" ∷ "false" ∷ "FALSE" ∷ "False" ∷ [])
    then some false
    else none

abbrev pub bool_text : Bool → String
bool_text true = "true"
bool_text false = "false"

-- `strings.SplitN(key, ",", 2)[1]`; without a comma the index is out of range.
unfoldable pub after_comma : String → Option String
after_comma String.[] = none
after_comma (String.◌∷◌ c s) = if code c == 44 then some s else after_comma s

abbrev pub with_prefix : String → String → String
with_prefix String.[] t = t
with_prefix (String.◌∷◌ c s) t = String.◌∷◌ c (with_prefix s t)

abbrev pub first : List String → Option String
first [] = none
first (t ∷ ts) = some t

unfoldable pub scheme_of : Option String → Option EncryptionScheme
scheme_of none = none
scheme_of (some t) =
    if t == "pgp-inline"
    then some pgp_inline_scheme
    else if t == "pgp-mime"
    then some pgp_mime_scheme
    else none

unfoldable pub bool_of : Option String → CardResult (Option Bool)
unfolding parse_bool
bool_of none = value none
bool_of (some t) = and_then (or_error bad_bool (parse_bool t)) (λ b. value (some b))

-- The scheme, MIME type and key texts that are written; other values are skipped.
abbrev pub scheme_text : Option EncryptionScheme → Option String
scheme_text (some pgp_inline_scheme) = some "pgp-inline"
scheme_text (some pgp_mime_scheme) = some "pgp-mime"
scheme_text _ = none

-- The writes in the order of the code; an error ends them.
unfoldable pub set_all :
    CardTools → List (String × Option String) → CardGroup → Option CardError × CardGroup
unfolding set
set_all tools [] g = (none, g)
set_all tools ((key, none) ∷ writes) g = set_all tools writes g
set_all tools ((key, some t) ∷ writes) g =
    let (failure, g') = set tools key t [] g in
    elim failure [ none ↦ set_all tools writes g' | some e ↦ (some e, g') ]

unfoldable pub read_first : CardTools → String → CardGroup → CardResult (Option String)
unfolding get
read_first tools key g = and_then (get tools key g) (λ ts. value (first ts))

module _ {Key : Type 0} where
  abbrev pub empty_settings : ContactSettings Key
  empty_settings = record {
    mime_type = none;
    scheme = none;
    sign = none;
    encrypt = none;
    encrypt_untrusted = none;
    keys = [];
  }

  unfoldable pub set_mime_type : String → ContactSettings Key → ContactSettings Key
  set_mime_type m cs = record cs { mime_type = some m }

  unfoldable pub set_scheme : EncryptionScheme → ContactSettings Key → ContactSettings Key
  set_scheme s cs = record cs { scheme = some s }

  unfoldable pub set_sign : Bool → ContactSettings Key → ContactSettings Key
  set_sign b cs = record cs { sign = some b }

  unfoldable pub set_encrypt : Bool → ContactSettings Key → ContactSettings Key
  set_encrypt b cs = record cs { encrypt = some b }

  unfoldable pub set_encrypt_untrusted : Bool → ContactSettings Key → ContactSettings Key
  set_encrypt_untrusted b cs = record cs { encrypt_untrusted = some b }

  unfoldable pub add_key : Key → ContactSettings Key → ContactSettings Key
  add_key k cs = record cs { keys = cs.keys ++ k ∷ [] }

abbrev pub bytes_of : Option (List ℕ) → List ℕ
bytes_of none = []
bytes_of (some bytes) = bytes

module _ {Key : Type 0} (kt : KeyTools Key) where
  abbrev pub mime_text : Option String → Option String
  mime_text none = none
  mime_text (some m) = if any (λ t. m == t) kt.mime_types then some m else none

  abbrev more_keys : List Key → List ℕ
  more_keys [] = []
  more_keys (k ∷ keys) = 44 ∷ bytes_of (kt.serialize k) ++ more_keys keys

  abbrev pub keys_text : List Key → Option String
  keys_text [] = none
  keys_text (k ∷ keys) =
      some (with_prefix "base64," (kt.encode64 (bytes_of (kt.serialize k) ++ more_keys keys)))

  -- `none` is a panic.
  unfoldable pub read_keys : List String → Option (CardResult (List Key))
  unfolding after_comma
  read_keys [] = some (value [])
  read_keys (t ∷ ts) =
      let rest = read_keys ts in
      elim (after_comma t) [
        | none ↦ none
        | some enc ↦
            elim (and_then (or_error bad_base64 (kt.decode64 enc))
              (λ b. or_error bad_key (kt.new_key b))) [
                | error e ↦ some (error e)
                | value k ↦ option_map (λ r. and_then r (λ ks. value (k ∷ ks))) rest
              ]
      ]

  module _ (tools : CardTools) where
    -- The settings before the keys.
    unfoldable pub read_flags : CardGroup → CardResult (ContactSettings Key)
    unfolding read_first scheme_of bool_of
    read_flags g = and_then (read_first tools pm_scheme g) (λ scheme.
        and_then (read_first tools pm_mime_type g) (λ mime_type.
          and_then (and_then (read_first tools pm_sign g) bool_of) (λ sign.
            and_then (and_then (read_first tools pm_encrypt g) bool_of) (λ encrypt.
              and_then (and_then (read_first tools pm_encrypt_untrusted g) bool_of) (λ untrusted.
                value (record {
                  mime_type = mime_type;
                  scheme = scheme_of scheme;
                  sign = sign;
                  encrypt = encrypt;
                  encrypt_untrusted = untrusted;
                  keys = [];
                }))))))

    abbrev pub with_keys :
        ContactSettings Key → CardResult (List Key) → CardResult (ContactSettings Key)
    with_keys cs keys = and_then keys (λ ks. value (record cs { keys = ks }))

    abbrev pub finish :
        CardResult (ContactSettings Key)
        → CardResult (List String)
        → Option (CardResult (ContactSettings Key))
    finish (error e) texts = some (error e)
    finish (value cs) (error e) = some (error e)
    finish (value cs) (value ts) = option_map (with_keys cs) (read_keys ts)

    unfoldable pub read_settings : CardGroup → Option (CardResult (ContactSettings Key))
    unfolding read_flags get read_keys
    read_settings g = finish (read_flags g) (get tools tools.key_field g)

    unfoldable pub get_settings : String → ℕ → List Card → Option (CardResult (ContactSettings Key))
    unfolding get_card get_group read_settings
    get_settings email card_type cards = elim (get_card card_type cards) [
      | none ↦ some (value empty_settings)
      | some c ↦ elim (get_group tools tools.email_field email c) [
        | error e ↦ some (value empty_settings)
        | value g ↦ read_settings g
      ]
    ]

    abbrev pub writes : ContactSettings Key → List (String × Option String)
    writes cs =
        (pm_scheme, scheme_text cs.scheme)
        ∷ (pm_mime_type, mime_text cs.mime_type)
        ∷ (pm_sign, option_map bool_text cs.sign)
        ∷ (pm_encrypt, option_map bool_text cs.encrypt)
        ∷ (pm_encrypt_untrusted, option_map bool_text cs.encrypt_untrusted)
        ∷ (tools.key_field, keys_text cs.keys)
        ∷ []

    -- The card is written back at the end; without the group nothing is written.
    unfoldable pub set_settings :
        String → ℕ → ContactSettings Key → List Card → Option CardError × List Card
    unfolding get_card get_group set_all put_card
    set_settings email card_type cs cards = elim (get_card card_type cards) [
      | none ↦ (some no_such_card, cards)
      | some c ↦ elim (get_group tools tools.email_field email c) [
        | error e ↦ (none, cards)
        | value g ↦
            let (failure, g') = set_all tools (writes cs) g in
            elim failure [
              | none ↦ (none, put_card card_type g'.card cards)
              | some e ↦ (some e, cards)
            ]
      ]
    ]
