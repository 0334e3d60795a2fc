-- ===== src/Contacts/Card.antt =====
-- `Cards` and `Card` of contact_card.go. What go-vcard and gopenpgp do is a record of functions; a value
-- that the code reads through a pointer is given with the map that a write through it leaves.
pub mod Codec
pub mod Writable
use go_proton_api.Base.{
  ℕ, Bool, true, false, String, string_eq, ◌==◌, nat_eq, not, bit_and, Option, none, some, List, [],
  ◌∷◌, ◌++◌, if◌then◌else◌,
}
use go_proton_api.Base.Assoc.{Assoc, lookup, insert, delete}

-- `vcard.Field` and `vcard.Card`.
pub record Field : Type 0 where
  pub value : String
  pub params : List (String × List String)
  pub group : String

abbrev pub Vcard : Type 0
Vcard = Assoc String (List Field)

-- `add`, `add_value` and `get` are the methods of `vcard.Card`, `parse` and `print` its decoder and
-- encoder; an armored text comes with whether armoring succeeded.
pub record CardTools : Type 0 where
  pub add : String → Field → Vcard → Vcard
  pub add_value : String → String → Vcard → Vcard
  pub get : String → Vcard → Option (Field × (Field → Vcard))
  pub parse : String → Option Vcard
  pub print : Vcard → Option String
  pub unarmor_message : String → Option (List ℕ)
  pub decrypt : List ℕ → Option String
  pub unarmor_signature : String → Option (List ℕ)
  pub verify : String → List ℕ → Bool
  pub sign : String → Option (List ℕ)
  pub armor_signature : List ℕ → String × Bool
  pub encrypt : String → Option (List ℕ)
  pub armor_message : List ℕ → String × Bool
  pub version_field : String
  pub email_field : String
  pub key_field : String

pub data CardError : Type 0 where
  armor_error decrypt_error verify_error parse_error : CardError
  print_error sign_error encrypt_error : CardError
  no_such_key no_such_field no_such_card bad_bool bad_base64 bad_key : CardError

pub data CardResult (A : Type 0) : Type 0 where
  value : A → CardResult A
  error : CardError → CardResult A

abbrev pub and_then : {A B : Type 0} → CardResult A → (A → CardResult B) → CardResult B
and_then (value a) f = f a
and_then (error e) f = error e

abbrev pub or_error : {A : Type 0} → CardError → Option A → CardResult A
or_error e none = error e
or_error e (some a) = value a

-- `Type` is a number whose bits say whether the card is encrypted and signed.
pub record Card : Type 0 where
  pub card_type : ℕ
  pub content : String
  pub signature : String

abbrev pub card_type_encrypted : ℕ
card_type_encrypted = 1

abbrev pub card_type_signed : ℕ
card_type_signed = 2

abbrev pub is_encrypted : Card → Bool
is_encrypted c = not (bit_and c.card_type card_type_encrypted == 0)

abbrev pub is_signed : Card → Bool
is_signed c = not (bit_and c.card_type card_type_signed == 0)

-- The values of a key, which are none where the map has no entry.
abbrev pub or_empty : Option (List Field) → List Field
or_empty none = []
or_empty (some fields) = fields

abbrev pub fields_of : String → Vcard → List Field
fields_of key card = or_empty (lookup key card)

-- A `delete` where the list that is written back would be empty.
abbrev pub put_fields : String → List Field → Vcard → Vcard
put_fields key [] card = delete key card
put_fields key (f ∷ fields) card = insert key (f ∷ fields) card

module _ (tools : CardTools) where
  -- The text of an encrypted card.
  unfoldable pub opened : Card → CardResult String
  opened c =
      if is_encrypted c
      then and_then (or_error armor_error (tools.unarmor_message c.content))
          (λ message. or_error decrypt_error (tools.decrypt message))
      else value c.content

  unfoldable pub verified : Card → String → CardResult String
  verified c text =
      if is_signed c
      then and_then (or_error armor_error (tools.unarmor_signature c.signature))
          (λ sig. if tools.verify text sig then value text else error verify_error)
      else value text

  unfoldable pub decode : Card → CardResult Vcard
  unfolding opened verified
  decode c =
      and_then (opened c)
        (λ content. and_then (verified c content) (λ text. or_error parse_error (tools.parse text)))

  abbrev pub sealed : Card → String × Bool → Option CardError × Card
  sealed c (text, ok) = (if ok then none else some armor_error, record c { content = text })

  -- The end of `encode`, after the signature.
  unfoldable pub seal : String → Card → Option CardError × Card
  seal text c =
      if is_encrypted c
      then elim (tools.encrypt text) [
        | none ↦ (some encrypt_error, c)
        | some message ↦ sealed c (tools.armor_message message)
      ]
      else (none, record c { content = text })

  abbrev pub signed : String → Card → String × Bool → Option CardError × Card
  signed text c (signature, ok) =
      let c' = record c { signature = signature } in
      if ok then seal text c' else (some armor_error, c')

  -- An error leaves what was written to the card before it.
  unfoldable pub encode : Vcard → Card → Option CardError × Card
  unfolding seal
  encode card c = elim (tools.print card) [
    | none ↦ (some print_error, c)
    | some text ↦
        if is_signed c
        then elim (tools.sign text) [
          | none ↦ (some sign_error, c)
          | some sig ↦ signed text c (tools.armor_signature sig)
        ]
        else seal text c
  ]

  -- The methods that decode the card, change it and encode it again.
  abbrev pub written : Card → CardResult Vcard → Option CardError × Card
  written c (value card) = encode card c
  written c (error e) = (some e, c)

  unfoldable pub edit : (Vcard → CardResult Vcard) → Card → Option CardError × Card
  unfolding decode encode
  edit change c = written c (and_then (decode c) change)

  unfoldable pub new_vcard : Vcard
  new_vcard = tools.add_value tools.version_field "4.0" []

  unfoldable pub new_card : ℕ → Option CardError × Card
  unfolding encode new_vcard
  new_card card_type =
      encode new_vcard (record { card_type = card_type; content = ""; signature = "" })

  unfoldable pub card_get : String → Card → CardResult (List Field)
  unfolding decode
  card_get key c = and_then (decode c) (λ dec. value (fields_of key dec))

  unfoldable pub card_set : String → Field → Card → Option CardError × Card
  unfolding edit
  card_set key field = edit (λ dec. value (elim (tools.get key dec) [
    | none ↦ tools.add key field dec
    | some (old, write) ↦ write field
  ]))

  unfoldable pub card_add : String → Field → Card → Option CardError × Card
  unfolding edit
  card_add key field = edit (λ dec. value (tools.add key field dec))

  abbrev pub retyped : ℕ → Card → CardResult Vcard → Option CardError × Card
  retyped card_type c (value dec) = encode dec (record c { card_type = card_type })
  retyped card_type c (error e) = (some e, c)

  unfoldable pub change_type : ℕ → Card → Option CardError × Card
  unfolding decode encode
  change_type card_type c = retyped card_type c (decode c)

  -- `Cards`.
  unfoldable pub add_fields : String → List Field → Vcard → Vcard
  add_fields key [] card = card
  add_fields key (f ∷ fields) card = add_fields key fields (tools.add key f card)

  unfoldable pub add_entries : Vcard → Vcard → Vcard
  unfolding add_fields
  add_entries [] card = card
  add_entries ((key, fields) ∷ dec) card = add_entries dec (add_fields key fields card)

  unfoldable pub merge_into : List Card → Vcard → CardResult Vcard
  unfolding decode add_entries
  merge_into [] merged = value merged
  merge_into (c ∷ cards) merged =
      and_then (decode c) (λ dec. merge_into cards (add_entries dec merged))

  unfoldable pub merge : List Card → CardResult Vcard
  unfolding merge_into new_vcard
  merge cards = merge_into cards new_vcard

unfoldable pub get_card : ℕ → List Card → Option Card
get_card card_type [] = none
get_card card_type (c ∷ cards) =
    if c.card_type == card_type then some c else get_card card_type cards

-- A write through the pointer that `get_card` gives.
unfoldable pub put_card : ℕ → Card → List Card → List Card
put_card card_type new [] = []
put_card card_type new (c ∷ cards) =
    if c.card_type == card_type then new ∷ cards else c ∷ put_card card_type new cards
