-- ===== src/Contacts/Card/Codec.antt =====
-- What contact_card.go relies on in go-vcard and gopenpgp, and that a card reads back as it was encoded.
use go_proton_api.Base.{
  Bool, true, false, String, ◌==◌, string_eq, none, some, Option-cases, List, [], ◌∷◌, ◌++◌, ◌≡◌,
  refl, inl, inr, All, ◌⊎◌, map, ℕ, arith, if◌then◌else◌,
}
use go_proton_api.Base.Assoc.{AllKeys, AllValues}
use go_proton_api.Contacts.Card.{
  CardTools, Card, Vcard, Field, CardResult, value, error, CardError, fields_of, decode, encode,
  edit, signed, is_signed, opened, verified, seal,
}

-- A field without its parameters.
abbrev pub Entry : Type 0
Entry = String × String

abbrev pub entry : Field → Entry
entry f = (f.value, f.group)

abbrev pub entries_of : String → Vcard → List Entry
entries_of key card = map entry (fields_of key card)

-- The keys of a card: names in capitals that are not VERSION, for which `IsUpper` stands, and VERSION,
-- of which the encoder prints one field.
abbrev pub IsName : CardTools → (String → Type 0) → String → Type 0
IsName tools IsUpper key = IsUpper key ⊎ (key ≡ tools.version_field)

-- `IsPlain` stands for the texts that the encoder can write as a value or as a group.
abbrev pub PlainField : (String → Type 0) → Field → Type 0
PlainField IsPlain f = IsPlain f.value × IsPlain f.group

abbrev pub IsWritable : CardTools → (String → Type 0) → (String → Type 0) → Vcard → Type 0
IsWritable tools IsUpper IsPlain card =
    AllKeys (IsName tools IsUpper) card × AllValues (All (PlainField IsPlain)) card

-- The decoder puts keys in capitals. Where they are so before, and the values and groups are plain, it
-- gives back the fields that were encoded, except those of VERSION. `Add` appends to the fields of its
-- key. A text that was encrypted or signed can be decrypted and verified.
pub record CardLaws (tools : CardTools) (IsUpper IsPlain : String → Type 0) : Type 0 where
  pub fields_of-add :
      (key sought : String) (f : Field) (card : Vcard)
      → fields_of sought (tools.add key f card)
        ≡ (if key == sought then fields_of sought card ++ f ∷ [] else fields_of sought card)
  pub parse-print :
      (card : Vcard) (text : String)
      → IsWritable tools IsUpper IsPlain card
      → tools.print card ≡ some text
      → (read : Vcard) × (tools.parse text ≡ some read)
        × ((key : String) → IsUpper key → entries_of key read ≡ entries_of key card)
  pub parse-IsWritable :
      (text : String) (read : Vcard)
      → tools.parse text ≡ some read
      → IsWritable tools IsUpper IsPlain read
  pub add-IsWritable :
      (key : String) (f : Field) (card : Vcard)
      → IsUpper key
      → PlainField IsPlain f
      → IsWritable tools IsUpper IsPlain card
      → IsWritable tools IsUpper IsPlain (tools.add key f card)
  pub decrypt-encrypt :
      (text : String) (message : List ℕ)
      → tools.encrypt text ≡ some message
      → tools.decrypt message ≡ some text
  pub verify-sign :
      (text : String) (sig : List ℕ) → tools.sign text ≡ some sig → tools.verify text sig ≡ true
  pub unarmor_message-armor :
      (bytes : List ℕ)
      → (tools.armor_message bytes).1 ≡ true
      → tools.unarmor_message (tools.armor_message bytes).0 ≡ some bytes
  pub unarmor_signature-armor :
      (bytes : List ℕ)
      → (tools.armor_signature bytes).1 ≡ true
      → tools.unarmor_signature (tools.armor_signature bytes).0 ≡ some bytes

pub CardResult-cases :
    {A : Type 0} (r : CardResult A) → ((a : A) × (r ≡ value a)) ⊎ ((e : CardError) × (r ≡ error e))
CardResult-cases (value a) = inl (a, refl)
CardResult-cases (error e) = inr (e, refl)

module _ (tools : CardTools) {IsUpper IsPlain : String → Type 0}
    (laws : CardLaws tools IsUpper IsPlain) where
  opened-seal :
      (text : String) (c c' : Card)
      → seal tools text c ≡ (none, c')
      → (opened tools c' ≡ value text) × (c'.card_type ≡ c.card_type) × (c'.signature ≡ c.signature)
  unfolding seal opened
  opened-seal text c c' h = elim (Option-cases (tools.encrypt text)) [
    | inl e ↦ ground arith
    | inr (m, e) ↦ ground (arith, laws.decrypt-encrypt text m e, laws.unarmor_message-armor m)
  ]

  signed_armored :
      (text : String) (c c' : Card) (armored : String × Bool)
      → signed tools text c armored ≡ (none, c')
      → (armored.1 ≡ true) × (seal tools text (record c { signature = armored.0 }) ≡ (none, c'))
  signed_armored text c c' (signature, true) h = (refl, h)
  signed_armored text c c' (signature, false) h = absurd (ground arith)

  -- The card holds the text, and its type stays.
  verified-signed :
      (text : String) (c c' : Card) (sig : List ℕ)
      → tools.sign text ≡ some sig
      → is_signed c ≡ true
      → signed tools text c (tools.armor_signature sig) ≡ (none, c')
      → (opened tools c' ≡ value text)
        × (verified tools c' text ≡ value text)
        × (c'.card_type ≡ c.card_type)
  unfolding verified
  verified-signed text c c' sig e s h =
      let armored = signed_armored text c c' (tools.armor_signature sig) h in
      let whole =
        opened-seal text (record c { signature = (tools.armor_signature sig).0 }) c' armored.1 in
      let checks = laws.verify-sign text sig e in
      let reads = laws.unarmor_signature-armor sig armored.0 in ground arith

  encode-text :
      (card : Vcard) (c c' : Card) (text : String)
      → tools.print card ≡ some text
      → encode tools card c ≡ (none, c')
      → (opened tools c' ≡ value text)
        × (verified tools c' text ≡ value text)
        × (c'.card_type ≡ c.card_type)
  unfolding encode verified
  encode-text card c c' text p h = elim (Option-cases (tools.sign text)) [
    | inl e ↦ let whole = opened-seal text c c' in ground arith
    | inr (sig, e) ↦
        let whole = opened-seal text c c' in
        let sure = verified-signed text c c' sig e in ground arith
  ]

  -- A card that was encoded is decoded to a map with the same entries.
  abbrev pub Rewritten : Vcard → Card → Card → Type 0
  Rewritten card c c' =
      (read : Vcard) × (decode tools c' ≡ value read)
      × ((key : String) → IsUpper key → entries_of key read ≡ entries_of key card)
      × (c'.card_type ≡ c.card_type)

  pub decode-encode :
      (card : Vcard) (c c' : Card)
      → IsWritable tools IsUpper IsPlain card
      → encode tools card c ≡ (none, c')
      → Rewritten card c c'
  unfolding encode decode
  decode-encode card c c' names h = elim (Option-cases (tools.print card)) [
    | inl e ↦ absurd (ground arith)
    | inr (text, e) ↦
        let whole = encode-text card c c' text e h in
        let (read, reads, same) = laws.parse-print card text names e in
        (read, ground arith, same, whole.2)
  ]

  pub decode-IsWritable :
      (c : Card) (dec : Vcard) → decode tools c ≡ value dec → IsWritable tools IsUpper IsPlain dec
  unfolding decode
  decode-IsWritable c dec h = elim (CardResult-cases (opened tools c)) [
    | inr (failure, e) ↦ absurd (ground arith)
    | inl (content, e) ↦ elim (CardResult-cases (verified tools c content)) [
      | inr (failure, f) ↦ absurd (ground arith)
      | inl (text, f) ↦ laws.parse-IsWritable text dec (ground arith)
    ]
  ]

  -- A change that keeps the keys in capitals.
  abbrev pub KeepsNames : (Vcard → CardResult Vcard) → Type 0
  KeepsNames change =
      (dec card : Vcard)
      → change dec ≡ value card
      → IsWritable tools IsUpper IsPlain dec
      → IsWritable tools IsUpper IsPlain card

  -- A method that succeeds has decoded the card, changed it, and encoded the change.
  pub decode-edit :
      (change : Vcard → CardResult Vcard) (c c' : Card)
      → KeepsNames change
      → edit tools change c ≡ (none, c')
      → (dec card : Vcard) × (decode tools c ≡ value dec)
        × (change dec ≡ value card)
        × Rewritten card c c'
  unfolding edit
  decode-edit change c c' keeps h = elim (CardResult-cases (decode tools c)) [
    | inl (dec, e) ↦ elim (CardResult-cases (change dec)) [
      | inl (card, changed) ↦ (
        dec,
        card,
        e,
        changed,
        decode-encode card c c' (keeps dec card changed (decode-IsWritable c dec e)) (ground arith),
      )
      | inr (failure, changed) ↦ absurd (ground arith)
    ]
    | inr (failure, e) ↦ absurd (ground arith)
  ]
