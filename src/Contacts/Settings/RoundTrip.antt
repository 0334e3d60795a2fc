-- ===== src/Contacts/Settings/RoundTrip.antt =====
-- Settings are read back as they were written.
use go_proton_api.Base.{
  ℕ, nat_eq, nat_beq_iff, String, string_eq, none, some, Option-cases, List, [], ◌∷◌, ◌≡◌, refl,
  sym, ap, ◌∙◌, inl, inr, arith,
}
use go_proton_api.Contacts.Card.{
  CardTools, Card, card_get, Vcard, decode, fields_of, value, get_card, put_card,
}
use go_proton_api.Contacts.Card.Codec.{CardLaws, CardResult-cases, decode-IsWritable}
use go_proton_api.Contacts.Card.Writable.{fields_of-PlainField, group_of-IsPlain}
use go_proton_api.Contacts.Group.{CardGroup, find_group, get_group}
use go_proton_api.Contacts.Settings.{
  ContactSettings, KeyTools, read_settings, get_settings, set_settings, set_all, writes,
}
use go_proton_api.Contacts.Settings.Texts.{KeyLaws, NameLaws, TextLaws, OneKey, override}
use go_proton_api.Contacts.Settings.Stored.{read_settings-new}
use go_proton_api.Contacts.Settings.Names.{own_names}
use go_proton_api.Contacts.Settings.Written.{group-set_all, find_group-set_all}

pub get_card-put_card :
    (card_type : ℕ) (c new : Card) (cards : List Card)
    → get_card card_type cards ≡ some c
    → new.card_type ≡ c.card_type
    → get_card card_type (put_card card_type new cards) ≡ some new
unfolding get_card put_card
get_card-put_card card_type c new [] h same = absurd (ground arith)
get_card-put_card card_type c new (d ∷ cards) h same =
    let rest = get_card-put_card card_type c new cards in
    ground (arith, nat_beq_iff d.card_type card_type, nat_beq_iff new.card_type card_type)

module _ {Key : Type 0} (kt : KeyTools Key) (tools : CardTools) {IsUpper IsPlain : String → Type 0}
    (laws : CardLaws tools IsUpper IsPlain) (key_laws : KeyLaws kt) (names : NameLaws tools IsUpper)
    (plain : TextLaws kt IsPlain) where
  set_settings-ran :
      (email : String) (card_type : ℕ) (new : ContactSettings Key) (cards cards' : List Card)
      (c : Card) (group : String)
      → get_card card_type cards ≡ some c
      → find_group tools tools.email_field email c ≡ value group
      → set_settings kt tools email card_type new cards ≡ (none, cards')
      → (g' : CardGroup) × (set_all tools (writes kt tools new) (record { card = c; group = group })
          ≡ (none, g'))
        × (cards' ≡ put_card card_type g'.card cards)
  unfolding set_settings get_group
  set_settings-ran email card_type new cards cards' c group held found h =
      let set = set_all tools (writes kt tools new) (record { card = c; group = group }) in
      elim (Option-cases set.0) [
        | inl e ↦ (set.1, ground arith, ground arith)
        | inr (failure, e) ↦ absurd (ground arith)
      ]

  get_settings-read_settings :
      (email : String) (card_type : ℕ) (cards : List Card) (c : Card) (group : String)
      → get_card card_type cards ≡ some c
      → find_group tools tools.email_field email c ≡ value group
      → get_settings kt tools email card_type cards
        ≡ read_settings kt tools (record { card = c; group = group })
  unfolding get_settings get_group
  get_settings-read_settings email card_type cards c group held found =
      rw (get_settings, held, get_group, found) refl

  found-decode :
      (key text group : String) (c : Card)
      → find_group tools key text c ≡ value group
      → (dec : Vcard) × (decode tools c ≡ value dec)
  unfolding find_group card_get
  found-decode key text group c found = elim (CardResult-cases (decode tools c)) [
    | inl (dec, e) ↦ (dec, e)
    | inr (failure, e) ↦ absurd (ground arith)
  ]

  -- The group of a decoded card is one that can be written again.
  found-IsPlain :
      (key text group : String) (c : Card)
      → find_group tools key text c ≡ value group
      → IsPlain group
  unfolding find_group card_get
  found-IsPlain key text group c found =
      let (dec, e) = found-decode key text group c found in
      group_of-IsPlain IsPlain text group (fields_of key dec)
        (fields_of-PlainField tools IsUpper IsPlain key dec (decode-IsWritable tools laws c dec e))
        (ground arith)

  -- When `SetSettings` succeeds on a card in which the group of the address is found, `GetSettings` gives the settings that were set, and the old ones where the argument gives none: a MIME type that is none of the five and a scheme that is neither of PGP are not written. There is at most one key among the new settings, and it takes the place of the first. go-vcard, gopenpgp and base64 read back what they wrote, the texts of settings are among those that go-vcard can write, and the names of the fields are in capitals and apart.
  pub get_settings-set_settings :
      (email : String) (card_type : ℕ) (new old : ContactSettings Key) (cards cards' : List Card)
      (c : Card) (group : String)
      → OneKey kt new.keys
      → get_card card_type cards ≡ some c
      → find_group tools tools.email_field email c ≡ value group
      → get_settings kt tools email card_type cards ≡ some (value old)
      → set_settings kt tools email card_type new cards ≡ (none, cards')
      → get_settings kt tools email card_type cards' ≡ some (value (override kt new old))
  get_settings-set_settings email card_type new old cards cards' c group one held found before h =
      let g : CardGroup = record { card = c; group = group } in
      let (g', ran, is_put) =
        set_settings-ran email card_type new cards cards' c group held found h in
      let own = own_names kt tools names plain new in
      let in_plain = found-IsPlain tools.email_field email group c found in
      let kept = group-set_all tools laws (writes kt tools new) g g' own in_plain ran in
      let (dec, e) = found-decode tools.email_field email group c found in
      let found_again =
        find_group-set_all tools laws (writes kt tools new) g g' tools.email_field email
          names.email_upper
          (
            names.email_other.0,
            (
              names.email_other.1.0,
              (
                names.email_other.1.1.0,
                (
                  names.email_other.1.1.1.0,
                  (names.email_other.1.1.1.1.0, (names.key_not_email, tt)),
                ),
              ),
            ),
          )
          own in_plain ran
        ∙ found in
      let held_again = get_card-put_card card_type c g'.card cards held kept.1 in
      let read_before =
        sym (get_settings-read_settings email card_type cards c group held found) ∙ before in
      let read_after =
        read_settings-new kt tools laws key_laws names plain new g g' dec e in_plain ran old one
          read_before in
      let same_group : group ≡ g'.group = sym kept.0 in
      rw is_put (
        get_settings-read_settings email card_type (put_card card_type g'.card cards) g'.card group
          held_again found_again
        ∙ ap (λ name. read_settings kt tools (record g' { group = name })) same_group
        ∙ read_after)
