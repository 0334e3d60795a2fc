-- ===== src/Contacts/Group.antt =====
-- The groups of a card in contact_card.go. A `CardGroup` holds a copy of its card.
pub mod Texts
pub mod Refines
pub mod Finds
use go_proton_api.Base.{
  Bool, true, false, not, ◌&&◌, String, string_eq, ◌==◌, Option, none, some, List, [], ◌∷◌, map,
  filter, if◌then◌else◌,
}
use go_proton_api.Base.Assoc.{option_map, lookup, insert}
use go_proton_api.Contacts.Card.{
  CardTools, Card, Vcard, Field, CardResult, value, error, CardError, no_such_key, no_such_field,
  and_then, or_error, fields_of, put_fields, decode, edit, card_get,
}

pub record CardGroup : Type 0 where
  pub card : Card
  pub group : String

abbrev pub in_group : String → Field → Bool
in_group group f = f.group == group

abbrev pub plain_field : String → String → List (String × List String) → Field
plain_field text group params = record { value = text; group = group; params = params }

unfoldable pub group_of : String → List Field → Option String
group_of text [] = none
group_of text (f ∷ fields) = if f.value == text then some f.group else group_of text fields

-- A write to the first field of the group.
unfoldable pub set_first : String → String → List Field → Option (List Field)
set_first group text [] = none
set_first group text (f ∷ fields) =
    if in_group group f
    then some (record f { value = text } ∷ fields)
    else option_map (λ rest. f ∷ rest) (set_first group text fields)

unfoldable pub without_group : String → Vcard → Vcard
without_group group [] = []
without_group group ((key, fields) ∷ dec) =
    let rest = without_group group dec in
    elim (filter (λ f. not (in_group group f)) fields) [
      | [] ↦ rest
      | f ∷ kept ↦ (key, f ∷ kept) ∷ rest
    ]

module _ (tools : CardTools) where
  unfoldable pub find_group : String → String → Card → CardResult String
  unfolding card_get group_of
  find_group key text c =
      and_then (card_get tools key c) (λ fields. or_error no_such_field (group_of text fields))

  unfoldable pub get_group : String → String → Card → CardResult CardGroup
  unfolding find_group
  get_group key text c =
      and_then (find_group key text c) (λ group. value (record { card = c; group = group }))

  abbrev removed_from : Card → CardResult String → Option CardError × Card
  removed_from c (value group) = edit tools (λ dec. value (without_group group dec)) c
  removed_from c (error e) = (some e, c)

  unfoldable pub delete_group : String → String → Card → Option CardError × Card
  unfolding find_group edit without_group
  delete_group key text c = removed_from c (find_group key text c)

  -- The methods of a group write to the card that it holds.
  unfoldable pub edit_group : (Vcard → CardResult Vcard) → CardGroup → Option CardError × CardGroup
  unfolding edit
  edit_group change g =
      let (failure, card) = edit tools change g.card in (failure, record g { card = card })

  unfoldable pub get : String → CardGroup → CardResult (List String)
  unfolding decode
  get key g =
      and_then (decode tools g.card)
        (λ dec. value (map (λ f. f.value) (filter (in_group g.group) (fields_of key dec))))

  unfoldable pub set :
      String → String → List (String × List String) → CardGroup → Option CardError × CardGroup
  unfolding edit_group set_first
  set key text params g =
      edit_group
        (λ dec. value (elim (set_first g.group text (fields_of key dec)) [
          | none ↦ tools.add key (plain_field text g.group params) dec
          | some fields ↦ insert key fields dec
        ]))
        g

  unfoldable pub add :
      String → String → List (String × List String) → CardGroup → Option CardError × CardGroup
  unfolding edit_group
  add key text params g =
      edit_group (λ dec. value (tools.add key (plain_field text g.group params) dec)) g

  unfoldable pub remove : String → String → CardGroup → Option CardError × CardGroup
  unfolding edit_group
  remove key text g =
      edit_group
        (λ dec. and_then (or_error no_such_key (lookup key dec)) (λ fields.
          value (
            put_fields key (filter (λ f. not (in_group g.group f && f.value == text)) fields) dec)))
        g

  unfoldable pub remove_all : String → CardGroup → Option CardError × CardGroup
  unfolding edit_group
  remove_all key g =
      edit_group
        (λ dec.
          and_then (or_error no_such_key (lookup key dec))
            (λ fields. value (put_fields key (filter (λ f. not (in_group g.group f)) fields) dec)))
        g
