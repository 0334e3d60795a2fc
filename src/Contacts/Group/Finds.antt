-- ===== src/Contacts/Group/Finds.antt =====
-- A method of a group leaves the fields of every other key, so the group is found again.
use go_proton_api.Base.{
  false, String, string_eq, ◌==◌, Option, none, some, List, [], ◌∷◌, ◌≡◌, refl, sym, ap, ◌∙◌, map,
  arith, if◌then◌else◌,
}
use go_proton_api.Contacts.Card.{CardTools, Vcard, Field, fields_of, card_get}
use go_proton_api.Contacts.Card.Codec.{CardLaws, Entry, entry, entries_of, decode-edit}
use go_proton_api.Contacts.Group.{CardGroup, group_of, find_group}
use go_proton_api.Contacts.Group.Refines.{
  GroupOp, IsPlainOp, key_of, run_op, run_op-edit, change_of, change_of-KeepsNames,
  fields_of-change_of,
}

abbrev first_group : String → List Entry → Option String
first_group text [] = none
first_group text (e ∷ entries) = if e.0 == text then some e.1 else first_group text entries

group_of-first_group :
    (text : String) (fields : List Field)
    → group_of text fields ≡ first_group text (map entry fields)
unfolding group_of
group_of-first_group text [] = refl
group_of-first_group text (f ∷ fields) = let rest = group_of-first_group text fields in ground arith

group_of-entries :
    (key text : String) (card card' : Vcard)
    → entries_of key card ≡ entries_of key card'
    → group_of text (fields_of key card) ≡ group_of text (fields_of key card')
group_of-entries key text card card' h =
    rw
      (
        group_of-first_group text (fields_of key card),
        group_of-first_group text (fields_of key card'),
        h,
      )
      refl

module _ (tools : CardTools) {IsUpper IsPlain : String → Type 0}
    (laws : CardLaws tools IsUpper IsPlain) where
  pub find_group-run_op :
      (op : GroupOp) (g g' : CardGroup) (key text : String)
      → IsUpper (key_of op)
      → IsPlainOp IsPlain g.group op
      → IsUpper key
      → (key_of op == key) ≡ false
      → run_op tools op g ≡ (none, g')
      → find_group tools key text g'.card ≡ find_group tools key text g.card
  unfolding find_group card_get
  find_group-run_op op g g' key text own plain upper other h =
      let ran = run_op-edit tools laws op g in
      let (dec, card, e, changed, rewritten) =
        decode-edit tools laws (change_of tools g.group op) g.card g'.card
          (change_of-KeepsNames tools laws op g.group own plain) (ground arith) in
      let (read, e', same, stays) = rewritten in
      rw
        (
          e,
          e',
          group_of-entries key text read card (same key upper),
          fields_of-change_of tools laws op g.group key dec card other changed,
        )
        refl

  pub run_op-group :
      (op : GroupOp) (g g' : CardGroup) → run_op tools op g ≡ (none, g') → g'.group ≡ g.group
  run_op-group op g g' h = sym (ap (λ r. r.1.group) (sym (run_op-edit tools laws op g) ∙ h))

  pub run_op-card_type :
      (op : GroupOp) (g g' : CardGroup)
      → IsUpper (key_of op)
      → IsPlainOp IsPlain g.group op
      → run_op tools op g ≡ (none, g')
      → g'.card.card_type ≡ g.card.card_type
  run_op-card_type op g g' own plain h =
      let ran = run_op-edit tools laws op g in
      let (dec, card, e, changed, rewritten) =
        decode-edit tools laws (change_of tools g.group op) g.card g'.card
          (change_of-KeepsNames tools laws op g.group own plain) (ground arith) in
      let (read, e', same, stays) = rewritten in stays
