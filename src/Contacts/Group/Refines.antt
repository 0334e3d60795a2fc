-- ===== src/Contacts/Group/Refines.antt =====
-- The methods of a group, as operations on the texts that a key has in a group.
use go_proton_api.Base.{
  false, Bool-cases, not, ◌&&◌, String, string_eq, str_iff, ◌==◌, Option, none, some, Option-cases,
  List, [], ◌∷◌, ◌++◌, ◌≡◌, refl, subst, inl, inr, filter, All, arith, if◌then◌else◌,
}
use go_proton_api.Base.Assoc.{lookup, lookup-AllValues, insert}
use go_proton_api.Contacts.Card.{
  CardTools, Vcard, Field, CardResult, value, CardError, no_such_key, fields_of, put_fields,
  and_then, or_error, decode, edit,
}
use go_proton_api.Contacts.Card.Codec.{CardLaws, IsWritable, KeepsNames, PlainField, decode-edit}
use go_proton_api.Contacts.Card.Writable.{
  fields_of-PlainField, filter-All, insert-IsWritable, put_fields-IsWritable, set_first-PlainField,
}
use go_proton_api.Contacts.Group.Texts.{
  texts, texts-entries, texts-append, set_head, texts-set_first, texts-set_first-none,
  texts-removed, texts-removed_all, texts-replaced, fields_of-insert, fields_of-put_fields,
}
use go_proton_api.Contacts.Group.{
  CardGroup, in_group, plain_field, set_first, edit_group, get, set, add, remove, remove_all,
}

-- What a method does to the texts of its key in its group.
pub data GroupOp : Type 0 where
  adds : String → String → List (String × List String) → GroupOp
  sets : String → String → List (String × List String) → GroupOp
  removes : String → String → GroupOp
  removes_all : String → GroupOp

abbrev pub key_of : GroupOp → String
key_of (adds key text params) = key
key_of (sets key text params) = key
key_of (removes key text) = key
key_of (removes_all key) = key

abbrev pub effect : GroupOp → List String → List String
effect (adds key text params) ts = ts ++ text ∷ []
effect (sets key text params) ts = set_head text ts
effect (removes key text) ts = filter (λ t. not (t == text)) ts
effect (removes_all key) ts = []

abbrev pub run_op : CardTools → GroupOp → CardGroup → Option CardError × CardGroup
run_op tools (adds key text params) g = add tools key text params g
run_op tools (sets key text params) g = set tools key text params g
run_op tools (removes key text) g = remove tools key text g
run_op tools (removes_all key) g = remove_all tools key g

-- What the method writes is plain: its text, and the group that a new field gets.
abbrev pub IsPlainOp : (String → Type 0) → String → GroupOp → Type 0
IsPlainOp IsPlain group (adds key text params) = IsPlain text × IsPlain group
IsPlainOp IsPlain group (sets key text params) = IsPlain text × IsPlain group
IsPlainOp IsPlain group (removes key text) = Unit
IsPlainOp IsPlain group (removes_all key) = Unit

-- The change of the decoded map.
abbrev pub change_of : CardTools → String → GroupOp → Vcard → CardResult Vcard
change_of tools group (adds key text params) dec =
    value (tools.add key (plain_field text group params) dec)
change_of tools group (sets key text params) dec =
    value (elim (set_first group text (fields_of key dec)) [
      | none ↦ tools.add key (plain_field text group params) dec
      | some fields ↦ insert key fields dec
    ])
change_of tools group (removes key text) dec =
    and_then (or_error no_such_key (lookup key dec)) (λ fields.
      value (put_fields key (filter (λ f. not (in_group group f && f.value == text)) fields) dec))
change_of tools group (removes_all key) dec =
    and_then (or_error no_such_key (lookup key dec))
      (λ fields. value (put_fields key (filter (λ f. not (in_group group f)) fields) dec))

module _ (tools : CardTools) {IsUpper IsPlain : String → Type 0}
    (laws : CardLaws tools IsUpper IsPlain) where
  fields_of-added :
      (k key : String) (f : Field) (dec : Vcard)
      → fields_of key (tools.add k f dec)
        ≡ (if k == key then fields_of k dec ++ f ∷ [] else fields_of key dec)
  fields_of-added k key f dec = elim (Bool-cases (k == key)) [
    | inl e ↦
        let same : k ≡ key = (str_iff k key).0 e in
        rw (laws.fields_of-add k key f dec, e, same) refl
    | inr e ↦ rw (laws.fields_of-add k key f dec, e) refl
  ]

  texts-change_of :
      (op : GroupOp) (group other key : String) (dec card : Vcard)
      → change_of tools group op dec ≡ value card
      → texts other (fields_of key card) ≡ (
          if key_of op == key && group == other
          then effect op (texts other (fields_of key dec))
          else texts other (fields_of key dec))
  texts-change_of (adds k text params) group other key dec card h =
      let f = plain_field text group params in
      let is_card : card ≡ tools.add k f dec = ground arith in
      texts-replaced (λ ts. ts ++ text ∷ []) k key group other dec card (fields_of k dec ++ f ∷ [])
        (rw is_card (fields_of-added k key f dec)) (texts-append other (fields_of k dec) f)
  texts-change_of (sets k text params) group other key dec card h =
      elim (Option-cases (set_first group text (fields_of k dec))) [
        | inl e ↦
            let f = plain_field text group params in
            let is_card : card ≡ tools.add k f dec = ground arith in
            let empty = texts-set_first-none group text (fields_of k dec) e in
            let appended = texts-append other (fields_of k dec) f in
            texts-replaced (set_head text) k key group other dec card (fields_of k dec ++ f ∷ [])
              (rw is_card (fields_of-added k key f dec)) (ground (arith, str_iff group other))
        | inr (fields, e) ↦
            let is_card : card ≡ insert k fields dec = ground arith in
            texts-replaced (set_head text) k key group other dec card fields
              (rw is_card (fields_of-insert k key fields dec))
              (texts-set_first group other text (fields_of k dec) fields e)
      ]
  texts-change_of (removes k text) group other key dec card h = elim (Option-cases (lookup k dec)) [
    | inl e ↦ absurd (ground arith)
    | inr (fields, e) ↦
        let kept = filter (λ f. not (in_group group f && f.value == text)) fields in
        let is_card : card ≡ put_fields k kept dec = ground arith in
        let held : fields_of k dec ≡ fields = rw e refl in
        texts-replaced (filter (λ t. not (t == text))) k key group other dec card kept
          (rw is_card (fields_of-put_fields k key kept dec))
          (rw held (texts-removed group other text fields))
  ]
  texts-change_of (removes_all k) group other key dec card h = elim (Option-cases (lookup k dec)) [
    | inl e ↦ absurd (ground arith)
    | inr (fields, e) ↦
        let kept = filter (λ f. not (in_group group f)) fields in
        let is_card : card ≡ put_fields k kept dec = ground arith in
        let held : fields_of k dec ≡ fields = rw e refl in
        texts-replaced (λ ts. []) k key group other dec card kept
          (rw is_card (fields_of-put_fields k key kept dec))
          (rw held (texts-removed_all group other fields))
  ]

  pub fields_of-change_of :
      (op : GroupOp) (group key : String) (dec card : Vcard)
      → (key_of op == key) ≡ false
      → change_of tools group op dec ≡ value card
      → fields_of key card ≡ fields_of key dec
  fields_of-change_of (adds k text params) group key dec card other h =
      let added = fields_of-added k key (plain_field text group params) dec in ground arith
  fields_of-change_of (sets k text params) group key dec card other h =
      elim (Option-cases (set_first group text (fields_of k dec))) [
        | inl e ↦
            let added = fields_of-added k key (plain_field text group params) dec in ground arith
        | inr (fields, e) ↦ let put = fields_of-insert k key fields dec in ground arith
      ]
  fields_of-change_of (removes k text) group key dec card other h =
      elim (Option-cases (lookup k dec)) [
        | inl e ↦ absurd (ground arith)
        | inr (fields, e) ↦
            let kept = filter (λ f. not (in_group group f && f.value == text)) fields in
            let put = fields_of-put_fields k key kept dec in ground arith
      ]
  fields_of-change_of (removes_all k) group key dec card other h =
      elim (Option-cases (lookup k dec)) [
        | inl e ↦ absurd (ground arith)
        | inr (fields, e) ↦
            let kept = filter (λ f. not (in_group group f)) fields in
            let put = fields_of-put_fields k key kept dec in ground arith
      ]

  pub change_of-KeepsNames :
      (op : GroupOp) (group : String)
      → IsUpper (key_of op)
      → IsPlainOp IsPlain group op
      → KeepsNames tools laws (change_of tools group op)
  change_of-KeepsNames (adds k text params) group upper plain dec card h names =
      let is_card : tools.add k (plain_field text group params) dec ≡ card = ground arith in
      subst (IsWritable tools IsUpper IsPlain) is_card
        (laws.add-IsWritable k (plain_field text group params) dec upper plain names)
  change_of-KeepsNames (sets k text params) group upper plain dec card h names =
      elim (Option-cases (set_first group text (fields_of k dec))) [
        | inl e ↦
            let is_card : tools.add k (plain_field text group params) dec ≡ card = ground arith in
            subst (IsWritable tools IsUpper IsPlain) is_card
              (laws.add-IsWritable k (plain_field text group params) dec upper plain names)
        | inr (fields, e) ↦
            let is_card : insert k fields dec ≡ card = ground arith in
            subst (IsWritable tools IsUpper IsPlain) is_card (
              insert-IsWritable tools IsUpper IsPlain k fields dec upper
                (set_first-PlainField IsPlain group text (fields_of k dec) fields plain.0
                  (fields_of-PlainField tools IsUpper IsPlain k dec names) e)
                names)
      ]
  change_of-KeepsNames (removes k text) group upper plain dec card h names =
      elim (Option-cases (lookup k dec)) [
        | inl e ↦ absurd (ground arith)
        | inr (fields, e) ↦
            let kept = filter (λ f. not (in_group group f && f.value == text)) fields in
            let is_card : put_fields k kept dec ≡ card = ground arith in
            subst (IsWritable tools IsUpper IsPlain) is_card (
              put_fields-IsWritable tools IsUpper IsPlain k kept dec upper
                (filter-All (PlainField IsPlain) _ fields
                  (lookup-AllValues (All (PlainField IsPlain)) k dec names.1 e))
                names)
      ]
  change_of-KeepsNames (removes_all k) group upper plain dec card h names =
      elim (Option-cases (lookup k dec)) [
        | inl e ↦ absurd (ground arith)
        | inr (fields, e) ↦
            let kept = filter (λ f. not (in_group group f)) fields in
            let is_card : put_fields k kept dec ≡ card = ground arith in
            subst (IsWritable tools IsUpper IsPlain) is_card (
              put_fields-IsWritable tools IsUpper IsPlain k kept dec upper
                (filter-All (PlainField IsPlain) _ fields
                  (lookup-AllValues (All (PlainField IsPlain)) k dec names.1 e))
                names)
      ]

  pub run_op-edit :
      (op : GroupOp) (g : CardGroup)
      → run_op tools op g ≡ (
        (edit tools (change_of tools g.group op) g.card).0,
        record g { card = (edit tools (change_of tools g.group op) g.card).1 },
      )
  unfolding add set remove remove_all edit_group
  run_op-edit (adds key text params) g = refl
  run_op-edit (sets key text params) g = refl
  run_op-edit (removes key text) g = refl
  run_op-edit (removes_all key) g = refl

  pub get-decode :
      (key : String) (g : CardGroup) (dec : Vcard)
      → decode tools g.card ≡ value dec
      → get tools key g ≡ value (texts g.group (fields_of key dec))
  unfolding get
  get-decode key g dec e = rw e refl

  -- A method of a group that succeeds, for a key in capitals other than VERSION, with a text and a group
  -- that go-vcard can write, changes the texts of its key in its group as a multimap does: `Add` appends,
  -- `Set` replaces the first text or adds it, `Remove` takes out every equal text and `RemoveAll` all of
  -- them. What any other such key, or any other group of the card, reads is unchanged. go-vcard and
  -- gopenpgp read back what they wrote of such keys and texts.
  pub run_op-effect :
      (op : GroupOp) (g g' : CardGroup) (key other : String) (ts : List String)
      → IsUpper (key_of op)
      → IsPlainOp IsPlain g.group op
      → IsUpper key
      → get tools key (record g { group = other }) ≡ value ts
      → run_op tools op g ≡ (none, g')
      → get tools key (record g' { group = other })
        ≡ value (if key_of op == key && g.group == other then effect op ts else ts)
  run_op-effect op g g' key other ts own plain upper before h =
      let ran = run_op-edit op g in
      let (dec, card, e, changed, rewritten) =
        decode-edit tools laws (change_of tools g.group op) g.card g'.card
          (change_of-KeepsNames op g.group own plain) (ground arith) in
      let (read, e', same, stays) = rewritten in
      let texts_before : texts other (fields_of key dec) ≡ ts =
        ground (arith, get-decode key (record g { group = other }) dec e) in
      rw
        (
          get-decode key (record g' { group = other }) read e',
          texts-entries other key read card (same key upper),
          texts-change_of op g.group other key dec card changed,
          texts_before,
        )
        refl
