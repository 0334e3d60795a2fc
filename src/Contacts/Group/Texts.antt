-- ===== src/Contacts/Group/Texts.antt =====
-- The texts that a key has in a group, and what the changes of a map do to them.
use go_proton_api.Base.{
  Bool-cases, not, ◌&&◌, String, string_eq, str_iff, ◌==◌, none, some, Option-cases, List, [], ◌∷◌,
  ◌++◌, ◌≡◌, refl, inl, inr, map, filter, arith, if◌then◌else◌,
}
use go_proton_api.Base.Assoc.{insert, lookup-insert, lookup-delete}
use go_proton_api.Contacts.Card.{Vcard, Field, fields_of, put_fields}
use go_proton_api.Contacts.Card.Codec.{Entry, entry, entries_of}
use go_proton_api.Contacts.Group.{in_group, set_first}

-- The texts of the fields that are in a group.
abbrev pub texts : String → List Field → List String
texts group fields = map (λ f. f.value) (filter (in_group group) fields)

abbrev pick : String → List Entry → List String
pick group [] = []
pick group (e ∷ entries) =
    let rest = pick group entries in if e.1 == group then e.0 ∷ rest else rest

texts-pick :
    (group : String) (fields : List Field) → texts group fields ≡ pick group (map entry fields)
unfolding filter
texts-pick group [] = refl
texts-pick group (f ∷ fields) = let rest = texts-pick group fields in ground arith

pub texts-entries :
    (group key : String) (card card' : Vcard)
    → entries_of key card ≡ entries_of key card'
    → texts group (fields_of key card) ≡ texts group (fields_of key card')
texts-entries group key card card' h =
    rw (texts-pick group (fields_of key card), texts-pick group (fields_of key card'), h) refl

pub fields_of-insert :
    (key sought : String) (fields : List Field) (card : Vcard)
    → fields_of sought (insert key fields card)
      ≡ (if key == sought then fields else fields_of sought card)
fields_of-insert key sought fields card = rw (lookup-insert key sought fields card) (ground arith)

pub fields_of-put_fields :
    (key sought : String) (fields : List Field) (card : Vcard)
    → fields_of sought (put_fields key fields card)
      ≡ (if key == sought then fields else fields_of sought card)
fields_of-put_fields key sought [] card = rw (lookup-delete key sought card) (ground arith)
fields_of-put_fields key sought (f ∷ fields) card = fields_of-insert key sought (f ∷ fields) card

pub texts-append :
    (group : String) (fields : List Field) (f : Field)
    → texts group (fields ++ f ∷ [])
      ≡ (if f.group == group then texts group fields ++ f.value ∷ [] else texts group fields)
unfolding filter
texts-append group [] f = ground arith
texts-append group (g ∷ fields) f = let rest = texts-append group fields f in ground arith

abbrev pub set_head : String → List String → List String
set_head text [] = text ∷ []
set_head text (t ∷ ts) = text ∷ ts

pub texts-set_first :
    (group other text : String) (fields changed : List Field)
    → set_first group text fields ≡ some changed
    → texts other changed
      ≡ (if group == other then set_head text (texts other fields) else texts other fields)
unfolding filter set_first
texts-set_first group other text [] changed h = absurd (ground arith)
texts-set_first group other text (f ∷ fields) changed h =
    elim (Option-cases (set_first group text fields)) [
      | inl e ↦ ground (arith, str_iff group other, str_iff f.group group, str_iff f.group other)
      | inr (rest, e) ↦
          let later = texts-set_first group other text fields rest e in
          ground (arith, str_iff group other, str_iff f.group group, str_iff f.group other)
    ]

pub texts-set_first-none :
    (group text : String) (fields : List Field)
    → set_first group text fields ≡ none
    → texts group fields ≡ []
unfolding filter set_first
texts-set_first-none group text [] h = refl
texts-set_first-none group text (f ∷ fields) h =
    let rest = texts-set_first-none group text fields in ground arith

pub texts-removed :
    (group other text : String) (fields : List Field)
    → texts other (filter (λ f. not (in_group group f && f.value == text)) fields) ≡ (
        if group == other
        then filter (λ t. not (t == text)) (texts other fields)
        else texts other fields)
unfolding filter
texts-removed group other text [] = ground arith
texts-removed group other text (f ∷ fields) =
    let rest = texts-removed group other text fields in
    ground (arith, str_iff group other, str_iff f.group group, str_iff f.group other)

pub texts-removed_all :
    (group other : String) (fields : List Field)
    → texts other (filter (λ f. not (in_group group f)) fields)
      ≡ (if group == other then [] else texts other fields)
unfolding filter
texts-removed_all group other [] = ground arith
texts-removed_all group other (f ∷ fields) =
    let rest = texts-removed_all group other fields in
    ground (arith, str_iff group other, str_iff f.group group, str_iff f.group other)

-- The fields of one key were replaced.
pub texts-replaced :
    (f : List String → List String) (k key group other : String) (dec card : Vcard)
    (fields : List Field)
    → fields_of key card ≡ (if k == key then fields else fields_of key dec)
    → texts other fields ≡ (
        if group == other then f (texts other (fields_of k dec)) else texts other (fields_of k dec))
    → texts other (fields_of key card) ≡ (
        if k == key && group == other
        then f (texts other (fields_of key dec))
        else texts other (fields_of key dec))
texts-replaced f k key group other dec card fields at_key at_group = elim (Bool-cases (k == key)) [
  | inl e ↦
      let same : k ≡ key = (str_iff k key).0 e in
      let replaced : fields_of key card ≡ fields = ground arith in
      rw (e, replaced, at_group, same) refl
  | inr e ↦ let kept : fields_of key card ≡ fields_of key dec = ground arith in rw (e, kept) refl
]
