-- ===== src/Contacts/Card/Writable.antt =====
-- What keeps a card writable.
use go_proton_api.Base.{
  Bool, Bool-cases, String, string_eq, ◌==◌, some, Option-cases, List, [], ◌∷◌, ◌≡◌, inl, inr,
  filter, All, arith,
}
use go_proton_api.Base.Assoc.{
  AllValues-insert, AllValues-delete, insert-AllKeys, delete-AllKeys, insert, lookup,
  lookup-AllValues,
}
use go_proton_api.Contacts.Card.{CardTools, Field, Vcard, fields_of, put_fields}
use go_proton_api.Contacts.Card.Codec.{IsName, IsWritable, PlainField}
use go_proton_api.Contacts.Group.{group_of, in_group, set_first}

pub filter-All :
    {A : Type 0} (P : A → Type 0) (test : A → Bool) (xs : List A)
    → All P xs
    → All P (filter test xs)
unfolding filter
filter-All P test [] h = tt
filter-All P test (x ∷ xs) h = elim (Bool-cases (test x)) [
  | inl e ↦ rw e (h.0, filter-All P test xs h.1)
  | inr e ↦ rw e (filter-All P test xs h.1)
]

module _ (tools : CardTools) (IsUpper IsPlain : String → Type 0) where
  pub insert-IsWritable :
      (key : String) (fields : List Field) (card : Vcard)
      → IsUpper key
      → All (PlainField IsPlain) fields
      → IsWritable tools IsUpper IsPlain card
      → IsWritable tools IsUpper IsPlain (insert key fields card)
  insert-IsWritable key fields card upper plain h = (
    insert-AllKeys (IsName tools IsUpper) key fields card (inl upper) h.0,
    AllValues-insert (All (PlainField IsPlain)) key fields card plain h.1,
  )

  pub put_fields-IsWritable :
      (key : String) (fields : List Field) (card : Vcard)
      → IsUpper key
      → All (PlainField IsPlain) fields
      → IsWritable tools IsUpper IsPlain card
      → IsWritable tools IsUpper IsPlain (put_fields key fields card)
  put_fields-IsWritable key [] card upper plain h =
      (delete-AllKeys (IsName tools IsUpper) key card h.0, AllValues-delete _ key card h.1)
  put_fields-IsWritable key (f ∷ fields) card upper plain h =
      insert-IsWritable key (f ∷ fields) card upper plain h

  pub fields_of-PlainField :
      (key : String) (card : Vcard)
      → IsWritable tools IsUpper IsPlain card
      → All (PlainField IsPlain) (fields_of key card)
  fields_of-PlainField key card h = elim (Option-cases (lookup key card)) [
    | inl e ↦ rw e tt
    | inr (fields, e) ↦ rw e (lookup-AllValues (All (PlainField IsPlain)) key card h.1 e)
  ]

module _ (IsPlain : String → Type 0) where
  -- The new text is plain, and the group was.
  pub set_first-PlainField :
      (group text : String) (fields fields' : List Field)
      → IsPlain text
      → All (PlainField IsPlain) fields
      → set_first group text fields ≡ some fields'
      → All (PlainField IsPlain) fields'
  unfolding set_first
  set_first-PlainField group text [] fields' new h e = absurd (ground arith)
  set_first-PlainField group text (f ∷ fields) fields' new h e =
      elim (Bool-cases (in_group group f)) [
        | inl t ↦
            let same : record f { value = text } ∷ fields ≡ fields' = ground arith in
            rw (← same) ((new, h.0.1), h.1)
        | inr t ↦ elim (Option-cases (set_first group text fields)) [
          | inl s ↦ absurd (ground arith)
          | inr (rest, s) ↦
              let same : f ∷ rest ≡ fields' = ground arith in
              rw (← same) (h.0, set_first-PlainField group text fields rest new h.1 s)
        ]
      ]

  -- A group that is found in a card is plain.
  pub group_of-IsPlain :
      (text group : String) (fields : List Field)
      → All (PlainField IsPlain) fields
      → group_of text fields ≡ some group
      → IsPlain group
  unfolding group_of
  group_of-IsPlain text group [] h e = absurd (ground arith)
  group_of-IsPlain text group (f ∷ fields) h e = elim (Bool-cases (f.value == text)) [
    | inl t ↦ let same : f.group ≡ group = ground arith in rw (← same) h.0.1
    | inr t ↦ group_of-IsPlain text group fields h.1 (ground arith)
  ]
