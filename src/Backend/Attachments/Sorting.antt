-- ===== src/Backend/Attachments/Sorting.antt =====
-- The order that `sortAttachment` gives the attachments of a message: what is in it, and what is lost.
use go_proton_api.Base.{
  String, string_eq, Option, some, List, [], ◌∷◌, ◌++◌, ◌==◌, All, map, All-append, All-mono, ◌≡◌,
  refl, ap, arith, beq_refl, str_iff, Bool-cases, Option-cases, inl, inr,
}
use go_proton_api.Base.Assoc.{Assoc, AllValues, AllValues-insert, insert, lookup, lookup-AllValues}
use go_proton_api.Backend.Types.{Attachment}
use go_proton_api.Backend.Attachments.{
  by_content, by_name, file_by, id_or_empty, in_order, insert_sorted, sort_attachments,
  sort_strings, str_leb,
}

module _ (Q : String → Type 0) where
  All-insert_sorted : (x : String) (ys : List String) → Q x → All Q ys → All Q (insert_sorted x ys)
  unfolding insert_sorted
  All-insert_sorted x [] q h = (q, tt)
  All-insert_sorted x (y ∷ ys) q h = elim (Bool-cases (str_leb x y)) [
    | inl e ↦ rw e (q, h)
    | inr e ↦ rw e (h.0, All-insert_sorted x ys q h.1)
  ]

  All-sort_strings : (xs : List String) → All Q xs → All Q (sort_strings xs)
  unfolding sort_strings
  All-sort_strings [] h = tt
  All-sort_strings (x ∷ xs) h = All-insert_sorted x (sort_strings xs) h.0 (All-sort_strings xs h.1)

  file_by-AllValues :
      (key : Attachment → Option String) (atts : Assoc String Attachment) (ids : List String)
      (filed out : Assoc String String)
      → All Q ids
      → AllValues Q filed
      → file_by key atts ids filed ≡ some out
      → AllValues Q out
  unfolding file_by
  file_by-AllValues key atts [] filed out h f e =
      let same : filed ≡ out = ground arith in rw (← same) f
  file_by-AllValues key atts (id ∷ ids) filed out h f e = elim (Option-cases (lookup id atts)) [
    | inl q ↦ absurd (ground arith)
    | inr (att, q) ↦ elim (Option-cases (key att)) [
      | inl k ↦ file_by-AllValues key atts ids filed out h.1 f (ground arith)
      | inr (k, s) ↦
          file_by-AllValues key atts ids (insert k id filed) out h.1
            (AllValues-insert Q k id filed h.0 f) (ground arith)
    ]
  ]

-- The keys of a map that lookup finds.
Found : Assoc String String → String → Type 0
Found m k = (id : String) × (lookup k m ≡ some id)

Found-cons :
    (j w : String) (m : Assoc String String) (k : String) → Found m k → Found ((j, w) ∷ m) k
unfolding Found lookup
Found-cons j w m k (id, e) = elim (Bool-cases (j == k)) [
  | inl t ↦ (w, rw t refl)
  | inr t ↦ (id, rw t e)
]

keys-Found : (m : Assoc String String) → All (Found m) (map (λ entry. entry.0) m)
unfolding Found lookup
keys-Found [] = tt
keys-Found ((j, w) ∷ m) = (
  (w, rw (beq_refl j) refl),
  All-mono (map (λ entry. entry.0) m) (Found-cons j w m) (keys-Found m),
)

picked :
    (Q : String → Type 0) (m : Assoc String String) (ks : List String)
    → AllValues Q m
    → All (Found m) ks
    → All Q (map (λ k. id_or_empty (lookup k m)) ks)
unfolding Found
picked Q m [] h f = tt
picked Q m (k ∷ ks) h f =
    let (id, e) = f.0 in (rw e (lookup-AllValues Q k m h e), picked Q m ks h f.1)

in_order-All : (Q : String → Type 0) (m : Assoc String String) → AllValues Q m → All Q (in_order m)
unfolding in_order
in_order-All Q m h = picked Q m _ h (All-sort_strings (Found m) _ (keys-Found m))

-- Whatever holds of all the ids holds of all the sorted ids: sorting brings in no other attachment.
pub sort_attachments-All :
    (Q : String → Type 0) (atts : Assoc String Attachment) (ids sorted : List String)
    → All Q ids
    → sort_attachments atts ids ≡ some sorted
    → All Q sorted
unfolding sort_attachments
sort_attachments-All Q atts ids sorted h e = elim (Option-cases (file_by by_content atts ids [])) [
  | inl q ↦ absurd (ground arith)
  | inr (contents, q) ↦ elim (Option-cases (file_by by_name atts ids [])) [
    | inl r ↦ absurd (ground arith)
    | inr (names, r) ↦
        let same : in_order contents ++ in_order names ≡ sorted = ground arith in
        rw (← same) (
          All-append Q (in_order contents) (in_order names)
            (in_order-All Q contents (file_by-AllValues Q by_content atts ids [] contents h tt q))
            (in_order-All Q names (file_by-AllValues Q by_name atts ids [] names h tt r)))
  ]
]

contents_empty :
    (atts : Assoc String Attachment) (a b : String) (x y : Attachment)
    → lookup a atts ≡ some x
    → lookup b atts ≡ some y
    → x.content_id ≡ ""
    → y.content_id ≡ ""
    → file_by by_content atts (a ∷ b ∷ []) [] ≡ some []
unfolding file_by
contents_empty atts a b x y p q cx cy =
    ground (arith, str_iff x.content_id "", str_iff y.content_id "")

names_merged :
    (atts : Assoc String Attachment) (a b : String) (x y : Attachment)
    → lookup a atts ≡ some x
    → lookup b atts ≡ some y
    → x.content_id ≡ ""
    → y.content_id ≡ ""
    → x.filename ≡ y.filename
    → file_by by_name atts (a ∷ b ∷ []) [] ≡ some ((y.filename, b) ∷ [])
unfolding file_by insert
names_merged atts a b x y p q cx cy same =
    ground (arith, str_iff x.filename y.filename, str_iff x.content_id "", str_iff y.content_id "")

one_in_order : (k id : String) → in_order ((k, id) ∷ []) ≡ id ∷ []
unfolding in_order lookup sort_strings
one_in_order k id = rw (beq_refl k) refl

-- Of two attachments without content id and with the same file name, the list keeps the second only:
-- the message loses the first.
pub sort_attachments_drops :
    (atts : Assoc String Attachment) (a b : String) (x y : Attachment)
    → lookup a atts ≡ some x
    → lookup b atts ≡ some y
    → x.content_id ≡ ""
    → y.content_id ≡ ""
    → x.filename ≡ y.filename
    → sort_attachments atts (a ∷ b ∷ []) ≡ some (b ∷ [])
unfolding sort_attachments in_order
sort_attachments_drops atts a b x y p q cx cy same =
    let contents = contents_empty atts a b x y p q cx cy in
    let names = names_merged atts a b x y p q cx cy same in
    let order = one_in_order y.filename b in rw (sort_attachments, contents, names) (ap some order)
