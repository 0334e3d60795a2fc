-- ===== src/Backend/Labels/Subtree.antt =====
-- `getLabelIDsToDelete` against the relation that it computes: a label and all that descend from it.
use go_proton_api.Base.{
  ℕ, zero, suc, String, string_eq, Option, none, some, List, [], ◌∷◌, ◌++◌, ◌==◌, ◌≡◌, refl, sym,
  ap, ◌∙◌, arith, str_iff, ◌⊎◌, inl, inr, ◌↔◌, In, In-append_left, In-append_right, In-append_cases,
  Bool-cases, subst,
}
use go_proton_api.Base.Assoc.{option_map}
use go_proton_api.Backend.Types.{Label}
use go_proton_api.Backend.Labels.{Labels, below_children, get_label_ids_to_delete, append_both}

-- The map holds the label.
abbrev pub Has : Label → Labels → Type 0
Has l [] = ⊥
Has l ((k, m) ∷ r) = (m ≡ l) ⊎ Has l r

-- The label is the root, or its parent descends from the root.
pub data Descends (labels : Labels) (root : String) : String → Type 0 where
  itself : Descends labels root root
  child :
      (x y : String) (l : Label)
      → Descends labels root x
      → Has l labels
      → l.parent_id ≡ x
      → l.label_id ≡ y
      → Descends labels root y

Descends-trans :
    {labels : Labels} {a b c : String}
    → Descends labels a b
    → Descends labels b c
    → Descends labels a c
Descends-trans d itself = d
Descends-trans d (child x y l e has par id) = child x y l (Descends-trans d e) has par id

append_both-some :
    (o p : Option (List String)) (ids : List String)
    → append_both o p ≡ some ids
    → (xs : List String) × (ys : List String) × (o ≡ some xs) × (p ≡ some ys) × (xs ++ ys ≡ ids)
append_both-some none p ids h = absurd (cc)
append_both-some (some xs) none ids h = absurd (cc)
append_both-some (some xs) (some ys) ids h = (xs, ys, refl, refl, ground arith)

module _ (rec : String → Option (List String)) (id : String) where
  -- The ids found below a child are among those of the range.
  below_children_covers :
      (m : Labels) (ids : List String) (l : Label)
      → below_children rec id m ≡ some ids
      → Has l m
      → l.parent_id ≡ id
      → (sub : List String) × (rec l.label_id ≡ some sub) × ((x : String) → In x sub → In x ids)
  unfolding below_children
  below_children_covers [] ids l h has e = absurd has
  below_children_covers ((k, m) ∷ r) ids l h has e = elim (Bool-cases (m.parent_id == id)) [
    | inr other ↦ elim has [
      | inl same ↦
          absurd (ground (arith, str_iff m.parent_id id, ap (λ (t : Label). t.parent_id) same))
      | inr has' ↦ below_children_covers r ids l (ground arith) has' e
    ]
    | inl hit ↦
        let (xs, ys, p, q, cat) =
          append_both-some (rec m.label_id) (below_children rec id r) ids (ground arith) in
        elim has [
          | inl same ↦ (
            xs,
            ap (λ (t : Label). rec t.label_id) (sym same) ∙ p,
            λ x i. rw (← cat) (In-append_left x xs ys i),
          )
          | inr has' ↦
              let (sub, s, sub_in) = below_children_covers r ys l q has' e in
              (sub, s, λ x i. rw (← cat) (In-append_right x xs ys (sub_in x i)))
        ]
  ]

  -- An id of the range was found below some child.
  below_children_from :
      (m : Labels) (ids : List String) (x : String)
      → below_children rec id m ≡ some ids
      → In x ids
      → (l : Label) × (sub : List String) × Has l m
        × (l.parent_id ≡ id)
        × (rec l.label_id ≡ some sub)
        × In x sub
  unfolding below_children
  below_children_from [] ids x h i = let e : ids ≡ [] = ground arith in absurd (subst (In x) e i)
  below_children_from ((k, m) ∷ r) ids x h i = elim (Bool-cases (m.parent_id == id)) [
    | inr other ↦
        let (l, sub, has, e, s, j) = below_children_from r ids x (ground arith) i in
        (l, sub, inr has, e, s, j)
    | inl hit ↦
        let (xs, ys, p, q, cat) =
          append_both-some (rec m.label_id) (below_children rec id r) ids (ground arith) in
        elim (In-append_cases x xs ys (rw cat i)) [
          | inl j ↦ (m, xs, inl refl, (str_iff m.parent_id id).0 hit, p, j)
          | inr j ↦
              let (l, sub, has, e, s, j') = below_children_from r ys x q j in
              (l, sub, inr has, e, s, j')
        ]
  ]

option_map-some :
    (x : String) (o : Option (List String)) (ids : List String)
    → option_map (◌∷◌ x) o ≡ some ids
    → (ys : List String) × (o ≡ some ys) × (x ∷ ys ≡ ids)
option_map-some x none ids h = absurd (cc)
option_map-some x (some ys) ids h = (ys, refl, ground arith)

delete-root :
    (fuel : ℕ) (id : String) (labels : Labels) (ids : List String)
    → get_label_ids_to_delete fuel id labels ≡ some ids
    → In id ids
unfolding get_label_ids_to_delete
delete-root zero id labels ids h = absurd (cc)
delete-root (suc fuel) id labels ids h =
    let (ys, p, e) = option_map-some id _ ids h in rw (← e) (inl refl)

-- The ids are closed under children.
pub delete-closed :
    (fuel : ℕ) (id : String) (labels : Labels) (ids : List String) (l : Label)
    → get_label_ids_to_delete fuel id labels ≡ some ids
    → Has l labels
    → In l.parent_id ids
    → In l.label_id ids
unfolding get_label_ids_to_delete
delete-closed zero id labels ids l h has i = absurd (cc)
delete-closed (suc fuel) id labels ids l h has i =
    let (ys, p, e) = option_map-some id _ ids h in
    let rec : String → Option (List String) = λ c. get_label_ids_to_delete fuel c labels in
    let i' : In l.parent_id (id ∷ ys) = subst (In _) (sym e) i in
    rw (← e) (
      inr (elim i' [
        | inl top ↦
            let (sub, s, sub_in) = below_children_covers rec id labels ys l p has (sym top) in
            sub_in l.label_id (delete-root fuel l.label_id labels sub s)
        | inr deep ↦
            let (c, sub, c_has, c_par, s, j) =
              below_children_from rec id labels ys l.parent_id p deep in
            let (sub', s', sub_in) = below_children_covers rec id labels ys c p c_has c_par in
            let same : sub ≡ sub' = cc (s, s') in
            sub_in l.label_id
              (subst (In l.label_id) same (delete-closed fuel c.label_id labels sub l s has j))
      ]))

delete_sound :
    (fuel : ℕ) (id : String) (labels : Labels) (ids : List String) (x : String)
    → get_label_ids_to_delete fuel id labels ≡ some ids
    → In x ids
    → Descends labels id x
unfolding get_label_ids_to_delete
delete_sound zero id labels ids x h i = absurd (cc)
delete_sound (suc fuel) id labels ids x h i =
    let (ys, p, e) = option_map-some id _ ids h in
    let rec : String → Option (List String) = λ c. get_label_ids_to_delete fuel c labels in
    let i' : In x (id ∷ ys) = subst (In _) (sym e) i in
    elim i' [
      | inl top ↦ subst (Descends labels id) top itself
      | inr deep ↦
          let (c, sub, has, par, s, j) = below_children_from rec id labels ys x p deep in
          Descends-trans (child id c.label_id c itself has par refl)
            (delete_sound fuel c.label_id labels sub x s j)
    ]

-- When `getLabelIDsToDelete` ends, it returns exactly the label and the labels that descend from it.
pub get_label_ids_to_delete-Descends :
    (fuel : ℕ) (id : String) (labels : Labels) (ids : List String) (x : String)
    → get_label_ids_to_delete fuel id labels ≡ some ids
    → In x ids ↔ Descends labels id x
get_label_ids_to_delete-Descends fuel id labels ids x h =
    (delete_sound fuel id labels ids x h, back)
  where
    back : {y : String} → Descends labels id y → In y ids
    back itself = delete-root fuel id labels ids h
    back (child x y l d has par e) =
        subst (λ t. In t ids) e
          (delete-closed fuel id labels ids l h has (subst (λ t. In t ids) (sym par) (back d)))
