-- ===== src/Backend/Labels/Deletes.antt =====
-- `DeleteLabel` as a whole: it ends on a forest, and removes the label with all that descend from it.
use go_proton_api.Base.{
  ℕ, zero, suc, ◌+◌, ◌≤◌, ◌<◌, String, string_eq, Option, none, some, List, [], ◌∷◌, ◌++◌, ◌==◌,
  if◌then◌else◌, ◌≡◌, refl, ap, ◌∙◌, arith, str_iff, inl, inr, Bool-cases, contains,
}
use go_proton_api.Base.Assoc.{lookup}
use go_proton_api.Backend.Types.{Account, Label}
use go_proton_api.Backend.Exec.{returned}
use go_proton_api.Backend.Store.{Store}
use go_proton_api.Backend.Labels.{
  Labels, below_children, get_label_ids_to_delete, append_both, delete_label,
}
use go_proton_api.Backend.Labels.Subtree.{Has, Descends, get_label_ids_to_delete-Descends}
use go_proton_api.Backend.Labels.Forest.{delete_label-labels, contains-In, In-contains}

-- Parents lie less deep than their children, and nothing lies deeper than the bound.
abbrev pub IsBounded : (String → ℕ) → ℕ → Labels → Type 0
IsBounded depth bound labels =
    (l : Label) → Has l labels → (depth l.parent_id < depth l.label_id) × (depth l.label_id ≤ bound)

append_both_total :
    (o p : Option (List String))
    → (xs : List String) × (o ≡ some xs)
    → (ys : List String) × (p ≡ some ys)
    → (ids : List String) × (append_both o p ≡ some ids)
append_both_total o p (xs, h) (ys, k) = (xs ++ ys, rw (h, k))

below_children_total :
    (rec : String → Option (List String)) (id : String) (m : Labels)
    → ((l : Label) → Has l m → l.parent_id ≡ id → (ids : List String) × (rec l.label_id ≡ some ids))
    → (ids : List String) × (below_children rec id m ≡ some ids)
unfolding below_children
below_children_total rec id [] h = ([], refl)
below_children_total rec id ((k, l) ∷ m) h =
    let (ys, q) = below_children_total rec id m (λ c has e. h c (inr has) e) in
    elim (Bool-cases (l.parent_id == id)) [
      | inr other ↦ (ys, ground arith)
      | inl hit ↦
          let (ids, r) =
            append_both_total (rec l.label_id) (below_children rec id m)
              (h l (inl refl) ((str_iff l.parent_id id).0 hit)) (ys, q) in
          (ids, ground arith)
    ]

-- Fuel above the number of levels below the label is enough.
pub get_label_ids_to_delete_total :
    (depth : String → ℕ) (bound fuel : ℕ) (id : String) (labels : Labels)
    → IsBounded depth bound labels
    → bound < depth id + fuel
    → depth id ≤ bound
    → (ids : List String) × (get_label_ids_to_delete fuel id labels ≡ some ids)
unfolding get_label_ids_to_delete
get_label_ids_to_delete_total depth bound zero id labels f h d = absurd (omega arith)
get_label_ids_to_delete_total depth bound (suc fuel) id labels f h d =
    let (ys, q) =
      below_children_total (λ child. get_label_ids_to_delete fuel child labels) id labels
        (λ l has e.
          get_label_ids_to_delete_total depth bound fuel l.label_id labels f
            (omega (arith, f l has, ap depth e)) (f l has).1) in
    (id ∷ ys, rw q)

module _ (depth : String → ℕ) (bound fuel : ℕ) (user_id label_id : String) (b : Store)
    (acc : Account) (l : Label) (forest : IsBounded depth bound b.labels)
    (enough : bound < depth label_id + fuel) (inside : depth label_id ≤ bound)
    (user : lookup user_id b.accounts ≡ some acc) (label : lookup label_id b.labels ≡ some l) where
  -- On a forest, with fuel for its levels, for a user and a label that exist: `DeleteLabel` returns,
  -- the label and all that descend from it are gone, and every other label is as it was.
  pub delete_label-Descends :
      ((delete_label fuel user_id label_id b).0 ≡ returned tt)
      × ((k : String)
          → Descends b.labels label_id k
          → lookup k (delete_label fuel user_id label_id b).1.labels ≡ none)
      × ((k : String)
          → ¬ Descends b.labels label_id k
          → lookup k (delete_label fuel user_id label_id b).1.labels ≡ lookup k b.labels)
  delete_label-Descends =
      let (ids, h) =
        get_label_ids_to_delete_total depth bound fuel label_id b.labels forest enough inside in
      let (r, kept) = delete_label-labels fuel user_id label_id b acc l ids user label h in
      let exact = λ (k : String). get_label_ids_to_delete-Descends fuel label_id b.labels ids k h in
      (
        r,
        λ k d.
            kept k
            ∙ ap (λ t. if t then none else lookup k b.labels) (In-contains k ids ((exact k).1 d)),
        λ k nd. elim (Bool-cases (contains ids k)) [
          | inl e ↦ absurd (nd ((exact k).0 (contains-In k ids e)))
          | inr e ↦ kept k ∙ ap (λ t. if t then none else lookup k b.labels) e
        ],
      )
