-- ===== src/Backend/Tests/LabelsTest.antt =====
-- Folders: `b` lies in `a`, and `c` is a plain label.
use go_proton_api.Base.{
  ℕ, ◌<◌, ◌≤◌, String, string_eq, true, none, some, List, [], ◌∷◌, ◌≡◌, ◌↔◌, refl, arith, str_iff,
  ◌==◌, ◌++◌, Bool-cases, subst, if◌then◌else◌, inl, inr, ◌⊎◌, In,
}
use mathlib.Core.Path.{subst₂}
use go_proton_api.Base.Assoc.{lookup, find_key}
use go_proton_api.Backend.Types.{Account, Label, type_folder, type_label, new_account}
use go_proton_api.Backend.Exec.{returned, stuck}
use go_proton_api.Backend.Store.{Store, new_store}
use go_proton_api.Backend.Labels.{
  Labels, get_label_ids_to_delete, below_children, delete_label, create_label, update_label,
  path_to_root,
}
use go_proton_api.Backend.Labels.Subtree.{Descends, get_label_ids_to_delete-Descends}
use go_proton_api.Backend.Labels.Path.{IsForest, PathTo, path_to_root-PathTo}
use go_proton_api.Backend.Labels.Forest.{IsKeyed, delete_label-IsForest}
use go_proton_api.Backend.Labels.Deletes.{IsBounded, delete_label-Descends}
use go_proton_api.Backend.Labels.Writes.{depth_with, create_label-IsForest, update_label_own_parent}

abbrev pub folder_a : Label
folder_a = record { label_id = "a"; parent_id = ""; name = "A"; label_type = type_folder }

abbrev pub folder_b : Label
folder_b = record { label_id = "b"; parent_id = "a"; name = "B"; label_type = type_folder }

abbrev pub label_c : Label
label_c = record { label_id = "c"; parent_id = ""; name = "C"; label_type = type_label }

abbrev pub tree : Labels
tree = ("a", folder_a) ∷ ("b", folder_b) ∷ ("c", label_c) ∷ []

abbrev pub owner : Account
unfolding new_account
owner = new_account "u" "user" "key" [] [] "k"

abbrev pub mailbox : Store
unfolding new_store new_account
mailbox = record (new_store 1000 true) { accounts = ("u", owner) ∷ []; labels = tree }

abbrev depth : String → ℕ
depth x = if x == "" then 0 else if x == "b" then 2 else 1

tree-ids : get_label_ids_to_delete 3 "a" tree ≡ some ("a" ∷ "b" ∷ [])
unfolding get_label_ids_to_delete below_children
tree-ids = refl

get_label_ids_to_delete-Descends_example :
    In {A = String} "b" ("a" ∷ "b" ∷ []) ↔ Descends tree "a" "b"
get_label_ids_to_delete-Descends_example =
    get_label_ids_to_delete-Descends 3 "a" tree ("a" ∷ "b" ∷ []) "b" tree-ids

-- A property of all entries, from the three of them.
tree_all :
    (P : String → Label → Type 0)
    → P "a" folder_a
    → P "b" folder_b
    → P "c" label_c
    → (id : String) (l : Label) → lookup id tree ≡ some l
    → P id l
unfolding lookup
tree_all P pa pb pc id l h = elim (Bool-cases ("a" == id)) [
  | inl a ↦ subst₂ P ((str_iff "a" id).0 a) (ground arith) pa
  | inr na ↦ elim (Bool-cases ("b" == id)) [
    | inl b ↦ subst₂ P ((str_iff "b" id).0 b) (ground arith) pb
    | inr nb ↦ elim (Bool-cases ("c" == id)) [
      | inl c ↦ subst₂ P ((str_iff "c" id).0 c) (ground arith) pc
      | inr nc ↦ absurd (ground arith)
    ]
  ]
]

pub tree-IsKeyed : IsKeyed tree
tree-IsKeyed = tree_all (λ k l. l.label_id ≡ k) refl refl refl

tree-IsForest : IsForest depth tree
tree-IsForest = record {
  rises = tree_all (λ id l. depth l.parent_id < depth id) (omega arith) (omega arith) (omega arith);
  rooted =
      tree_all (λ id l. (l.parent_id ≡ "") ⊎ ((p : Label) × (lookup l.parent_id tree ≡ some p)))
        (inl refl) (inr (folder_a, unfold lookup in refl)) (inl refl);
}

tree-IsBounded : IsBounded depth 2 tree
tree-IsBounded l (inl e) =
    subst (λ (t : Label). (depth t.parent_id < depth t.label_id) × (depth t.label_id ≤ 2)) e
      (omega arith)
tree-IsBounded l (inr (inl e)) =
    subst (λ (t : Label). (depth t.parent_id < depth t.label_id) × (depth t.label_id ≤ 2)) e
      (omega arith)
tree-IsBounded l (inr (inr (inl e))) =
    subst (λ (t : Label). (depth t.parent_id < depth t.label_id) × (depth t.label_id ≤ 2)) e
      (omega arith)
tree-IsBounded l (inr (inr (inr h))) = absurd h

path_to_root-PathTo_example :
    (names : List String) × PathTo tree "b" names
    × (path_to_root 3 tree "b" [] ≡ returned (names ++ []))
unfolding lookup
path_to_root-PathTo_example =
    path_to_root-PathTo depth tree 3 "b" [] tree-IsForest (inr (folder_b, refl)) (omega arith)

delete_label-Descends_example :
    ((delete_label 3 "u" "a" mailbox).0 ≡ returned tt)
    × ((k : String)
        → Descends tree "a" k
        → lookup k (delete_label 3 "u" "a" mailbox).1.labels ≡ none)
    × ((k : String)
        → ¬ Descends tree "a" k
        → lookup k (delete_label 3 "u" "a" mailbox).1.labels ≡ lookup k tree)
unfolding lookup new_store new_account
delete_label-Descends_example =
    delete_label-Descends depth 2 3 "u" "a" mailbox owner folder_a tree-IsBounded (omega arith)
      (omega arith) refl refl

delete_label-IsForest_example : IsForest depth (delete_label 3 "u" "a" mailbox).1.labels
unfolding lookup new_store new_account
delete_label-IsForest_example =
    delete_label-IsForest 3 "u" "a" mailbox owner folder_a ("a" ∷ "b" ∷ []) depth tree-IsKeyed
      tree-IsForest refl refl tree-ids

create_label-IsForest_example :
    IsForest
      (depth_with depth "d" "b")
      (create_label 5 "u" "D" "b" type_folder "d" mailbox).1.labels
unfolding lookup new_store new_account
create_label-IsForest_example =
    create_label-IsForest 5 "u" "D" "b" type_folder "d" mailbox depth tree-IsForest (λ e. cc) refl

update_label_own_parent_example : (update_label 100 "u" "a" "A" "a" mailbox).0 ≡ stuck
unfolding lookup find_key new_store new_account
update_label_own_parent_example =
    update_label_own_parent 100 "u" "u" "a" "A" mailbox folder_a refl refl refl refl (λ e. cc)
