-- ===== src/Backend/Labels/Writes.antt =====
-- `CreateLabel` keeps the forest; `UpdateLabel` does not, and then it never returns.
use go_proton_api.Base.{
  ℕ, suc, ◌<◌, String, string_eq, Bool, none, some, [], if◌then◌else◌, ◌==◌, ◌≡◌, ◌≢◌, refl, sym,
  ◌∙◌, ap, arith, str_iff, ◌⊎◌, inl, inr, Option-cases, Bool-cases, beq_refl, subst,
}
use go_proton_api.Base.Assoc.{lookup, insert, lookup-insert, find_key}
use go_proton_api.Backend.Types.{Account, Label, LabelType, type_folder}
use go_proton_api.Backend.Exec.{Error, no_such_parent, parent_not_allowed, returned, failed, stuck}
use go_proton_api.Backend.Store.{Store, with_acc_ret, set_acc, post}
use go_proton_api.Backend.Labels.{Labels, create_label, update_label, check_parent, is_folder}
use go_proton_api.Backend.Labels.Path.{IsForest, path_to_root_cycle}

-- A folder that is made its own parent sends the method into an endless loop: it passes the guards,
-- and then the loop of `toLabel` runs out of any fuel. So no call of it returns, for any folder.
pub update_label_own_parent :
    (fuel : ℕ) (user_id p label_id name : String) (b : Store) (l : Label)
    → find_key (λ (acc : Account). acc.user_id == user_id) b.accounts ≡ some p
    → lookup label_id b.labels ≡ some l
    → l.label_id ≡ label_id
    → l.label_type ≡ type_folder
    → label_id ≢ ""
    → (update_label fuel user_id label_id name label_id b).0 ≡ stuck
unfolding update_label with_acc_ret post set_acc
update_label_own_parent fuel user_id p label_id name b l hu hl hk ht ne =
    let l' : Label = record l { name = name; parent_id = label_id } in
    let c =
      path_to_root_cycle (insert label_id l' b.labels) label_id l' fuel []
        (lookup-insert label_id label_id l' b.labels ∙ rw (beq_refl label_id)) ne refl in
    ground (arith, c, str_iff label_id "")

-- The depths with a new label below its parent.
abbrev pub depth_with : (String → ℕ) → String → String → String → ℕ
depth_with depth id parent x = if id == x then suc (depth parent) else depth x

module _ (depth : String → ℕ) (id parent : String) (m : Labels) (fresh : lookup id m ≡ none) where
  not_parent :
      (k : String) (c : Label)
      → id ≢ ""
      → (c.parent_id ≡ "") ⊎ ((q : Label) × (lookup c.parent_id m ≡ some q))
      → c.parent_id ≢ id
  not_parent k c ne (inl top) e = ne (sym e ∙ top)
  not_parent k c ne (inr (q, found)) e = cc (fresh, found, ap (λ t. lookup t m) e)

  old_depth : (x : String) → x ≢ id → depth_with depth id parent x ≡ depth x
  old_depth x ne = elim (Bool-cases (id == x)) [
    | inl e ↦ absurd (ne (sym ((str_iff id x).0 e)))
    | inr e ↦ rw e
  ]

  old_rises :
      (k : String) (c : Label)
      → id ≢ ""
      → IsForest depth m
      → lookup k m ≡ some c
      → depth_with depth id parent c.parent_id < depth_with depth id parent k
  old_rises k c ne f h =
      let p = old_depth c.parent_id (not_parent k c ne (f.rooted k c h)) in
      let q = old_depth k (λ e. cc (fresh, h, ap (λ t. lookup t m) e)) in
      omega (arith, p, q, f.rises k c h)

  same-IsForest : id ≢ "" → IsForest depth m → IsForest (depth_with depth id parent) m
  same-IsForest ne f = record { rises = λ k c h. old_rises k c ne f h; rooted = f.rooted }

  insert-IsForest :
      (l : Label)
      → id ≢ ""
      → IsForest depth m
      → l.parent_id ≡ parent
      → (parent ≡ "") ⊎ ((q : Label) × (lookup parent m ≡ some q))
      → IsForest (depth_with depth id parent) (insert id l m)
  insert-IsForest l ne f e up = record {
    rises = λ k c h. elim (Bool-cases (id == k)) [
      | inl hit ↦
          let same : c ≡ l = ground (arith, lookup-insert id k l m) in
          let par : c.parent_id ≡ parent = ap (λ (t : Label). t.parent_id) same ∙ e in
          let old = old_depth parent (λ q. not_parent k c ne (rw par up) (par ∙ q)) in
          let new : depth_with depth id parent k ≡ suc (depth parent) = rw hit in
          omega (arith, new, old, ap (depth_with depth id parent) par)
      | inr miss ↦ old_rises k c ne f (ground (arith, lookup-insert id k l m))
    ];
    rooted = λ k c h. elim (Bool-cases (id == k)) [
      | inl hit ↦
          let same : c ≡ l = ground (arith, lookup-insert id k l m) in
          kept c (rw (ap (λ (t : Label). t.parent_id) same ∙ e) up)
      | inr miss ↦ kept c (f.rooted k c (ground (arith, lookup-insert id k l m)))
    ];
  }
    where
      kept :
          (c : Label)
          → (c.parent_id ≡ "") ⊎ ((q : Label) × (lookup c.parent_id m ≡ some q))
          → (c.parent_id ≡ "") ⊎ ((q : Label) × (lookup c.parent_id (insert id l m) ≡ some q))
      kept c (inl top) = inl top
      kept c (inr (q, found)) = elim (Bool-cases (id == c.parent_id)) [
        | inl hit ↦ inr (l, lookup-insert id c.parent_id l m ∙ rw hit)
        | inr miss ↦ inr (q, lookup-insert id c.parent_id l m ∙ rw miss found)
      ]

abbrev new_entry : String → String → LabelType → String → Label
new_entry name parent_id label_type label_id = record {
  label_id = label_id;
  parent_id = parent_id;
  name = name;
  label_type = label_type;
}

abbrev HasParent : String → Labels → Type 0
HasParent parent_id labels = (parent_id ≡ "") ⊎ ((q : Label) × (lookup parent_id labels ≡ some q))

check_parent_cases :
    (parent_id : String) (folder : Bool) (b : Store)
    → (HasParent parent_id b.labels × (check_parent parent_id folder b ≡ (returned tt, b)))
      ⊎ ((e : Error) × (check_parent parent_id folder b ≡ (failed e, b)))
unfolding check_parent
check_parent_cases parent_id folder b = elim (Bool-cases (parent_id == "")) [
  | inl top ↦ inl (inl ((str_iff parent_id "").0 top), rw (top, check_parent))
  | inr ne ↦ elim (Option-cases (lookup parent_id b.labels)) [
    | inl missing ↦ inr ((if folder then no_such_parent else parent_not_allowed), ground arith)
    | inr (q, found) ↦ elim (Bool-cases folder) [
      | inl is ↦ inl (inr (q, found), ground arith)
      | inr isnt ↦ inr (parent_not_allowed, ground arith)
    ]
  ]
]

-- What `CreateLabel` does to the labels: nothing, or one insertion under a parent that exists.
create_label_cases :
    (fuel : ℕ) (user_id name parent_id : String) (label_type : LabelType) (label_id : String)
    (b : Store)
    → ((create_label fuel user_id name parent_id label_type label_id b).1.labels ≡ b.labels)
      ⊎ (HasParent parent_id b.labels
          × ((create_label fuel user_id name parent_id label_type label_id b).1.labels
              ≡ insert label_id (new_entry name parent_id label_type label_id) b.labels))
unfolding create_label with_acc_ret post set_acc
create_label_cases fuel user_id name parent_id label_type label_id b =
    elim (Option-cases (find_key (λ (acc : Account). acc.user_id == user_id) b.accounts)) [
      | inl gone ↦ inl (ground arith)
      | inr (p, user) ↦ elim (check_parent_cases parent_id (is_folder label_type) b) [
        | inl (up, ok) ↦ inr (up, ground arith)
        | inr (e, bad) ↦ inl (ground arith)
      ]
    ]

-- Creating a label under a fresh id keeps the folders a forest, whether it succeeds or fails.
pub create_label-IsForest :
    (fuel : ℕ) (user_id name parent_id : String) (label_type : LabelType) (label_id : String)
    (b : Store) (depth : String → ℕ)
    → IsForest depth b.labels
    → label_id ≢ ""
    → lookup label_id b.labels ≡ none
    → IsForest
        (depth_with depth label_id parent_id)
        (create_label fuel user_id name parent_id label_type label_id b).1.labels
create_label-IsForest fuel user_id name parent_id label_type label_id b depth f ne fresh =
    elim (create_label_cases fuel user_id name parent_id label_type label_id b) [
      | inl same ↦
          subst (IsForest (depth_with depth label_id parent_id)) (sym same)
            (same-IsForest depth label_id parent_id b.labels fresh ne f)
      | inr (up, new) ↦ subst (IsForest (depth_with depth label_id parent_id)) (sym new) (
          insert-IsForest depth label_id parent_id b.labels fresh
            (new_entry name parent_id label_type label_id) ne f refl up)
    ]
