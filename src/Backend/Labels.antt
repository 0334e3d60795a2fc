-- ===== src/Backend/Labels.antt =====
-- Labels and folders: server/backend/label.go and the label methods of server/backend/api.go. The
-- loops over parents and children take fuel.
pub mod Path
pub mod Subtree
pub mod Forest
pub mod Deletes
pub mod Writes
use go_proton_api.Base.{
  ℕ, zero, suc, String, string_eq, Bool, true, false, not, ◌&&◌, Option, none, some, List, [], ◌∷◌,
  ◌++◌, if◌then◌else◌, ◌==◌, filter, contains, map,
}
use go_proton_api.Base.Assoc.{Assoc, lookup, insert, delete, adjust, option_map}
use go_proton_api.Backend.Types.{
  Account, Label, LabelType, type_label, type_contact_group, type_folder, type_system,
}
use go_proton_api.Backend.Updates.{label_created, label_updated, label_deleted}
use go_proton_api.Backend.Exec.{
  Outcome, returned, panicked, stuck, no_such_label, no_such_parent, parent_not_allowed,
  label_not_found, pure, fail, fail_if, or_panic, or_fail, or_stuck, reads, lift, modify, skip,
  for_each, resume, ◌>>=◌, ◌>>◌,
}
use go_proton_api.Backend.Store.{Store, M, with_acc, with_acc_ret, get_acc, set_acc, post}

abbrev pub Labels : Type 0
Labels = Assoc String Label

-- label_types.go
abbrev pub inbox_label : String
inbox_label = "0"

abbrev pub all_drafts_label : String
all_drafts_label = "1"

abbrev pub all_sent_label : String
all_sent_label = "2"

abbrev pub trash_label : String
trash_label = "3"

abbrev pub spam_label : String
spam_label = "4"

abbrev pub all_mail_label : String
all_mail_label = "5"

abbrev pub archive_label : String
archive_label = "6"

abbrev pub sent_label : String
sent_label = "7"

abbrev pub drafts_label : String
drafts_label = "8"

abbrev pub outbox_label : String
outbox_label = "9"

abbrev pub starred_label : String
starred_label = "10"

abbrev pub all_scheduled_label : String
all_scheduled_label = "12"

abbrev pub is_folder : LabelType → Bool
is_folder type_folder = true
is_folder _ = false

-- The struct `Label` that the API returns.
pub record LabelView : Type 0 where
  pub label : Label
  pub path : List String

-- The loop of `toLabel`: it collects the names from the label up to the root.
unfoldable pub path_to_root : ℕ → Labels → String → List String → Outcome (List String)
path_to_root zero labels id path = stuck
path_to_root (suc fuel) labels id path = elim (id == "") [
  | true ↦ returned path
  | false ↦ elim (lookup id labels) [
    | none ↦ panicked
    | some l ↦ path_to_root fuel labels l.parent_id (l.name ∷ path)
  ]
]

unfoldable pub to_label : ℕ → Labels → Label → M LabelView
unfolding ◌>>=◌
to_label fuel labels l = do
  path ← lift (path_to_root fuel labels l.label_id [])
  pure (record { label = l; path = path })

abbrev append_both : Option (List String) → Option (List String) → Option (List String)
append_both (some ids) (some more) = some (ids ++ more)
append_both _ _ = none

-- The range of `getLabelIDsToDelete` over all labels; `rec` is its recursive call.
unfoldable pub below_children :
    (String → Option (List String)) → String → Labels → Option (List String)
below_children rec id [] = some []
below_children rec id ((k, l) ∷ m) =
    let rest = below_children rec id m in
    if l.parent_id == id then append_both (rec l.label_id) rest else rest

unfoldable pub get_label_ids_to_delete : ℕ → String → Labels → Option (List String)
unfolding below_children
get_label_ids_to_delete zero id labels = none
get_label_ids_to_delete (suc fuel) id labels =
    option_map (◌∷◌ id)
      (below_children (λ child. get_label_ids_to_delete fuel child labels) id labels)

unfoldable pub write_label : String → Label → M Unit
write_label id l = modify λ b. record b { labels = insert id l b.labels }

-- The guards that `CreateLabel` and `UpdateLabel` put on a parent.
unfoldable pub check_parent : String → Bool → M Unit
unfolding ◌>>=◌
check_parent parent_id folder = if parent_id == "" then skip else do
  fail_if (not folder) parent_not_allowed
  parent ← reads (λ b. lookup parent_id b.labels)
  or_fail no_such_parent parent
  skip

-- `label_id` is the fresh id of `newLabel`.
unfoldable pub create_label : ℕ → String → String → String → LabelType → String → M LabelView
unfolding write_label ◌>>=◌ to_label
create_label fuel user_id name parent_id label_type label_id = with_acc_ret user_id λ p. do
  check_parent parent_id (is_folder label_type)
  let l : Label = record {
    label_id = label_id;
    parent_id = parent_id;
    name = name;
    label_type = label_type;
  }
  write_label label_id l
  set_acc p (λ acc. record acc { label_ids = acc.label_ids ++ label_id ∷ [] })
  post p (label_created label_id)
  labels ← reads (λ b. b.labels)
  to_label fuel labels l

unfoldable pub update_label : ℕ → String → String → String → String → M LabelView
unfolding check_parent write_label ◌>>=◌ to_label
update_label fuel user_id label_id name parent_id = with_acc_ret user_id λ p. do
  found ← reads (λ b. lookup label_id b.labels)
  l ← or_panic found
  check_parent parent_id (is_folder l.label_type)
  let l' : Label = record l { name = name; parent_id = parent_id }
  write_label label_id l'
  post p (label_updated label_id)
  labels ← reads (λ b. b.labels)
  to_label fuel labels l'

-- The body of the loop of `DeleteLabel`.
unfoldable pub delete_one_label : String → String → M Unit
unfolding ◌>>=◌
delete_one_label p label_id = do
  modify (λ b. record b { labels = delete label_id b.labels })
  set_acc p
      (λ acc. record acc { label_ids = filter (λ other. not (other == label_id)) acc.label_ids })
  post p (label_deleted label_id)

unfoldable pub delete_label : ℕ → String → String → M Unit
unfolding ◌>>=◌
delete_label fuel user_id label_id = with_acc user_id λ p. do
  found ← reads (λ b. lookup label_id b.labels)
  or_fail label_not_found found
  labels ← reads (λ b. b.labels)
  ids ← or_stuck (get_label_ids_to_delete fuel label_id labels)
  for_each ids (delete_one_label p)
