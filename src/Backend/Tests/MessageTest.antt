-- ===== src/Backend/Tests/MessageTest.antt =====
-- A message in folder `b` with the plain label `c`.
use go_proton_api.Base.{
  ◌≤◌, string_eq, true, none, some, [], ◌∷◌, ◌≡◌, ◌↔◌, refl, arith, inl, contains,
}
use go_proton_api.Base.Assoc.{lookup}
use go_proton_api.Backend.Types.{Message}
use go_proton_api.Backend.Message.{
  new_message, add_label, rem_label, add_user_label, move_to, keep_labels, shown_labels,
}
use go_proton_api.Backend.Message.Places.{places, folder_count, add_label-places}
use go_proton_api.Backend.Message.Shown.{
  dangles, add_label-shown, rem_label-add_label, add_label_panics,
}
use go_proton_api.Backend.Tests.LabelsTest.{tree, tree-IsKeyed, label_c}

abbrev blank : Message
unfolding new_message
blank = new_message "addr" "hi" none [] [] [] [] [] "text/plain" "" 0 "m"

abbrev filed : Message
unfolding new_message
filed = record blank { label_ids = "b" ∷ [] }

abbrev labelled : Message
unfolding new_message
labelled = record blank { label_ids = "b" ∷ "c" ∷ [] }

abbrev trashed : Message
unfolding new_message
trashed = record blank { label_ids = "c" ∷ []; sys_label = some "3" }

add_c : add_label "c" tree filed ≡ some labelled
unfolding add_label add_user_label lookup contains new_message
add_c = refl

trash_it : add_label "3" tree labelled ≡ some trashed
unfolding add_label move_to keep_labels lookup new_message
trash_it = refl

one_place : places tree labelled ≤ 1
unfolding places folder_count lookup new_message
one_place = omega arith

add_label-places_example : places tree trashed ≤ 1
add_label-places_example =
    add_label-places "3" tree labelled trashed tree-IsKeyed one_place trash_it

add_label-shown_example : contains (shown_labels trashed) "3" ≡ true
add_label-shown_example =
    add_label-shown "3" tree labelled trashed tree-IsKeyed refl (inl refl) trash_it

rem_label-add_label_example : rem_label "c" tree labelled ≡ filed
unfolding lookup contains new_message
rem_label-add_label_example =
    rem_label-add_label "c" tree filed labelled label_c tree-IsKeyed refl refl refl refl add_c

-- The label `z` was deleted.
abbrev orphan : Message
unfolding new_message
orphan = record blank { label_ids = "z" ∷ [] }

add_label_panics_example :
    (add_label "0" tree orphan ≡ none) ↔ (dangles tree orphan.label_ids ≡ true)
unfolding new_message
add_label_panics_example = add_label_panics "0" tree orphan refl
