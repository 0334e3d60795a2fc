-- ===== src/Backend/Tests/UpdatesTest.antt =====
-- Merges at concrete lists of updates.
use go_proton_api.Base.{some, List, [], ◌∷◌, ◌≡◌, refl}
use go_proton_api.Backend.Updates.{
  Update, label_created, label_updated, label_deleted, message_updated, replaces, replaced, merge,
}
use go_proton_api.Backend.Updates.Merge.{label, last_effect, merge-last_effect}
use go_proton_api.Backend.Updates.Reduced.{IsReduced, merge-merge}

abbrev edits : List Update
edits =
    label_created "1"
    ∷ label_updated "1"
    ∷ message_updated "7"
    ∷ label_updated "1"
    ∷ label_deleted "1"
    ∷ []

abbrev merged_edits : List Update
merged_edits = message_updated "7" ∷ label_deleted "1" ∷ []

merge-edits : merge edits ≡ some merged_edits
unfolding merge replaced replaces
merge-edits = refl

merge-last_effect_example : last_effect (label "1") merged_edits ≡ last_effect (label "1") edits
merge-last_effect_example = merge-last_effect edits merged_edits (label "1") merge-edits

merge-merge_example : IsReduced merged_edits × (merge merged_edits ≡ some merged_edits)
merge-merge_example = merge-merge edits merged_edits merge-edits

abbrev twice : List Update
twice = label_deleted "1" ∷ message_updated "7" ∷ label_deleted "1" ∷ []
