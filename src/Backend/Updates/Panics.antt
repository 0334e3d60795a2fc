-- ===== src/Backend/Updates/Panics.antt =====
-- When a merge panics: exactly on a list in which an item is deleted twice.
use go_proton_api.Base.{
  Bool, true, false, Option, none, some, List, [], ◌∷◌, if◌then◌else◌, ◌==◌, string_eq, ◌≡◌, refl,
  arith, Option-cases, Bool-cases, inl, inr, ◌↔◌, any, ◌||◌,
}
use go_proton_api.Backend.Updates.{
  Update, message_created, message_updated, message_deleted, label_created, label_updated,
  label_deleted, address_created, address_updated, address_deleted, user_settings_update,
  user_info_update, replaces, replaced, merge,
}

-- The two updates delete the same item.
abbrev pub same_deletion : Update → Update → Bool
same_deletion (message_deleted a) (message_deleted b) = a == b
same_deletion (label_deleted a) (label_deleted b) = a == b
same_deletion (address_deleted a) (address_deleted b) = a == b
same_deletion _ _ = false

unfoldable pub deleted_twice : List Update → Bool
unfolding any
deleted_twice [] = false
deleted_twice (u ∷ us) = any (λ o. same_deletion o u) us || deleted_twice us

abbrev is_deletion : Update → Bool
is_deletion (message_deleted a) = true
is_deletion (label_deleted a) = true
is_deletion (address_deleted a) = true
is_deletion _ = false

abbrev is_none {ℓ} : {A : Type ℓ} → Option A → Bool
is_none none = true
is_none (some a) = false

-- A deletion is never replaced: the test of another deletion of the item panics.
deletion_replaces :
    (o u : Update)
    → is_deletion u ≡ true
    → replaces o u ≡ (if same_deletion o u then none else some false)
unfolding replaces
deletion_replaces (message_deleted a) (message_deleted b) h = refl
deletion_replaces (message_deleted a) (message_created b) h = cc
deletion_replaces (message_deleted a) (message_updated b) h = cc
deletion_replaces (message_updated a) (message_updated b) h = cc
deletion_replaces (label_deleted a) (label_deleted b) h = refl
deletion_replaces (label_deleted a) (label_created b) h = cc
deletion_replaces (label_deleted a) (label_updated b) h = cc
deletion_replaces (label_updated a) (label_updated b) h = cc
deletion_replaces (address_deleted a) (address_deleted b) h = refl
deletion_replaces (address_deleted a) (address_created b) h = cc
deletion_replaces (address_deleted a) (address_updated b) h = cc
deletion_replaces (address_updated a) (address_updated b) h = cc
deletion_replaces (user_settings_update s) (user_settings_update t) h = cc
deletion_replaces user_info_update user_info_update h = cc
deletion_replaces _ _ h = ground arith

other_replaces :
    (o u : Update)
    → is_deletion u ≡ false
    → (same_deletion o u ≡ false) × (b : Bool) × (replaces o u ≡ some b)
unfolding replaces
other_replaces (message_deleted a) (message_deleted b) h = cc
other_replaces (message_deleted a) (message_created b) h = (refl, a == b, refl)
other_replaces (message_deleted a) (message_updated b) h = (refl, a == b, refl)
other_replaces (message_updated a) (message_updated b) h = (refl, a == b, refl)
other_replaces (label_deleted a) (label_deleted b) h = cc
other_replaces (label_deleted a) (label_created b) h = (refl, a == b, refl)
other_replaces (label_deleted a) (label_updated b) h = (refl, a == b, refl)
other_replaces (label_updated a) (label_updated b) h = (refl, a == b, refl)
other_replaces (address_deleted a) (address_deleted b) h = cc
other_replaces (address_deleted a) (address_created b) h = (refl, a == b, refl)
other_replaces (address_deleted a) (address_updated b) h = (refl, a == b, refl)
other_replaces (address_updated a) (address_updated b) h = (refl, a == b, refl)
other_replaces (user_settings_update s) (user_settings_update t) h = (refl, true, refl)
other_replaces user_info_update user_info_update h = (refl, true, refl)
other_replaces _ _ h = (ground arith, false, ground arith)

replaced_deletion :
    (u : Update) (os : List Update)
    → is_deletion u ≡ true
    → replaced u os ≡ (if any (λ o. same_deletion o u) os then none else some false)
unfolding replaced any
replaced_deletion u [] d = refl
replaced_deletion u (o ∷ os) d = ground (arith, deletion_replaces o u d, replaced_deletion u os d)

replaced_other :
    (u : Update) (os : List Update)
    → is_deletion u ≡ false
    → (any (λ o. same_deletion o u) os ≡ false) × (is_none (replaced u os) ≡ false)
unfolding replaced any
replaced_other u [] d = (refl, refl)
replaced_other u (o ∷ os) d =
    let (s, b, r) = other_replaces o u d in
    let (t, q) = replaced_other u os d in (ground arith, ground arith)

-- The test against the merged updates panics exactly if one of them deletes the same item.
is_none-replaced :
    (u : Update) (os : List Update) → is_none (replaced u os) ≡ any (λ o. same_deletion o u) os
is_none-replaced u os = elim (Bool-cases (is_deletion u)) [
  | inl d ↦ ground (arith, replaced_deletion u os d)
  | inr d ↦ ground (arith, replaced_other u os d)
]

not_deletion : (u d : Update) → is_deletion u ≡ false → same_deletion u d ≡ false
not_deletion (message_created a) d h = refl
not_deletion (message_deleted a) d h = cc
not_deletion (label_deleted a) d h = cc
not_deletion (address_deleted a) d h = cc
not_deletion _ d h = refl

-- A merge drops no deletion.
merge_deletions :
    (us ms : List Update) (d : Update)
    → merge us ≡ some ms
    → any (λ o. same_deletion o d) ms ≡ any (λ o. same_deletion o d) us
unfolding merge any
merge_deletions [] ms d h = ground arith
merge_deletions (u ∷ []) ms d h = ground arith
merge_deletions (u ∷ v ∷ us) ms d h = elim (Option-cases (merge (v ∷ us))) [
  | inl p ↦ absurd (ground arith)
  | inr (merged, p) ↦
      let ih = merge_deletions (v ∷ us) merged d p in
      elim (Bool-cases (is_deletion u)) [
        | inl del ↦ ground (arith, replaced_deletion u merged del)
        | inr other ↦ ground (arith, not_deletion u d other)
      ]
]

is_none-merge : (us : List Update) → is_none (merge us) ≡ deleted_twice us
unfolding merge deleted_twice
is_none-merge [] = refl
is_none-merge (u ∷ []) = refl
is_none-merge (u ∷ v ∷ us) = elim (Option-cases (merge (v ∷ us))) [
  | inl p ↦ ground (arith, is_none-merge (v ∷ us))
  | inr (merged, p) ↦ ground (
    arith,
    is_none-merge (v ∷ us),
    is_none-replaced u merged,
    merge_deletions (v ∷ us) merged u p,
  )
]

-- A merge panics exactly if the list deletes one message, label or address twice.
pub merge_panics : (us : List Update) → (merge us ≡ none) ↔ (deleted_twice us ≡ true)
merge_panics us = ((λ h. ground (arith, is_none-merge us)), (λ h. ground (arith, is_none-merge us)))
