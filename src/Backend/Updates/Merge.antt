-- ===== src/Backend/Updates/Merge.antt =====
-- What a merge keeps: for every item the last thing that happened to it, and nothing replaced.
use go_proton_api.Base.{
  ℕ, String, Bool, true, false, Option, none, some, List, [], ◌∷◌, if◌then◌else◌, ◌==◌, string_eq,
  ◌≡◌, refl, arith, str_iff, Option-cases, Bool-cases, inl, inr,
}
use go_proton_api.Backend.Types.{UserSettings}
use go_proton_api.Backend.Updates.{
  Update, user_refreshed, message_created, message_updated, message_deleted, label_created,
  label_updated, label_deleted, address_created, address_updated, address_deleted,
  user_settings_update, user_info_update, replaces, replaced, merge,
}

-- What an update is about.
pub data Target : Type 0 where
  refresh user_info settings : Target
  message label address : String → Target

-- What it says of that: a refresh flag, the item's presence, or the new settings.
pub data Effect : Type 0 where
  flag : ℕ → Effect
  present absent changed : Effect
  set : UserSettings → Effect

abbrev pub target : Update → Target
target (user_refreshed r) = refresh
target (message_created a) = message a
target (message_updated a) = message a
target (message_deleted a) = message a
target (label_created a) = label a
target (label_updated a) = label a
target (label_deleted a) = label a
target (address_created a) = address a
target (address_updated a) = address a
target (address_deleted a) = address a
target (user_settings_update s) = settings
target user_info_update = user_info

abbrev pub effect : Update → Effect
effect (user_refreshed r) = flag r
effect (message_created a) = present
effect (message_updated a) = present
effect (message_deleted a) = absent
effect (label_created a) = present
effect (label_updated a) = present
effect (label_deleted a) = absent
effect (address_created a) = present
effect (address_updated a) = present
effect (address_deleted a) = absent
effect (user_settings_update s) = set s
effect user_info_update = changed

abbrev same : Target → Target → Bool
same refresh refresh = true
same user_info user_info = true
same settings settings = true
same (message a) (message b) = a == b
same (label a) (label b) = a == b
same (address a) (address b) = a == b
same _ _ = false

abbrev or_else {ℓ} : {A : Type ℓ} → Option A → Option A → Option A
or_else none o = o
or_else (some a) o = some a

-- The effect of the last update on the target, if there is one.
pub last_effect : Target → List Update → Option Effect
last_effect t [] = none
last_effect t (u ∷ us) =
    or_else (last_effect t us) (if same (target u) t then some (effect u) else none)

replaces-target : (o u : Update) → replaces o u ≡ some true → target o ≡ target u
unfolding replaces
replaces-target (message_updated a) (message_updated b) h = ground (arith, str_iff a b)
replaces-target (message_deleted a) (message_created b) h = ground (arith, str_iff a b)
replaces-target (message_deleted a) (message_updated b) h = ground (arith, str_iff a b)
replaces-target (message_deleted a) (message_deleted b) h = ground arith
replaces-target (label_updated a) (label_updated b) h = ground (arith, str_iff a b)
replaces-target (label_deleted a) (label_created b) h = ground (arith, str_iff a b)
replaces-target (label_deleted a) (label_updated b) h = ground (arith, str_iff a b)
replaces-target (label_deleted a) (label_deleted b) h = ground arith
replaces-target (address_updated a) (address_updated b) h = ground (arith, str_iff a b)
replaces-target (address_deleted a) (address_created b) h = ground (arith, str_iff a b)
replaces-target (address_deleted a) (address_updated b) h = ground (arith, str_iff a b)
replaces-target (address_deleted a) (address_deleted b) h = ground arith
replaces-target (user_settings_update s) (user_settings_update t) h = refl
replaces-target user_info_update user_info_update h = refl
replaces-target _ _ h = cc

-- An update that a later one replaces does not show in the last effect.
replaced-last_effect :
    (u : Update) (t : Target) (os : List Update)
    → replaced u os ≡ some true
    → same (target u) t ≡ true
    → (e : Effect) × (last_effect t os ≡ some e)
unfolding replaced last_effect
replaced-last_effect u t [] h k = absurd (cc)
replaced-last_effect u t (o ∷ os) h k = elim (Option-cases (last_effect t os)) [
  | inr (e, p) ↦ (e, rw p)
  | inl p ↦ elim (Option-cases (replaces o u)) [
    | inl q ↦ absurd (ground arith)
    | inr (true, q) ↦ (effect o, rw (p, replaces-target o u q, k))
    | inr (false, q) ↦
        let (e, r) = replaced-last_effect u t os (ground arith) k in (e, ground arith)
  ]
]

merge_step-last_effect :
    (u : Update) (t : Target) (merged rest : List Update) (hit : Bool)
    → replaced u merged ≡ some hit
    → last_effect t merged ≡ last_effect t rest
    → last_effect t (if hit then merged else u ∷ merged) ≡ last_effect t (u ∷ rest)
unfolding last_effect
merge_step-last_effect u t merged rest false h k = rw k
merge_step-last_effect u t merged rest true h k = elim (Bool-cases (same (target u) t)) [
  | inl p ↦ let (e, q) = replaced-last_effect u t merged h p in ground arith
  | inr p ↦ ground arith
]

-- A merge that does not panic keeps, for every item, the last thing that happened to it.
pub merge-last_effect :
    (us ms : List Update) (t : Target) → merge us ≡ some ms → last_effect t ms ≡ last_effect t us
unfolding merge
merge-last_effect [] ms t h = ground arith
merge-last_effect (u ∷ []) ms t h = ground arith
merge-last_effect (u ∷ v ∷ us) ms t h = elim (Option-cases (merge (v ∷ us))) [
  | inl p ↦ absurd (ground arith)
  | inr (merged, p) ↦ elim (Option-cases (replaced u merged)) [
    | inl q ↦ absurd (ground arith)
    | inr (hit, q) ↦
        let e : (if hit then merged else u ∷ merged) ≡ ms = ground arith in
        rw (← e)
          (merge_step-last_effect u t merged (v ∷ us) hit q (merge-last_effect (v ∷ us) merged t p))
  ]
]
