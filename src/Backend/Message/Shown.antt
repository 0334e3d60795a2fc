-- ===== src/Backend/Message/Shown.antt =====
-- What a message shows after a label is put on or taken off, and when the labelling panics.
use go_proton_api.Base.{
  String, string_eq, Bool, true, false, not, ◌||◌, none, some, List, [], ◌∷◌, ◌++◌, ◌==◌, ◌≡◌, ◌↔◌,
  refl, ap, ◌∙◌, sym, arith, str_iff, beq_refl, Option-cases, Bool-cases, ◌⊎◌, inl, inr, filter,
  contains,
}
use go_proton_api.Base.Assoc.{lookup}
use go_proton_api.Backend.Types.{Message, Label}
use go_proton_api.Backend.Labels.{Labels}
use go_proton_api.Backend.Labels.Forest.{IsKeyed}
use go_proton_api.Backend.Message.{
  keep_labels, move_to, add_user_label, add_label, rem_label, rem_user_label, is_label,
  is_flag_label, is_system_label, append_label, get_label_ids, shown_labels, mail_parts, when,
  system_place,
}

contains-append :
    (a : String) (xs ys : List String) → contains (xs ++ ys) a ≡ (contains xs a || contains ys a)
unfolding contains
contains-append a [] ys = refl
contains-append a (x ∷ xs) ys = ground (arith, contains-append a xs ys)

-- Some label of the message is no longer in the map.
pub dangles : Labels → List String → Bool
dangles labels [] = false
dangles labels (id ∷ ids) = elim (lookup id labels) [ none ↦ true | some l ↦ dangles labels ids ]

keep_labels-none :
    (labels : Labels) (ids : List String)
    → (keep_labels labels ids ≡ none) ↔ (dangles labels ids ≡ true)
unfolding keep_labels dangles
keep_labels-none labels [] = ((λ h. cc), (λ h. cc))
keep_labels-none labels (id ∷ ids) =
    let (to, from) = keep_labels-none labels ids in
    elim (Option-cases (lookup id labels)) [
      | inl e ↦ ((λ h. ground arith), (λ h. ground arith))
      | inr (l, e) ↦ ((λ h. ground arith), (λ h. ground arith))
    ]

-- Moving a message to the inbox, the sent mail, the drafts, the scheduled mail, the trash, the spam or
-- the archive panics exactly if one of the message's own labels is no longer in the map.
pub add_label_panics :
    (id : String) (labels : Labels) (msg : Message)
    → (is_flag_label id || is_system_label id) ≡ true
    → (add_label id labels msg ≡ none) ↔ (dangles labels msg.label_ids ≡ true)
unfolding add_label move_to
add_label_panics id labels msg place =
    let (to, from) = keep_labels-none labels msg.label_ids in
    elim (Bool-cases (is_flag_label id)) [
      | inl e ↦ ((λ h. to (ground arith)), (λ d. let q = from d in ground arith))
      | inr e ↦ ((λ h. to (ground arith)), (λ d. let q = from d in ground arith))
    ]

contains_self : (xs : List String) (a : String) → contains (xs ++ a ∷ []) a ≡ true
unfolding contains
contains_self xs a = contains-append a xs (a ∷ []) ∙ ground (arith, beq_refl a)

append_label-contains :
    (l : Label) (msg : Message) → contains (append_label l msg).label_ids l.label_id ≡ true
append_label-contains l msg = elim (Bool-cases (contains msg.label_ids l.label_id)) [
  | inl e ↦ rw e e
  | inr e ↦ rw e (contains_self msg.label_ids l.label_id)
]

add_user_label-contains :
    (l : Label) (labels : Labels) (msg msg' : Message)
    → add_user_label l labels msg ≡ some msg'
    → contains msg'.label_ids l.label_id ≡ true
unfolding add_user_label
add_user_label-contains l labels msg msg' h = elim (Bool-cases (is_label l.label_type)) [
  | inl e ↦
      let r : append_label l msg ≡ msg' = ground arith in rw (← r) (append_label-contains l msg)
  | inr e ↦ elim (Option-cases (move_to labels (some "") msg)) [
    | inl q ↦ absurd (ground arith)
    | inr (moved, q) ↦
        let r : append_label l moved ≡ msg' = ground arith in
        rw (← r) (append_label-contains l moved)
  ]
]

shown_own :
    (msg : Message) (id : String)
    → contains msg.label_ids id ≡ true
    → contains (shown_labels msg) id ≡ true
unfolding shown_labels
shown_own msg id h = contains-append id msg.label_ids (get_label_ids msg) ∙ rw h

shown_system :
    (msg : Message) (id : String)
    → contains (get_label_ids msg) id ≡ true
    → contains (shown_labels msg) id ≡ true
unfolding shown_labels
shown_system msg id h = contains-append id msg.label_ids (get_label_ids msg) ∙ ground arith

contains_right :
    (a : String) (xs ys : List String) → contains ys a ≡ true → contains (xs ++ ys) a ≡ true
contains_right a xs ys h = contains-append a xs ys ∙ ground arith

sys_label-contains :
    (msg : Message) (id : String)
    → msg.sys_label ≡ some id
    → (id == "") ≡ false
    → contains (get_label_ids msg) id ≡ true
unfolding get_label_ids contains
sys_label-contains msg id h ne =
    let last : contains (system_place msg.sys_label msg.flags) id ≡ true =
      rw (h, ne) (ground (arith, beq_refl id)) in
    let place = system_place msg.sys_label msg.flags in
    contains_right id (mail_parts msg.flags) (when msg.starred "10" ++ place)
      (contains_right id (when msg.starred "10") place last)

starred-contains : (msg : Message) → msg.starred ≡ true → contains (get_label_ids msg) "10" ≡ true
unfolding get_label_ids contains
starred-contains msg h =
    let place = system_place msg.sys_label msg.flags in
    contains_right "10" (mail_parts msg.flags) (when msg.starred "10" ++ place)
      (contains-append "10" (when msg.starred "10") place ∙ rw h)

system_label-named : (id : String) → is_system_label id ≡ true → (id == "") ≡ false
system_label-named id h = elim (Bool-cases (id == "")) [
  | inl e ↦ absurd (cc (h, ap (λ t. is_system_label t) ((str_iff id "").0 e)))
  | inr e ↦ e
]

-- A message shows the label that was put on it: a system label, the star, or a label or folder of
-- the user that exists. (A flag label shows as what the flags stand for.)
pub add_label-shown :
    (id : String) (labels : Labels) (msg msg' : Message)
    → IsKeyed labels
    → is_flag_label id ≡ false
    → (is_system_label id ≡ true) ⊎ ((id ≡ "10") ⊎ ((l : Label) × (lookup id labels ≡ some l)))
    → add_label id labels msg ≡ some msg'
    → contains (shown_labels msg') id ≡ true
unfolding add_label move_to
add_label-shown id labels msg msg' keyed plain kind h = elim (Bool-cases (is_system_label id)) [
  | inl s ↦ shown_system msg' id (
      sys_label-contains msg' id
        (elim (Option-cases (keep_labels labels msg.label_ids)) [
          | inl q ↦ absurd (ground arith)
          | inr (kept, q) ↦ ground arith
        ])
        (system_label-named id s))
  | inr s ↦ elim (Bool-cases (id == "10")) [
    | inl star ↦
        let e : id ≡ "10" = (str_iff id "10").0 star in
        rw e (shown_system msg' "10" (starred-contains msg' (ground arith)))
    | inr dull ↦ elim kind [
      | inl sys ↦ absurd (cc (sys, s))
      | inr (inl star) ↦ absurd (cc (dull, (str_iff id "10").1 star))
      | inr (inr (l, found)) ↦ shown_own msg' id (
          ap (λ t. contains msg'.label_ids t) (sym (keyed id l found))
          ∙ add_user_label-contains l labels msg msg' (ground arith))
    ]
  ]
]

filter_absent :
    (id : String) (xs : List String)
    → contains xs id ≡ false
    → filter (λ other. not (other == id)) (xs ++ id ∷ []) ≡ xs
unfolding contains filter
filter_absent id [] h = ground (arith, beq_refl id)
filter_absent id (x ∷ xs) h = ground (arith, filter_absent id xs)

-- Putting a plain label of the user on a message that does not have it, and taking it off again, gives
-- the message back as it was, where every label is stored under its own id.
pub rem_label-add_label :
    (id : String) (labels : Labels) (msg msg' : Message) (l : Label)
    → IsKeyed labels
    → lookup id labels ≡ some l
    → is_label l.label_type ≡ true
    → (is_flag_label id || (is_system_label id || id == "10")) ≡ false
    → contains msg.label_ids id ≡ false
    → add_label id labels msg ≡ some msg'
    → rem_label id labels msg' ≡ msg
unfolding add_label rem_label add_user_label rem_user_label
rem_label-add_label id labels msg msg' l keyed found plain own new h =
    let k = keyed id l found in let f = filter_absent id msg.label_ids new in ground (arith, k, f)
