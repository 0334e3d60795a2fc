-- ===== src/Backend/Message/Places.antt =====
-- Where a message is: in one folder or under one system label, or in none.
use go_proton_api.Base.{
  ℕ, ◌+◌, ◌≤◌, String, string_eq, Bool, true, not, Option, none, some, List, [], ◌∷◌, ◌++◌,
  if◌then◌else◌, ◌==◌, ◌≡◌, ap, ◌∙◌, arith, Option-cases, Bool-cases, inl, inr, filter, contains,
}
use go_proton_api.Base.Assoc.{lookup}
use go_proton_api.Backend.Types.{Message, Label}
use go_proton_api.Backend.Labels.{Labels}
use go_proton_api.Backend.Labels.Forest.{IsKeyed}
use go_proton_api.Backend.Message.{
  keep_labels, move_to, add_user_label, add_label, rem_label, is_label, is_flag_label,
  is_system_label, append_label, rem_flag_label, rem_system_label, rem_user_label,
}

abbrev is_folder_id : Option Label → ℕ
is_folder_id none = 0
is_folder_id (some l) = if is_label l.label_type then 0 else 1

unfoldable pub folder_count : Labels → List String → ℕ
folder_count labels [] = 0
folder_count labels (id ∷ ids) = is_folder_id (lookup id labels) + folder_count labels ids

abbrev sys_count : Option String → ℕ
sys_count none = 1
sys_count (some s) = if s == "" then 0 else 1

-- The folders and system labels that hold the message.
unfoldable pub places : Labels → Message → ℕ
unfolding folder_count
places labels msg = folder_count labels msg.label_ids + sys_count msg.sys_label

folder_count-append :
    (labels : Labels) (xs ys : List String)
    → folder_count labels (xs ++ ys) ≡ folder_count labels xs + folder_count labels ys
unfolding folder_count
folder_count-append labels [] ys = omega arith
folder_count-append labels (x ∷ xs) ys = omega (arith, folder_count-append labels xs ys)

folder_count-filter :
    (labels : Labels) (keep : String → Bool) (xs : List String)
    → folder_count labels (filter keep xs) ≤ folder_count labels xs
unfolding folder_count filter
folder_count-filter labels keep [] = omega arith
folder_count-filter labels keep (x ∷ xs) = elim (Bool-cases (keep x)) [
  | inl e ↦ rw e (omega (arith, folder_count-filter labels keep xs))
  | inr e ↦ rw e (omega (arith, folder_count-filter labels keep xs))
]

folder_count-keep :
    (labels : Labels) (xs kept : List String)
    → keep_labels labels xs ≡ some kept
    → folder_count labels kept ≡ 0
unfolding folder_count keep_labels
folder_count-keep labels [] kept h = ground arith
folder_count-keep labels (x ∷ xs) kept h = elim (Option-cases (lookup x labels)) [
  | inl e ↦ absurd (ground arith)
  | inr (l, e) ↦ elim (Option-cases (keep_labels labels xs)) [
    | inl q ↦ absurd (ground arith)
    | inr (ys, q) ↦ ground (arith, folder_count-keep labels xs ys q)
  ]
]

places-move_to :
    (labels : Labels) (place : Option String) (msg moved : Message)
    → move_to labels place msg ≡ some moved
    → (folder_count labels moved.label_ids ≡ 0) × (moved.sys_label ≡ place)
unfolding move_to
places-move_to labels place msg moved h = elim (Option-cases (keep_labels labels msg.label_ids)) [
  | inl e ↦ absurd (ground arith)
  | inr (kept, e) ↦
      let c = folder_count-keep labels msg.label_ids kept e in (ground arith, ground arith)
]

places-append_label :
    (labels : Labels) (l : Label) (msg : Message)
    → places labels (append_label l msg)
      ≤ places labels msg + is_folder_id (lookup l.label_id labels)
unfolding places
places-append_label labels l msg = elim (Bool-cases (contains msg.label_ids l.label_id)) [
  | inl e ↦ rw e (omega arith)
  | inr e ↦ rw e (omega (arith, folder_count-append labels msg.label_ids (l.label_id ∷ [])))
]

places-add_user_label :
    (labels : Labels) (l : Label) (msg msg' : Message)
    → lookup l.label_id labels ≡ some l
    → add_user_label l labels msg ≡ some msg'
    → places labels msg ≤ 1
    → places labels msg' ≤ 1
places-add_user_label labels l msg msg' found h one = elim (Bool-cases (is_label l.label_type)) [
  | inl e ↦
      let r : append_label l msg ≡ msg' = unfold add_user_label in ground arith in
      rw (← r) (omega (arith, places-append_label labels l msg, none_if l found e))
  | inr e ↦ elim (Option-cases (move_to labels (some "") msg)) [
    | inl q ↦ absurd (unfold add_user_label in ground arith)
    | inr (moved, q) ↦
        let r : append_label l moved ≡ msg' = unfold add_user_label in ground arith in
        let (c, s) = places-move_to labels (some "") msg moved q in
        rw (← r) (omega (arith, places-append_label labels l moved, empty moved c s, at_most_one))
  ]
]
  where
    none_if :
        (l : Label)
        → lookup l.label_id labels ≡ some l
        → is_label l.label_type ≡ true
        → is_folder_id (lookup l.label_id labels) ≡ 0
    none_if l found e = rw (found, e)

    at_most_one : is_folder_id (lookup l.label_id labels) ≤ 1
    at_most_one = rw found (ground arith)

    empty :
        (moved : Message)
        → folder_count labels moved.label_ids ≡ 0
        → moved.sys_label ≡ some ""
        → places labels moved ≡ 0
    empty moved c s = unfold places in ground arith

moved_places :
    (labels : Labels) (place : Option String) (msg moved : Message)
    → move_to labels place msg ≡ some moved
    → places labels moved ≤ 1
moved_places labels place msg moved h =
    let (c, s) = places-move_to labels place msg moved h in unfold places in ground arith

-- Labelling, whatever the label, keeps a message that stands in at most one folder or system place in
-- at most one, where every label is stored under its own id.
pub add_label-places :
    (id : String) (labels : Labels) (msg msg' : Message)
    → IsKeyed labels
    → places labels msg ≤ 1
    → add_label id labels msg ≡ some msg'
    → places labels msg' ≤ 1
unfolding add_label
add_label-places id labels msg msg' keyed one h = elim (Bool-cases (is_flag_label id)) [
  | inl e ↦ moved_places labels none msg msg' (ground arith)
  | inr e ↦ elim (Bool-cases (is_system_label id)) [
    | inl s ↦ moved_places labels (some id) msg msg' (ground arith)
    | inr s ↦ elim (Bool-cases (id == "10")) [
      | inl star ↦ unfold places in ground arith
      | inr plain ↦ elim (Option-cases (lookup id labels)) [
        | inl q ↦ let r : msg ≡ msg' = ground arith in rw (← r) one
        | inr (l, q) ↦
            let k : lookup l.label_id labels ≡ some l =
              ap (λ t. lookup t labels) (keyed id l q) ∙ q in
            places-add_user_label labels l msg msg' k (ground arith) one
      ]
    ]
  ]
]

rem_flag_label-places :
    (labels : Labels) (msg : Message) → places labels (rem_flag_label msg) ≤ places labels msg
unfolding rem_flag_label places
rem_flag_label-places labels msg = ground arith

rem_system_label-places :
    (id : String) (labels : Labels) (msg : Message)
    → places labels (rem_system_label id msg) ≤ places labels msg
unfolding rem_system_label places
rem_system_label-places id labels msg = ground arith

rem_user_label-places :
    (l : Label) (labels : Labels) (msg : Message)
    → places labels (rem_user_label l msg) ≤ places labels msg
unfolding rem_user_label places
rem_user_label-places l labels msg =
    omega (arith, folder_count-filter labels (λ other. not (other == l.label_id)) msg.label_ids)

-- Taking a label off puts the message in no new place.
pub rem_label-places :
    (id : String) (labels : Labels) (msg : Message)
    → places labels (rem_label id labels msg) ≤ places labels msg
unfolding rem_label
rem_label-places id labels msg = elim (Bool-cases (is_flag_label id)) [
  | inl e ↦ rw e (rem_flag_label-places labels msg)
  | inr e ↦ elim (Bool-cases (is_system_label id)) [
    | inl s ↦ rw (e, s) (rem_system_label-places id labels msg)
    | inr s ↦ elim (Bool-cases (id == "10")) [
      | inl star ↦ unfold places in rw (e, s, star) (omega arith)
      | inr plain ↦ elim (Option-cases (lookup id labels)) [
        | inl q ↦ rw (e, s, plain, rem_label, q) (omega arith)
        | inr (l, q) ↦ rw (e, s, plain, rem_label, q) (rem_user_label-places l labels msg)
      ]
    ]
  ]
]
