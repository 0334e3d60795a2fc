-- ===== src/Backend/Labels/Forest.antt =====
-- The label methods keep the folders a forest, and change no label but those that they name.
use go_proton_api.Base.{
  ℕ, String, string_eq, true, false, none, some, List, [], ◌∷◌, if◌then◌else◌, ◌==◌, ◌≡◌, refl, ◌∙◌,
  ap, arith, str_iff, inl, inr, Bool-cases, In, contains, subst,
}
use go_proton_api.Base.Assoc.{lookup, lookup-delete}
use go_proton_api.Backend.Types.{Account, Label}
use go_proton_api.Backend.Exec.{returned, for_each, ◌>>=◌}
use go_proton_api.Backend.Store.{Store, with_acc, set_acc, post}
use go_proton_api.Backend.Labels.{Labels, get_label_ids_to_delete, delete_one_label, delete_label}
use go_proton_api.Backend.Labels.Subtree.{Has, delete-closed}
use go_proton_api.Backend.Labels.Path.{IsForest}

pub contains-In : (x : String) (xs : List String) → contains xs x ≡ true → In x xs
unfolding contains
contains-In x [] h = absurd (cc)
contains-In x (y ∷ ys) h = elim (Bool-cases (y == x)) [
  | inl e ↦ inl ((str_iff y x).0 e)
  | inr e ↦ inr (contains-In x ys (ground arith))
]

pub In-contains : (x : String) (xs : List String) → In x xs → contains xs x ≡ true
unfolding contains
In-contains x [] h = absurd h
In-contains x (y ∷ ys) (inl e) = ground (arith, str_iff y x)
In-contains x (y ∷ ys) (inr h) = ground (arith, In-contains x ys h)

lookup-Has : (k : String) (l : Label) (m : Labels) → lookup k m ≡ some l → Has l m
unfolding lookup
lookup-Has k l [] h = absurd (cc)
lookup-Has k l ((j, w) ∷ m) h = elim (Bool-cases (j == k)) [
  | inl e ↦ inl (ground arith)
  | inr e ↦ inr (lookup-Has k l m (ground arith))
]

-- The loop of `DeleteLabel` removes the ids that it ranges over and leaves every other label.
delete_loop :
    (p : String) (ids : List String) (b : Store)
    → let (r, b') = for_each ids (delete_one_label p) b in
      (r ≡ returned tt)
      × ((k : String) → lookup k b'.labels ≡ (if contains ids k then none else lookup k b.labels))
unfolding for_each delete_one_label contains post set_acc ◌>>=◌
delete_loop p [] b = (refl, λ k. refl)
delete_loop p (x ∷ ids) b =
    let b1 : Store = (delete_one_label p x b).1 in
    let (r, rest) = delete_loop p ids b1 in
    (r, λ k. rest k ∙ ground (arith, lookup-delete x k b.labels))

delete_label_lem :
    (fuel : ℕ) (user_id label_id : String) (b : Store) (acc : Account) (l : Label)
    (ids : List String)
    → lookup user_id b.accounts ≡ some acc
    → lookup label_id b.labels ≡ some l
    → get_label_ids_to_delete fuel label_id b.labels ≡ some ids
    → delete_label fuel user_id label_id b ≡ for_each ids (delete_one_label user_id) b
unfolding delete_label with_acc
delete_label_lem fuel user_id label_id b acc l ids ha hl hi = ground arith

-- For a user and a label that exist, once the ids below the label are collected: the deletion
-- returns, removes exactly those labels, and leaves every other label as it was.
pub delete_label-labels :
    (fuel : ℕ) (user_id label_id : String) (b : Store) (acc : Account) (l : Label)
    (ids : List String)
    → lookup user_id b.accounts ≡ some acc
    → lookup label_id b.labels ≡ some l
    → get_label_ids_to_delete fuel label_id b.labels ≡ some ids
    → ((delete_label fuel user_id label_id b).0 ≡ returned tt)
      × ((k : String)
          → lookup k (delete_label fuel user_id label_id b).1.labels
            ≡ (if contains ids k then none else lookup k b.labels))
delete_label-labels fuel user_id label_id b acc l ids ha hl hi =
    let e = delete_label_lem fuel user_id label_id b acc l ids ha hl hi in
    let (r, rest) = delete_loop user_id ids b in
    (ap (λ t. t.0) e ∙ r, λ k. ap (λ t. lookup k t.1.labels) e ∙ rest k)

-- The map stores every label under its own id.
abbrev pub IsKeyed : Labels → Type 0
IsKeyed labels = (k : String) (l : Label) → lookup k labels ≡ some l → l.label_id ≡ k

survivor :
    (ids : List String) (k : String) (m m' : Labels) (l : Label)
    → lookup k m' ≡ (if contains ids k then none else lookup k m)
    → lookup k m' ≡ some l
    → (contains ids k ≡ false) × (lookup k m ≡ some l)
survivor ids k m m' l h q = elim (Bool-cases (contains ids k)) [
  | inl e ↦ absurd (ground arith)
  | inr e ↦ (e, ground arith)
]

-- A deletion that runs on a forest of keyed labels leaves a forest: no label loses its parent.
pub delete_label-IsForest :
    (fuel : ℕ) (user_id label_id : String) (b : Store) (acc : Account) (l : Label)
    (ids : List String) (depth : String → ℕ)
    → IsKeyed b.labels
    → IsForest depth b.labels
    → lookup user_id b.accounts ≡ some acc
    → lookup label_id b.labels ≡ some l
    → get_label_ids_to_delete fuel label_id b.labels ≡ some ids
    → IsForest depth (delete_label fuel user_id label_id b).1.labels
delete_label-IsForest fuel user_id label_id b acc l ids depth keyed f ha hl hi = record {
  rises = λ k c h. f.rises k c (survivor ids k b.labels _ c (kept k) h).1;
  rooted = λ k c h.
      let (alive, was) = survivor ids k b.labels _ c (kept k) h in
      elim (f.rooted k c was) [
        | inl top ↦ inl top
        | inr (q, found) ↦ inr (q, parent_kept k c q alive was found)
      ];
}
  where
    kept :
        (k : String)
        → lookup k (delete_label fuel user_id label_id b).1.labels
          ≡ (if contains ids k then none else lookup k b.labels)
    kept = (delete_label-labels fuel user_id label_id b acc l ids ha hl hi).1

    parent_kept :
        (k : String) (c q : Label)
        → contains ids k ≡ false
        → lookup k b.labels ≡ some c
        → lookup c.parent_id b.labels ≡ some q
        → lookup c.parent_id (delete_label fuel user_id label_id b).1.labels ≡ some q
    parent_kept k c q alive was found = elim (Bool-cases (contains ids c.parent_id)) [
      | inr out ↦
          kept c.parent_id ∙ ap (λ t. if t then none else lookup c.parent_id b.labels) out ∙ found
      | inl gone ↦
          let i =
            delete-closed fuel label_id b.labels ids c hi (lookup-Has k c b.labels was)
              (contains-In c.parent_id ids gone) in
          absurd (cc (In-contains k ids (subst (λ t. In t ids) (keyed k c was) i), alive))
    ]
