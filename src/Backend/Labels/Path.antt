-- ===== src/Backend/Labels/Path.antt =====
-- `toLabel`: the path of a label, when it ends and when it does not.
use go_proton_api.Base.{
  ℕ, zero, suc, ◌<◌, String, string_eq, some, List, [], ◌∷◌, ◌++◌, ◌==◌, ◌≡◌, ◌≢◌, refl, sym, ◌∙◌,
  ap, arith, str_iff, ◌⊎◌, inl, inr, Bool-cases, beq_refl,
}
use go_proton_api.Base.Assoc.{lookup}
use mathlib.Core.List.{append_assoc}
use go_proton_api.Backend.Types.{Label}
use go_proton_api.Backend.Exec.{returned, stuck}
use go_proton_api.Backend.Labels.{Labels, path_to_root}

-- The names of the folders from the root down to the id.
pub data PathTo (labels : Labels) : String → List String → Type 0 where
  root : PathTo labels "" []
  under :
      (id : String) (l : Label) (names : List String)
      → id ≢ ""
      → lookup id labels ≡ some l
      → PathTo labels l.parent_id names
      → PathTo labels id (names ++ l.name ∷ [])

-- Parents exist, and lie less deep.
pub record IsForest (depth : String → ℕ) (labels : Labels) : Type 0 where
  pub rises : (id : String) (l : Label) → lookup id labels ≡ some l → depth l.parent_id < depth id
  pub rooted :
      (id : String) (l : Label)
      → lookup id labels ≡ some l
      → (l.parent_id ≡ "") ⊎ ((p : Label) × (lookup l.parent_id labels ≡ some p))

step_to_root :
    (fuel : ℕ) (labels : Labels) (id : String) (l : Label) (path : List String)
    → id ≢ ""
    → lookup id labels ≡ some l
    → path_to_root (suc fuel) labels id path ≡ path_to_root fuel labels l.parent_id (l.name ∷ path)
unfolding path_to_root
step_to_root fuel labels id l path ne h = elim (Bool-cases (id == "")) [
  | inl e ↦ absurd (ne ((str_iff id "").0 e))
  | inr e ↦ rw (e, path_to_root, h)
]

-- In a forest the loop ends within the depth of the label, does not panic, and returns the path.
pub path_to_root-PathTo :
    (depth : String → ℕ) (labels : Labels) (fuel : ℕ) (id : String) (path : List String)
    → IsForest depth labels
    → (id ≡ "") ⊎ ((l : Label) × (lookup id labels ≡ some l))
    → depth id < fuel
    → (names : List String) × PathTo labels id names
      × (path_to_root fuel labels id path ≡ returned (names ++ path))
unfolding path_to_root
path_to_root-PathTo depth labels zero id path f here h = elim h [ ]
path_to_root-PathTo depth labels (suc fuel) id path f here h = elim (Bool-cases (id == "")) [
  | inl e ↦ let top : id ≡ "" = (str_iff id "").0 e in ([], rw top root, rw (e, path_to_root))
  | inr e ↦ elim here [
    | inl top ↦ absurd (cc (e, ap (λ s. s == "") top, beq_refl {A = String} ""))
    | inr (l, found) ↦
        let ne : id ≢ "" = λ q. cc (e, ap (λ s. s == "") q, beq_refl {A = String} "") in
        let (names, p, r) =
          path_to_root-PathTo depth labels fuel l.parent_id (l.name ∷ path) f (f.rooted id l found)
            (omega (arith, f.rises id l found)) in
        (
          names ++ l.name ∷ [],
          under id l names ne found p,
          step_to_root fuel labels id l path ne found
              ∙ r
              ∙ ap returned (sym (append_assoc names (l.name ∷ []) path)),
        )
  ]
]

-- Under a folder that is its own parent the loop does not end, whatever the fuel.
pub path_to_root_cycle :
    (labels : Labels) (id : String) (l : Label) (fuel : ℕ) (path : List String)
    → lookup id labels ≡ some l
    → id ≢ ""
    → l.parent_id ≡ id
    → path_to_root fuel labels id path ≡ stuck
unfolding path_to_root
path_to_root_cycle labels id l zero path h ne own = refl
path_to_root_cycle labels id l (suc fuel) path h ne own =
    step_to_root fuel labels id l path ne h
    ∙ ap (λ s. path_to_root fuel labels s (l.name ∷ path)) own
    ∙ path_to_root_cycle labels id l fuel (l.name ∷ path) h ne own
