-- ===== src/Backend/Updates/Reduced.antt =====
-- The shape of a merge: no update in it is replaced by a later one, and it merges to itself.
use go_proton_api.Base.{
  Bool, true, false, some, List, [], ◌∷◌, if◌then◌else◌, ◌≡◌, refl, arith, Option-cases, inl, inr,
}
use go_proton_api.Backend.Updates.{Update, replaced, merge}

-- No update of the list is replaced by a later one.
abbrev pub IsReduced : List Update → Type 0
IsReduced [] = Unit
IsReduced (u ∷ us) = (replaced u us ≡ some false) × IsReduced us

step-IsReduced :
    (u : Update) (merged : List Update) (hit : Bool)
    → replaced u merged ≡ some hit
    → IsReduced merged
    → IsReduced (if hit then merged else u ∷ merged)
step-IsReduced u merged true h r = r
step-IsReduced u merged false h r = (h, r)

pub merge-IsReduced : (us ms : List Update) → merge us ≡ some ms → IsReduced ms
unfolding merge replaced
merge-IsReduced [] ms h = let e : [] ≡ ms = ground arith in rw (← e) tt
merge-IsReduced (u ∷ []) ms h = let e : u ∷ [] ≡ ms = ground arith in rw (← e) (refl, tt)
merge-IsReduced (u ∷ v ∷ us) ms h = elim (Option-cases (merge (v ∷ us))) [
  | inl p ↦ absurd (ground arith)
  | inr (merged, p) ↦ elim (Option-cases (replaced u merged)) [
    | inl q ↦ absurd (ground arith)
    | inr (hit, q) ↦
        let e : (if hit then merged else u ∷ merged) ≡ ms = ground arith in
        rw (← e) (step-IsReduced u merged hit q (merge-IsReduced (v ∷ us) merged p))
  ]
]

merge_reduced : (us : List Update) → IsReduced us → merge us ≡ some us
unfolding merge
merge_reduced [] r = refl
merge_reduced (u ∷ []) r = refl
merge_reduced (u ∷ v ∷ us) r = ground (arith, merge_reduced (v ∷ us) r.1)

-- A merge is final: no update in it is replaced by a later one, and merging it again changes
-- nothing and does not panic.
pub merge-merge : (us ms : List Update) → merge us ≡ some ms → IsReduced ms × (merge ms ≡ some ms)
merge-merge us ms h = let r = merge-IsReduced us ms h in (r, merge_reduced ms r)
