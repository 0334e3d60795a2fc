-- ===== src/Server/Profile/Counting.antt =====
-- As many names as there are of another list, that are all among them, are the same names.
use go_proton_api.Base.{
  suc, ◌≤◌, String, string_eq, str_iff, true, false, Bool-cases, List, [], ◌∷◌, ◌==◌, contains,
  length, ◌≡◌, subst, arith, inl, inr, if◌then◌else◌,
}
use go_proton_api.Backend.Mailbox.Pages.{Distinct}

abbrev without : String → List String → List String
without x [] = []
without x (y ∷ ys) = if y == x then ys else y ∷ without x ys

length-without :
    (x : String) (ys : List String) → contains ys x ≡ true → length ys ≡ suc (length (without x ys))
unfolding contains
length-without x [] h = absurd (ground arith)
length-without x (y ∷ ys) h =
    let rest = length-without x ys in ground (arith, str_iff y x, str_iff x y)

contains-without :
    (x z : String) (ys : List String)
    → contains ys z ≡ true
    → (z == x) ≡ false
    → contains (without x ys) z ≡ true
unfolding contains
contains-without x z [] h n = absurd (ground arith)
contains-without x z (y ∷ ys) h n =
    let rest = contains-without x z ys in
    ground (arith, str_iff y x, str_iff z x, str_iff y z, str_iff z y)

without-contains :
    (x z : String) (ys : List String) → contains (without x ys) z ≡ true → contains ys z ≡ true
unfolding contains
without-contains x z [] h = absurd (ground arith)
without-contains x z (y ∷ ys) h =
    let rest = without-contains x z ys in ground (arith, str_iff y x, str_iff y z)

without-Distinct :
    (x : String) (ys : List String)
    → Distinct (without x ys)
    → contains (without x ys) x ≡ false
    → Distinct ys
unfolding contains
without-Distinct x [] d n = tt
without-Distinct x (y ∷ ys) d n = elim (Bool-cases (y == x)) [
  | inl e ↦
      let here = subst (λ c. Distinct (if c then ys else y ∷ without x ys)) e d in
      let same : y ≡ x = (str_iff y x).0 e in (ground arith, here)
  | inr e ↦
      let here = subst (λ c. Distinct (if c then ys else y ∷ without x ys)) e d in
      let back = contains-without x y ys in
      (ground arith, without-Distinct x ys here.1 (ground arith))
]

-- Every name of the first list is in the second.
abbrev pub AllIn : List String → List String → Type 0
AllIn [] ys = Unit
AllIn (x ∷ xs) ys = (contains ys x ≡ true) × AllIn xs ys

AllIn-without :
    (x : String) (xs ys : List String)
    → contains xs x ≡ false
    → AllIn xs ys
    → AllIn xs (without x ys)
unfolding contains
AllIn-without x [] ys n h = tt
AllIn-without x (z ∷ xs) ys n h = (
  contains-without x z ys h.0 (ground (arith, str_iff z x)),
  AllIn-without x xs ys (ground arith) h.1,
)

pub record IsSame (xs ys : List String) : Type 0 where
  pub distinct : Distinct ys
  pub back : (z : String) → contains ys z ≡ true → contains xs z ≡ true

pub AllIn-IsSame :
    (xs ys : List String) → Distinct xs → AllIn xs ys → length ys ≤ length xs → IsSame xs ys
unfolding contains
AllIn-IsSame [] [] d h n = record { distinct = tt; back = λ z c. c }
AllIn-IsSame [] (y ∷ ys) d h n = absurd (omega arith)
AllIn-IsSame (x ∷ xs) ys d h n =
    let fewer = length-without x ys h.0 in
    let rest = AllIn-IsSame xs (without x ys) d.1 (AllIn-without x xs ys d.0 h.1) (omega arith) in
    let gone : contains (without x ys) x ≡ false = (let back_x = rest.back x in ground arith) in
    record {
      distinct = without-Distinct x ys rest.distinct gone;
      back = λ z c.
          let kept = contains-without x z ys c in
          let before = rest.back z in ground (arith, str_iff x z, str_iff z x);
    }
