-- ===== src/Backend/Mailbox/Pages.antt =====
-- The pages of `GetMessageIDs`: what follows an id in a list without repetitions.
use go_proton_api.Base.{
  ℕ, zero, suc, ◌+◌, ◌-◌, ◌≤◌, String, string_eq, true, false, some, List, [], ◌∷◌, ◌++◌, ◌==◌, leb,
  length, length-append, take, drop, contains, index_plus_one, ◌≡◌, refl, ap, ◌∙◌, arith, str_iff,
  beq_refl, min, subst,
}
use mathlib.Core.List.{append_assoc}
use go_proton_api.Base.Int.{pos, max_int, add_len, add_len_small}
use go_proton_api.Backend.Events.{slice}
use go_proton_api.Backend.Mailbox.{at_most, message_page}

-- No id stands twice in the list.
abbrev pub Distinct : List String → Type 0
Distinct [] = Unit
Distinct (x ∷ xs) = (contains xs x ≡ false) × Distinct xs

-- The ids of messages are neither repeated nor empty.
pub record IsIdList (ids : List String) : Type 0 where
  pub distinct : Distinct ids
  pub named : contains ids "" ≡ false

contains-middle :
    (ps rest : List String) (x y : String) → contains (ps ++ x ∷ rest) y ≡ false → (x == y) ≡ false
unfolding contains
contains-middle [] rest x y h = ground arith
contains-middle (p ∷ ps) rest x y h = contains-middle ps rest x y (ground arith)

-- In a list without repetitions an id is found where it stands.
index-middle :
    (ps rest : List String) (x : String)
    → Distinct (ps ++ x ∷ rest)
    → index_plus_one (ps ++ x ∷ rest) x ≡ suc (length ps)
unfolding index_plus_one
index-middle [] rest x d = rw (beq_refl x) refl
index-middle (p ∷ ps) rest x d =
    let other : (x == p) ≡ false = contains-middle ps rest x p d.0 in
    let found = index-middle ps rest x d.1 in ground (arith, str_iff x p, str_iff p x)

drop_prefix : (xs ys : List String) → drop (length xs) (xs ++ ys) ≡ ys
drop_prefix [] ys = refl
drop_prefix (x ∷ xs) ys = drop_prefix xs ys

take_within : (n : ℕ) (xs : List String) → take (min n (length xs)) xs ≡ take n xs
take_within zero xs =
    let none_left : min zero (length xs) ≡ 0 = omega arith in ap (λ k. take k xs) none_left
take_within (suc n) [] =
    let none_left : min (suc n) 0 ≡ 0 = omega arith in ap (λ k. take k []) none_left
take_within (suc n) (x ∷ xs) =
    let e : min (suc n) (suc (length xs)) ≡ suc (min n (length xs)) = omega arith in
    ap (λ k. take k (x ∷ xs)) e ∙ ap (λ t. x ∷ t) (take_within n xs)

slice-append :
    (xs ys : List String) (n : ℕ)
    → slice (xs ++ ys) (length xs) (pos (min (length xs + n) (length (xs ++ ys))))
      ≡ some (take n ys)
unfolding slice
slice-append xs ys n =
    let len = length-append xs ys in
    let low : leb (length xs) (min (length xs + n) (length (xs ++ ys))) ≡ true = ground arith in
    let high : leb (min (length xs + n) (length (xs ++ ys))) (length (xs ++ ys)) ≡ true =
      ground arith in
    let size : min (length xs + n) (length (xs ++ ys)) - length xs ≡ min n (length ys) =
      omega arith in
    rw (low, high, size, drop_prefix xs ys) (ap some (take_within n ys))

page_after :
    (all : List String) (x : String) (k n : ℕ)
    → (x == "") ≡ false
    → index_plus_one all x ≡ suc k
    → message_page all x (pos (suc n))
      ≡ slice all (suc k) (at_most (length all) (add_len (suc k) (suc n)))
unfolding message_page
page_after [] x k n named found = absurd (unfold index_plus_one in ground arith)
page_after (y ∷ ys) x k n named found = rw (named, found) refl

-- A page of at most `suc n` ids after the ids that the client has.
pub message_page_next :
    (ps rest : List String) (x : String) (n : ℕ)
    → IsIdList (ps ++ x ∷ rest)
    → length (ps ++ x ∷ rest) + suc n ≤ max_int
    → message_page (ps ++ x ∷ rest) x (pos (suc n)) ≡ some (take (suc n) rest)
message_page_next ps rest x n ids small =
    let all : List String = ps ++ x ∷ rest in
    let split : (ps ++ x ∷ []) ++ rest ≡ all = append_assoc ps (x ∷ []) rest in
    let size : length (ps ++ x ∷ []) ≡ suc (length ps) = omega (arith, length-append ps (x ∷ [])) in
    let whole : length all ≡ length ps + suc (length rest) = length-append ps (x ∷ rest) in
    page_after all x (length ps) n (contains-middle ps rest x "" ids.named)
      (index-middle ps rest x ids.distinct)
    ∙ ap (λ t. slice all (suc (length ps)) (at_most (length all) t))
        (add_len_small (suc (length ps)) (suc n) (omega arith))
    ∙ subst
        (λ t.
          slice t (suc (length ps)) (pos (min (suc (length ps) + suc n) (length t)))
          ≡ some (take (suc n) rest))
        split
        (subst
          (λ k.
            slice ((ps ++ x ∷ []) ++ rest) k
              (pos (min (k + suc n) (length ((ps ++ x ∷ []) ++ rest))))
            ≡ some (take (suc n) rest))
          size (slice-append (ps ++ x ∷ []) rest (suc n)))

pub message_page_first :
    (ids : List String) (n : ℕ)
    → length ids + suc n ≤ max_int
    → message_page ids "" (pos (suc n)) ≡ some (take (suc n) ids)
unfolding message_page
message_page_first [] n small = refl
message_page_first (x ∷ xs) n small =
    rw (add_len_small 0 (suc n) (omega arith)) (slice-append [] (x ∷ xs) (suc n))
