-- ===== src/Client/Tests/Slices.antt =====
-- Functions that do what is documented of juniper's slices and streams.
use go_proton_api.Base.{
  ℕ, zero, suc, ◌≤◌, List, [], ◌∷◌, ◌++◌, Option, none, some, length, take, drop, length-drop,
  length-take, length-append, ◌≡◌, refl, ap, ◌∙◌, arith, false,
}
use go_proton_api.Base.Int.{ℤ, pos, negsuc}
use go_proton_api.Backend.Exec.{Outcome, returned, and_then}
use go_proton_api.Backend.Search.{ListTools}
use go_proton_api.Client.Paging.Whole.{AreChunks, IsInOrder, concat}
use go_proton_api.Client.Paging.Served.{IsListTools}

module _ {T : Type 0} where
  abbrev pub in_order : ℕ → (ℕ → Outcome (List T)) → Outcome (List T)
  in_order zero f = returned []
  in_order (suc n) f =
      and_then (f 0) λ x. and_then (in_order n (λ i. f (suc i))) λ xs. returned (x ++ xs)

  pub in_order-IsInOrder : IsInOrder in_order
  in_order-IsInOrder zero f vs h = refl
  in_order-IsInOrder (suc n) f vs h =
      rw (h 0, in_order-IsInOrder n (λ i. f (suc i)) (λ i. vs (suc i)) (λ i. h (suc i))) refl

  -- Chunks of n + 1 elements.
  abbrev chunks : ℕ → ℕ → List T → List (List T)
  chunks zero n xs = []
  chunks (suc fuel) n [] = []
  chunks (suc fuel) n (x ∷ xs) = (x ∷ take n xs) ∷ chunks fuel n (drop n xs)

  take-drop : (n : ℕ) (xs : List T) → take n xs ++ drop n xs ≡ xs
  take-drop zero xs = refl
  take-drop (suc n) [] = refl
  take-drop (suc n) (x ∷ xs) = ap (λ t. x ∷ t) (take-drop n xs)

  concat-chunks : (fuel n : ℕ) (xs : List T) → length xs ≤ fuel → concat (chunks fuel n xs) ≡ xs
  concat-chunks zero n [] h = refl
  concat-chunks zero n (x ∷ xs) h = absurd (omega arith)
  concat-chunks (suc fuel) n [] h = refl
  concat-chunks (suc fuel) n (x ∷ xs) h =
      ap (λ t. x ∷ (take n xs ++ t))
        (concat-chunks fuel n (drop n xs) (omega (arith, length-drop n xs)))
      ∙ ap (λ t. x ∷ t) (take-drop n xs)

  chunk_cons :
      (size : ℕ) (c : List T) (rest : List (List T))
      → 1 ≤ length c
      → length c ≤ size
      → (1 ≤ length rest → length c ≡ size)
      → AreChunks size rest
      → AreChunks size (c ∷ rest)
  chunk_cons size c [] some_left fits full h = (some_left, fits)
  chunk_cons size c (d ∷ rest) some_left fits full h = (full (omega arith), h)

  not_empty : (fuel n : ℕ) (xs : List T) → 1 ≤ length (chunks fuel n xs) → 1 ≤ length xs
  not_empty zero n xs h = absurd (omega arith)
  not_empty (suc fuel) n [] h = h
  not_empty (suc fuel) n (x ∷ xs) h = omega arith

  chunks-AreChunks : (fuel n : ℕ) (xs : List T) → AreChunks (suc n) (chunks fuel n xs)
  chunks-AreChunks zero n xs = tt
  chunks-AreChunks (suc fuel) n [] = tt
  chunks-AreChunks (suc fuel) n (x ∷ xs) =
      let taken = length-take n xs in
      let dropped = length-drop n xs in
      chunk_cons (suc n) (x ∷ take n xs) (chunks fuel n (drop n xs)) (omega arith) (omega arith)
        (λ more. let left = not_empty fuel n (drop n xs) more in omega arith)
        (chunks-AreChunks fuel n (drop n xs))

  abbrev backwards : List T → List T
  backwards [] = []
  backwards (x ∷ xs) = backwards xs ++ x ∷ []

  length-backwards : (xs : List T) → length (backwards xs) ≡ length xs
  length-backwards [] = refl
  length-backwards (x ∷ xs) =
      omega (arith, length-append (backwards xs) (x ∷ []), length-backwards xs)

  abbrev chunk_by : ℤ → List T → Option (List (List T))
  chunk_by (pos zero) xs = none
  chunk_by (pos (suc n)) xs = some (chunks (length xs) n xs)
  chunk_by (negsuc n) xs = none

-- A search for text is not exercised here.
abbrev pub slices : ListTools
slices = record { has_text = λ s t. false; reverse = backwards; chunk = chunk_by }

pub slices-IsListTools : IsListTools slices
slices-IsListTools = record {
  chunks = λ n ms. (
    chunks (length ms) n ms,
    refl,
    chunks-AreChunks (length ms) n ms,
    concat-chunks (length ms) n ms (omega arith),
  );
  reversed = length-backwards;
}
