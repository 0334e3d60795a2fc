-- ===== src/Client/Paging/Whole.antt =====
-- The pages of a list, put together again.
use go_proton_api.Base.{
  ℕ, zero, suc, ◌+◌, ◌*◌, ◌/◌, ◌≤◌, nat_eq, none, some, List, [], ◌∷◌, ◌++◌, get_elem?, length,
  length-append, ◌≡◌, refl, ap, ◌∙◌, arith,
}
use go_proton_api.Backend.Exec.{Outcome, returned}
use go_proton_api.Client.Paging.{fetch_paged, max_page_size}

enough_pages : (n len total : ℕ) → n * 150 ≤ len + 149 → len ≤ total → n ≤ total / 150 + 1
enough_pages n len total h k = omega arith

module _ {T : Type 0} where
  abbrev pub concat : List (List T) → List T
  concat [] = []
  concat (c ∷ cs) = c ++ concat cs

  -- The first n results of a function, put together.
  abbrev pub concat_to : ℕ → (ℕ → List T) → List T
  concat_to zero vs = []
  concat_to (suc n) vs = vs 0 ++ concat_to n (λ i. vs (suc i))

  -- What is documented of the stream: where the function returns throughout, the results come in order.
  abbrev pub IsInOrder : (ℕ → (ℕ → Outcome (List T)) → Outcome (List T)) → Type 0
  IsInOrder collect =
      (n : ℕ) (f : ℕ → Outcome (List T)) (vs : ℕ → List T)
      → ((i : ℕ) → f i ≡ returned (vs i))
      → collect n f ≡ returned (concat_to n vs)

  -- All chunks but the last have the size, and the last is neither longer nor empty.
  abbrev pub AreChunks : ℕ → List (List T) → Type 0
  AreChunks size [] = Unit
  AreChunks size (c ∷ []) = (1 ≤ length c) × (length c ≤ size)
  AreChunks size (c ∷ d ∷ cs) = (length c ≡ size) × AreChunks size (d ∷ cs)

  -- The chunk at a position, nothing past the last.
  abbrev pub chunk_at : List (List T) → ℕ → List T
  chunk_at cs i = elim (get_elem? cs i) [ none ↦ [] | some c ↦ c ]

  concat_to_nothing : (n : ℕ) → concat_to n (chunk_at []) ≡ []
  concat_to_nothing zero = refl
  concat_to_nothing (suc n) = concat_to_nothing n

  concat_to-chunk_at :
      (cs : List (List T)) (n : ℕ) → length cs ≤ n → concat_to n (chunk_at cs) ≡ concat cs
  concat_to-chunk_at [] n h = concat_to_nothing n
  concat_to-chunk_at (c ∷ cs) zero h = absurd (omega arith)
  concat_to-chunk_at (c ∷ cs) (suc n) h = ap (λ t. c ++ t) (concat_to-chunk_at cs n (omega arith))

  pub count_chunks :
      (cs : List (List T)) → AreChunks max_page_size cs → length cs * 150 ≤ length (concat cs) + 149
  count_chunks [] h = omega arith
  count_chunks (c ∷ []) h = omega (arith, length-append c [])
  count_chunks (c ∷ d ∷ cs) h =
      omega (arith, length-append c (concat (d ∷ cs)), count_chunks (d ∷ cs) h.1)

  -- The pages that `fetchPaged` asks for are enough for a list that is no longer than the total.
  pub fetch_paged_whole :
      (collect : ℕ → (ℕ → Outcome (List T)) → Outcome (List T)) (cs : List (List T)) (total : ℕ)
      (fn : ℕ → ℕ → Outcome (List T))
      → IsInOrder collect
      → AreChunks max_page_size cs
      → length (concat cs) ≤ total
      → ((i : ℕ) → fn i max_page_size ≡ returned (chunk_at cs i))
      → fetch_paged collect total max_page_size fn ≡ returned (concat cs)
  unfolding fetch_paged
  fetch_paged_whole collect cs total fn order chunks enough pages =
      order (total / 150 + 1) (λ page. fn page max_page_size) (chunk_at cs) pages
      ∙ ap returned (
          concat_to-chunk_at cs (total / 150 + 1)
            (enough_pages (length cs) (length (concat cs)) total (count_chunks cs chunks) enough))
