-- ===== src/Client/Import/Chunks.antt =====
-- The chunks of `ChunkSized` of message_import.go.
use go_proton_api.Base.{
  ℕ, zero, suc, ◌+◌, ◌≤◌, ◌<◌, List, [], ◌∷◌, ◌++◌, length, length-append, All, In, In-append_cases,
  ◌⊎◌, inl, inr, ◌≡◌, refl, ◌∙◌, sym, ap, subst, arith, ltb, Bool-cases, true, false,
}
use mathlib.Core.List.{append_assoc, append-nil}
use go_proton_api.Backend.Exec.{returned, stuck}
use go_proton_api.Client.Import.{take_chunk, more_chunks, chunk_sized}

abbrev pub concat : {T : Type 0} → List (List T) → List T
concat [] = []
concat (c ∷ cs) = c ++ concat cs

module _ {T : Type 0} (size : T → ℕ) where
  abbrev pub total : List T → ℕ
  total [] = 0
  total (v ∷ vals) = size v + total vals

  total-append : (xs ys : List T) → total (xs ++ ys) ≡ total xs + total ys
  total-append [] ys = omega arith
  total-append (x ∷ xs) ys = omega (arith, total-append xs ys)

  total-In : (v : T) (vals : List T) → In v vals → size v ≤ total vals
  total-In v [] h = absurd h
  total-In v (x ∷ vals) (inl e) = rw e (omega arith)
  total-In v (x ∷ vals) (inr h) = omega (arith, total-In v vals h)

  -- A chunk is not empty, and keeps to both bounds.
  abbrev pub IsChunk : ℕ → ℕ → List T → Type 0
  IsChunk max_len max_size c = (0 < length c) × (length c ≤ max_len) × (total c ≤ max_size)

module _ {T : Type 0} (max_len max_size : ℕ) (size : T → ℕ) where
  -- The next value would not have gone into the chunk.
  abbrev pub NoRoom : List T → List T → Type 0
  NoRoom c [] = Unit
  NoRoom c (v ∷ rest) =
      (max_len ≤ length c) ⊎ ((max_size ≤ total size c) ⊎ (max_size < total size c + size v))

  abbrev pub IsPacked : List (List T) → Type 0
  IsPacked [] = Unit
  IsPacked (c ∷ cs) = NoRoom c (concat cs) × IsPacked cs

  abbrev Taken : List T → List T → List T × List T → Type 0
  Taken chunk vals (c, rest) =
      (c ++ rest ≡ chunk ++ vals)
      × (length chunk ≤ length c)
      × (length c ≤ max_len)
      × (total size c ≤ max_size)
      × (length rest ≤ length vals)
      × NoRoom c rest

  Taken-more :
      (chunk vals : List T) (v : T) (taken : List T × List T)
      → Taken (chunk ++ v ∷ []) vals taken
      → Taken chunk (v ∷ vals) taken
  Taken-more chunk vals v taken (joined, longer, len, sum, rest, no_room) = (
    joined ∙ append_assoc chunk (v ∷ []) vals,
    omega (arith, length-append chunk (v ∷ [])),
    len,
    sum,
    omega arith,
    no_room,
  )

  take_chunk-Taken :
      (chunk : List T) (n : ℕ) (vals : List T)
      → n ≡ total size chunk
      → length chunk ≤ max_len
      → n ≤ max_size
      → Taken chunk vals (take_chunk max_len max_size size chunk n vals)
  unfolding take_chunk
  take_chunk-Taken chunk n [] e l s = (refl, omega arith, l, omega arith, omega arith, tt)
  take_chunk-Taken chunk n (v ∷ vals) e l s =
      let stay = λ (h : NoRoom chunk (v ∷ vals)).
        let t : Taken chunk (v ∷ vals) (chunk, v ∷ vals) =
          (refl, omega arith, l, omega arith, omega arith, h) in
        t in
      elim (Bool-cases (ltb (length chunk) max_len)) [
        | inr long ↦ rw long (stay (inl (ground arith)))
        | inl short ↦ elim (Bool-cases (ltb n max_size)) [
          | inr full ↦ rw (short, full) (stay (inr (inl (ground arith))))
          | inl room ↦ elim (Bool-cases (ltb max_size (n + size v))) [
            | inl big ↦ rw (short, room, big) (stay (inr (inr (ground arith))))
            | inr fits ↦
                rw (short, room, fits)
                  (Taken-more chunk vals v _ (
                    take_chunk-Taken (chunk ++ v ∷ []) (n + size v) vals
                      (omega (arith, total-append size chunk (v ∷ [])))
                      (ground (arith, length-append chunk (v ∷ []))) (ground arith)))
          ]
        ]
      ]

  -- A chunk takes the first value, if that fits.
  take_chunk_first :
      (v : T) (vals : List T)
      → 0 < max_len
      → 0 < max_size
      → size v ≤ max_size
      → Taken (v ∷ []) vals (take_chunk max_len max_size size [] 0 (v ∷ vals))
  unfolding take_chunk
  take_chunk_first v vals l s fits =
      let a : ltb 0 max_len ≡ true = ground arith in
      let b : ltb 0 max_size ≡ true = ground arith in
      let c : ltb max_size (0 + size v) ≡ false = ground arith in
      rw (a, b, c)
        (take_chunk-Taken (v ∷ []) (0 + size v) vals (omega arith) (omega arith) (omega arith))

  abbrev IsDivided : List T → List (List T) → Type 0
  IsDivided vals cs = (concat cs ≡ vals) × All (IsChunk size max_len max_size) cs × IsPacked cs

  All-rest : (P : T → Type 0) (c rest : List T) → All P (c ++ rest) → All P rest
  All-rest P [] rest h = h
  All-rest P (x ∷ c) rest h = All-rest P c rest h.1

  more_chunks-IsDivided :
      (fuel : ℕ) (vals : List T)
      → 0 < max_len
      → 0 < max_size
      → All (λ v. size v ≤ max_size) vals
      → length vals < fuel
      → (cs : List (List T)) × ((chunks : List (List T))
          → more_chunks max_len max_size size fuel chunks vals ≡ returned (chunks ++ cs))
        × IsDivided vals cs
  unfolding more_chunks
  more_chunks-IsDivided zero vals l s fit enough = absurd (omega arith)
  more_chunks-IsDivided (suc fuel) [] l s fit enough =
      ([], λ chunks. ap returned (sym (append-nil chunks)), (refl, tt, tt))
  more_chunks-IsDivided (suc fuel) (v ∷ vals) l s fit enough =
      let taken = take_chunk max_len max_size size [] 0 (v ∷ vals) in
      let (joined, longer, len, sum, rest, no_room) = take_chunk_first v vals l s fit.0 in
      let more =
        more_chunks-IsDivided fuel taken.1 l s
          (All-rest _ taken.0 taken.1 (subst (All (λ u. size u ≤ max_size)) (sym joined) fit))
          (omega arith) in
      (
        taken.0 ∷ more.0,
        λ chunks.
            more.1 (chunks ++ taken.0 ∷ [])
            ∙ ap returned (append_assoc chunks (taken.0 ∷ []) more.0),
        (
          ap (λ t. taken.0 ++ t) more.2.0 ∙ joined,
          ((omega arith, len, sum), more.2.1),
          (subst (NoRoom taken.0) (sym more.2.0) no_room, more.2.2),
        ),
      )

  more_chunks_stuck :
      (fuel : ℕ) (chunks : List (List T)) (v : T) (vals : List T)
      → In v vals
      → max_size < size v
      → more_chunks max_len max_size size fuel chunks vals ≡ stuck
  unfolding more_chunks
  more_chunks_stuck zero chunks v vals m big = refl
  more_chunks_stuck (suc fuel) chunks v [] m big = absurd m
  more_chunks_stuck (suc fuel) chunks v (x ∷ vals) m big =
      let taken = take_chunk max_len max_size size [] 0 (x ∷ vals) in
      let t = take_chunk-Taken [] 0 (x ∷ vals) refl (omega arith) (omega arith) in
      more_chunks_stuck fuel (chunks ++ taken.0 ∷ []) v taken.1
        (elim (In-append_cases v taken.0 taken.1 (subst (In v) (sym t.0) m)) [
          | inl h ↦ absurd (omega (arith, total-In size v taken.0 h))
          | inr h ↦ h
        ])
        big

-- With bounds that are not 0, `ChunkSized` returns when no value is larger than the bound on sizes:
-- one round for each value, and one more, are enough. Joined again, the chunks are the values in
-- their order. No chunk is empty, has more values than the one bound, or a larger total size than
-- the other, and none ends before one of the two bounds keeps the next value out.
pub chunk_sized-IsDivided :
    {T : Type 0} (fuel : ℕ) (vals : List T) (max_len max_size : ℕ) (size : T → ℕ)
    → 0 < max_len
    → 0 < max_size
    → All (λ v. size v ≤ max_size) vals
    → length vals < fuel
    → (cs : List (List T)) × (chunk_sized fuel vals max_len max_size size ≡ returned cs)
      × (concat cs ≡ vals)
      × All (IsChunk size max_len max_size) cs
      × IsPacked max_len max_size size cs
unfolding chunk_sized
chunk_sized-IsDivided fuel vals max_len max_size size l s fit enough =
    let divided = more_chunks-IsDivided max_len max_size size fuel vals l s fit enough in
    (divided.0, divided.1 [], divided.2.0, divided.2.1, divided.2.2)

-- With a value that is larger than the bound on sizes, anywhere in the list, it never returns.
pub chunk_sized_endless :
    {T : Type 0} (fuel : ℕ) (vals : List T) (max_len max_size : ℕ) (size : T → ℕ) (v : T)
    → In v vals
    → max_size < size v
    → chunk_sized fuel vals max_len max_size size ≡ stuck
unfolding chunk_sized
chunk_sized_endless fuel vals max_len max_size size v m big =
    more_chunks_stuck max_len max_size size fuel [] v vals m big
