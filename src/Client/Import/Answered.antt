-- ===== src/Client/Import/Answered.antt =====
-- The messages that `ImportMessages` of message_import.go sends, and the responses that it returns.
use go_proton_api.Base.{
  ℕ, suc, ◌≤◌, ◌<◌, false, Option, none, some, List, [], ◌∷◌, ◌++◌, ◌⊎◌, inl, inr, length, any, map,
  All, In, ltb, nat_eq, nat_beq_iff, ◌≡◌, refl, sym, ap, arith,
}
use mathlib.Core.List.{map-append}
use go_proton_api.Base.Assoc.{Assoc, insert, lookup, lookup-insert}
use go_proton_api.Client.Import.{
  ImportReq, ImportRes, ImportMetadata, ImportForm, imported, success_code, named, named_res,
  build_import_req_fields, in_order, refusal, import_chunk, import_chunks, encrypt_all,
  import_messages, max_import_size, max_import_count, encrypted_size,
}
use go_proton_api.Client.Import.Chunks.{concat, chunk_sized-IsDivided}

-- A message as it goes out, and its response.
abbrev pub answer_of : (List ℕ → ImportMetadata → ImportRes) → ImportReq → ImportRes
answer_of answer r = answer (r.encrypted_message ++ 13 ∷ 10 ∷ []) r.metadata

-- The names are counted from `k`.
abbrev pub IsNumbered : ℕ → List (ℕ × List ℕ) → Type 0
IsNumbered k [] = Unit
IsNumbered k (field ∷ fields) = (field.0 ≡ k) × IsNumbered (suc k) fields

-- The server answers a form with a response for each name, in any order.
pub record IsServer (post : ImportForm → Option (List (ℕ × ImportRes)))
    (answer : List ℕ → ImportMetadata → ImportRes) : Type 0 where
  pub responses : ImportForm → List (ℕ × ImportRes)
  pub responds : (form : ImportForm) → post form ≡ some (responses form)
  pub answers :
      (form : ImportForm)
      → IsNumbered 0 form.0
      → (n : ℕ) (bytes : List ℕ) (m : ImportMetadata) → In (n, bytes) form.0
      → lookup n form.1 ≡ some m
      → In (n, answer bytes m) (responses form)
        × All (λ e. e.0 ≡ n → e.1 ≡ answer bytes m) (responses form)
  pub accepts : (bytes : List ℕ) (m : ImportMetadata) → (answer bytes m).code ≡ success_code

abbrev Each : (ℕ → ImportReq → Type 0) → ℕ → List ImportReq → Type 0
Each P k [] = Unit
Each P k (r ∷ reqs) = P k r × Each P (suc k) reqs

Each-mono :
    (P Q : ℕ → ImportReq → Type 0) (k : ℕ) (reqs : List ImportReq)
    → ((n : ℕ) (r : ImportReq) → k ≤ n → P n r → Q n r)
    → Each P k reqs
    → Each Q k reqs
Each-mono P Q k [] f h = tt
Each-mono P Q k (r ∷ reqs) f h =
    (f k r (omega arith) h.0, Each-mono P Q (suc k) reqs (λ n s l. f n s (omega arith)) h.1)

build_import_req_fields-IsNumbered :
    (k : ℕ) (reqs : List ImportReq) → IsNumbered k (build_import_req_fields (named k reqs)).0
unfolding build_import_req_fields named
build_import_req_fields-IsNumbered k [] = tt
build_import_req_fields-IsNumbered k (r ∷ reqs) =
    (refl, build_import_req_fields-IsNumbered (suc k) reqs)

-- The form has the text of every message, and its metadata under its name.
abbrev Sends : ImportForm → ℕ → ImportReq → Type 0
Sends form n r =
    In (n, r.encrypted_message ++ 13 ∷ 10 ∷ []) form.0 × (lookup n form.1 ≡ some r.metadata)

build_import_req_fields-Sends :
    (k : ℕ) (reqs : List ImportReq) → Each (Sends (build_import_req_fields (named k reqs))) k reqs
unfolding build_import_req_fields named
build_import_req_fields-Sends k [] = tt
build_import_req_fields-Sends k (r ∷ reqs) =
    let form = build_import_req_fields (named (suc k) reqs) in
    (
      (inl refl, ground (arith, lookup-insert k k r.metadata form.1, nat_beq_iff k k)),
      Each-mono (Sends form) _ (suc k) reqs
          (λ n s l h.
            (inr h.0, ground (arith, lookup-insert k n r.metadata form.1, nat_beq_iff k n)))
          (build_import_req_fields-Sends (suc k) reqs),
    )

lookup-named_res :
    (m : Assoc ℕ ImportRes) (responses : List (ℕ × ImportRes)) (n : ℕ) (res : ImportRes)
    → All (λ e. e.0 ≡ n → e.1 ≡ res) responses
    → In (n, res) responses ⊎ (lookup n m ≡ some res)
    → lookup n (named_res m responses) ≡ some res
unfolding named_res
lookup-named_res m [] n res only (inl h) = absurd h
lookup-named_res m [] n res only (inr h) = h
lookup-named_res m (e ∷ responses) n res only (inl (inr h)) =
    lookup-named_res (insert e.0 e.1 m) responses n res only.1 (inl h)
lookup-named_res m (e ∷ responses) n res only (inl (inl h)) =
    lookup-named_res (insert e.0 e.1 m) responses n res only.1
      (inr (ground (arith, lookup-insert e.0 n e.1 m, nat_beq_iff e.0 n)))
lookup-named_res m (e ∷ responses) n res only (inr h) =
    lookup-named_res (insert e.0 e.1 m) responses n res only.1
      (inr (ground (arith, only.0, lookup-insert e.0 n e.1 m, nat_beq_iff e.0 n)))

module _ (answer : List ℕ → ImportMetadata → ImportRes) where
  in_order-answer_of :
      (k : ℕ) (reqs : List ImportReq) (m : Assoc ℕ ImportRes)
      → Each (λ n r. lookup n m ≡ some (answer_of answer r)) k reqs
      → in_order k reqs m ≡ map (answer_of answer) reqs
  unfolding in_order
  in_order-answer_of k [] m h = refl
  in_order-answer_of k (r ∷ reqs) m h = rw (h.0, in_order-answer_of (suc k) reqs m h.1) refl

  module _ (post : ImportForm → Option (List (ℕ × ImportRes))) (server : IsServer post answer) where
    refusal-answer_of : (reqs : List ImportReq) → refusal (map (answer_of answer) reqs) ≡ none
    unfolding refusal
    refusal-answer_of [] = refl
    refusal-answer_of (r ∷ reqs) = rw (server.accepts _ r.metadata) (refusal-answer_of reqs)

    import_chunk-answer_of :
        (reqs : List ImportReq) → import_chunk post reqs ≡ imported (map (answer_of answer) reqs)
    unfolding import_chunk
    import_chunk-answer_of reqs =
        let form = build_import_req_fields (named 0 reqs) in
        let answered = in_order-answer_of 0 reqs (named_res [] (server.responses form)) (
          Each-mono (Sends form) _ 0 reqs
            (λ n r l h.
              let a =
                server.answers form (build_import_req_fields-IsNumbered 0 reqs) n _ r.metadata h.0
                  h.1 in
              lookup-named_res [] (server.responses form) n _ a.1 (inl a.0))
            (build_import_req_fields-Sends 0 reqs)) in
        rw (import_chunk, server.responds form, answered, refusal-answer_of reqs)
          (ap imported answered)

    import_chunks-answer_of :
        (cs : List (List ImportReq))
        → import_chunks post cs ≡ imported (map (answer_of answer) (concat cs))
    unfolding import_chunks
    import_chunks-answer_of [] = refl
    import_chunks-answer_of (c ∷ cs) =
        rw (import_chunk-answer_of c, import_chunks-answer_of cs)
          (ap imported (sym (map-append (answer_of answer) c (concat cs))))

module _ (encrypt : List ℕ → Option (List ℕ)) (sealed : List ℕ → List ℕ) where
  -- The message can be encrypted, and its text is not too long to send.
  abbrev pub CanSend : ImportReq → Type 0
  CanSend r =
      (encrypt r.message ≡ some (sealed r.message)) × (length (sealed r.message) ≤ max_import_size)

  abbrev seal : ImportReq → ImportReq
  seal r = record r { encrypted_message = sealed r.message }

  encrypt_all-seal :
      (i : ℕ) (reqs : List ImportReq)
      → All CanSend reqs
      → encrypt_all encrypt i reqs ≡ imported (map seal reqs)
  unfolding encrypt_all
  encrypt_all-seal i [] h = refl
  encrypt_all-seal i (r ∷ reqs) h = rw (encrypt_all, h.0.0, encrypt_all-seal (suc i) reqs h.1)

  seal-sizes :
      (reqs : List ImportReq)
      → All CanSend reqs
      → (any (λ r. ltb max_import_size (encrypted_size r)) (map seal reqs) ≡ false)
        × All (λ r. encrypted_size r ≤ max_import_size) (map seal reqs)
        × (length (map seal reqs) ≡ length reqs)
  unfolding any
  seal-sizes [] h = (refl, tt, refl)
  seal-sizes (r ∷ reqs) h =
      let rest = seal-sizes reqs h.1 in
      let fits : ltb max_import_size (length (sealed r.message)) ≡ false = ground arith in
      (rw (fits, rest.0), (h.0.1, rest.1), ap suc rest.2)

  map-answer_of-seal :
      (answer : List ℕ → ImportMetadata → ImportRes) (reqs : List ImportReq)
      → map (answer_of answer) (map seal reqs)
        ≡ map (λ r. answer (sealed r.message ++ 13 ∷ 10 ∷ []) r.metadata) reqs
  map-answer_of-seal answer [] = refl
  map-answer_of-seal answer (r ∷ reqs) =
      ap (λ t. answer_of answer (seal r) ∷ t) (map-answer_of-seal answer reqs)

-- Where every message can be encrypted and is not too large then, and the server accepts each, an
-- import ends, and has one result for each message, in the order of the messages: the response to
-- its encrypted text with a line end, under its own metadata. It does not depend on how the
-- messages are divided into chunks or on the order in which the server answers. One round for each
-- message, and one more, are enough.
pub import_messages_answered :
    (fuel : ℕ) (encrypt : List ℕ → Option (List ℕ)) (sealed : List ℕ → List ℕ)
    (post : ImportForm → Option (List (ℕ × ImportRes)))
    (answer : List ℕ → ImportMetadata → ImportRes) (reqs : List ImportReq)
    → IsServer post answer
    → All (CanSend encrypt sealed) reqs
    → length reqs < fuel
    → import_messages fuel encrypt post reqs
      ≡ imported (map (λ r. answer (sealed r.message ++ 13 ∷ 10 ∷ []) r.metadata) reqs)
unfolding import_messages
import_messages_answered fuel encrypt sealed post answer reqs server can enough =
    let (fits, sizes, len) = seal-sizes encrypt sealed reqs can in
    let divided =
      chunk_sized-IsDivided fuel (map (seal encrypt sealed) reqs) max_import_count max_import_size
        encrypted_size (omega arith) (omega arith) sizes (omega arith) in
    rw
      (
        encrypt_all-seal encrypt sealed 0 reqs can,
        fits,
        divided.1,
        import_chunks-answer_of answer post server divided.0,
        divided.2,
      )
      (ap imported (map-answer_of-seal encrypt sealed answer reqs))
