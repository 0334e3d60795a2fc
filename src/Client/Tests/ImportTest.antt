-- ===== src/Client/Tests/ImportTest.antt =====
-- A client imports three messages at a server that answers with the last name first.
use go_proton_api.Base.{
  ℕ, true, some, Option, none, List, [], ◌∷◌, ◌++◌, In, In-append_left, In-append_right, All,
  All-append, nat_eq, inl, inr, ◌≡◌, refl, ap, subst, arith, String,
}
use go_proton_api.Base.Assoc.{Assoc, lookup}
use go_proton_api.Backend.Exec.{returned}
use go_proton_api.Client.Import.{
  ImportReq, ImportRes, ImportMetadata, ImportForm, imported, or_zero, import_messages, chunk_sized,
}
use go_proton_api.Client.Import.Chunks.{chunk_sized-IsDivided, concat, IsChunk, IsPacked}
use go_proton_api.Client.Import.Answered.{IsServer, import_messages_answered}

two_chunks :
    chunk_sized 5 (3 ∷ 4 ∷ 2 ∷ 9 ∷ []) 10 9 (λ n. n) ≡ returned ((3 ∷ 4 ∷ 2 ∷ []) ∷ (9 ∷ []) ∷ [])
unfolding chunk_sized
two_chunks = refl

chunk_sized-IsDivided_example :
    (cs : List (List ℕ)) × (chunk_sized 4 (3 ∷ 4 ∷ 9 ∷ []) 10 9 (λ n. n) ≡ returned cs)
    × (concat cs ≡ 3 ∷ 4 ∷ 9 ∷ [])
    × All (IsChunk (λ n. n) 10 9) cs
    × IsPacked 10 9 (λ n. n) cs
chunk_sized-IsDivided_example =
    chunk_sized-IsDivided 4 (3 ∷ 4 ∷ 9 ∷ []) 10 9 (λ n. n) (omega arith) (omega arith) (omega arith)
      (omega arith)

abbrev answer : List ℕ → ImportMetadata → ImportRes
answer bytes m = record { code = 1000; message_id = m.address_id }

abbrev reply : Option ImportMetadata → ImportRes
reply none = or_zero none
reply (some m) = answer [] m

abbrev replies : Assoc ℕ ImportMetadata → List (ℕ × List ℕ) → List (ℕ × ImportRes)
replies metadata [] = []
replies metadata ((n, bytes) ∷ fields) =
    replies metadata fields ++ (n, reply (lookup n metadata)) ∷ []

replies_named :
    (metadata : Assoc ℕ ImportMetadata) (fields : List (ℕ × List ℕ)) (n : ℕ) (bytes : List ℕ)
    → In (n, bytes) fields
    → In (n, reply (lookup n metadata)) (replies metadata fields)
replies_named metadata [] n bytes h = absurd h
replies_named metadata (f ∷ fields) n bytes (inr h) =
    In-append_left _ (replies metadata fields) _ (replies_named metadata fields n bytes h)
replies_named metadata (f ∷ fields) n bytes (inl e) =
    let name : f.0 ≡ n = ap (λ p. p.0) e in
    In-append_right _ (replies metadata fields) _ (inl (rw name))

replies_alike :
    (metadata : Assoc ℕ ImportMetadata) (fields : List (ℕ × List ℕ)) (n : ℕ) (res : ImportRes)
    → reply (lookup n metadata) ≡ res
    → All (λ e. e.0 ≡ n → e.1 ≡ res) (replies metadata fields)
replies_alike metadata [] n res h = tt
replies_alike metadata (f ∷ fields) n res h =
    All-append _ (replies metadata fields) _ (replies_alike metadata fields n res h)
      ((λ name. rw name h), tt)

abbrev post : ImportForm → Option (List (ℕ × ImportRes))
post form = some (replies form.1 form.0)

post-IsServer : IsServer post answer
post-IsServer = record {
  responses = λ form. replies form.1 form.0;
  responds = λ form. refl;
  answers = λ form numbered n bytes m sent found. (
    subst (λ res. In (n, res) (replies form.1 form.0)) (ap reply found)
        (replies_named form.1 form.0 n bytes sent),
    replies_alike form.1 form.0 n (answer bytes m) (ap reply found),
  );
  accepts = λ bytes m. refl;
}

abbrev request : String → ImportReq
request address = record {
  metadata = record { address_id = address; label_ids = []; unread = true; flags = 0 };
  message = 1 ∷ [];
  encrypted_message = [];
}

abbrev encrypt : List ℕ → List ℕ
encrypt message = 7 ∷ message

import_messages_answered_example :
    import_messages 4 (λ m. some (encrypt m)) post (request "a" ∷ request "b" ∷ request "a" ∷ [])
    ≡ imported (
        answer [] (request "a").metadata
        ∷ answer [] (request "b").metadata
        ∷ answer [] (request "a").metadata
        ∷ [])
import_messages_answered_example =
    import_messages_answered 4 (λ m. some (encrypt m)) encrypt post answer
      (request "a" ∷ request "b" ∷ request "a" ∷ []) post-IsServer
      ((refl, omega arith), ((refl, omega arith), ((refl, omega arith), tt))) (omega arith)
