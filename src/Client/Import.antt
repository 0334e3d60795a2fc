-- ===== src/Client/Import.antt =====
-- message_import.go: `ImportMessages`, which encrypts messages and imports them in chunks, and
-- `ChunkSized`. The encryption (`EncryptRFC822`) and the request are arguments. A name is the number
-- that `strconv.Itoa` prints, and the file name and the content type of a field follow from it. Sizes
-- are natural numbers in place of int: no sum of them overflows.
pub mod Chunks
pub mod Answered
use go_proton_api.Base.{
  ℕ, zero, suc, ◌+◌, ◌*◌, Bool, String, Option, none, some, List, [], ◌∷◌, ◌++◌, ◌&&◌, length, map,
  any, ltb, if◌then◌else◌, nat_eq, ◌==◌, not,
}
use go_proton_api.Base.Assoc.{Assoc, insert, lookup}
use go_proton_api.Backend.Exec.{Outcome, returned, stuck}

abbrev pub max_import_count : ℕ
max_import_count = 10

abbrev pub max_import_size : ℕ
max_import_size = 70 * 1024 * 1024

-- The loops of `ChunkSized`. The outer one has no bound of its own: running out of fuel is `stuck`.
module _ {T : Type 0} (max_len max_size : ℕ) (get_size : T → ℕ) where
  -- The inner loop: the chunk with its size so far, and the values that are left.
  unfoldable pub take_chunk : List T → ℕ → List T → List T × List T
  take_chunk chunk size [] = (chunk, [])
  take_chunk chunk size (v ∷ vals) =
      let rest = take_chunk (chunk ++ v ∷ []) (size + get_size v) vals in
      if ltb (length chunk) max_len && ltb size max_size
      then (if ltb max_size (size + get_size v) then (chunk, v ∷ vals) else rest)
      else (chunk, v ∷ vals)

  unfoldable pub more_chunks : ℕ → List (List T) → List T → Outcome (List (List T))
  unfolding take_chunk
  more_chunks zero chunks vals = stuck
  more_chunks (suc fuel) chunks [] = returned chunks
  more_chunks (suc fuel) chunks (v ∷ vals) =
      let (chunk, rest) = take_chunk [] 0 (v ∷ vals) in more_chunks fuel (chunks ++ chunk ∷ []) rest

unfoldable pub chunk_sized : {T : Type 0} → ℕ → List T → ℕ → ℕ → (T → ℕ) → Outcome (List (List T))
unfolding more_chunks
chunk_sized fuel vals max_len max_size get_size = more_chunks max_len max_size get_size fuel [] vals

pub record ImportMetadata : Type 0 where
  pub address_id : String
  pub label_ids : List String
  pub unread : Bool
  pub flags : ℕ

pub record ImportReq : Type 0 where
  pub metadata : ImportMetadata
  pub message : List ℕ
  pub encrypted_message : List ℕ

pub record ImportRes : Type 0 where
  pub code : ℕ
  pub message_id : String

-- `SuccessCode`.
abbrev pub success_code : ℕ
success_code = 1000

pub data ImportResult (A : Type 0) : Type 0 where
  imported : A → ImportResult A
  encrypt_failed : ℕ → ImportResult A
  size_exceeded request_failed looping : ImportResult A
  refused : ImportRes → ImportResult A

abbrev pub and_then : {A B : Type 0} → ImportResult A → (A → ImportResult B) → ImportResult B
and_then (imported a) f = f a
and_then (encrypt_failed i) f = encrypt_failed i
and_then size_exceeded f = size_exceeded
and_then request_failed f = request_failed
and_then looping f = looping
and_then (refused res) f = refused res

unfoldable pub named : ℕ → List ImportReq → List (ℕ × ImportReq)
named i [] = []
named i (r ∷ reqs) = (i, r) ∷ named (suc i) reqs

-- The fields of the files, each with its name, and the metadata by name.
abbrev pub ImportForm : Type 0
ImportForm = List (ℕ × List ℕ) × Assoc ℕ ImportMetadata

unfoldable pub build_import_req_fields : List (ℕ × ImportReq) → ImportForm
build_import_req_fields [] = ([], [])
build_import_req_fields ((name, r) ∷ reqs) =
    let (fields, metadata) = build_import_req_fields reqs in
    ((name, r.encrypted_message ++ 13 ∷ 10 ∷ []) ∷ fields, insert name r.metadata metadata)

-- The responses by name: of two with one name the last.
unfoldable pub named_res : Assoc ℕ ImportRes → List (ℕ × ImportRes) → Assoc ℕ ImportRes
named_res m [] = m
named_res m ((name, res) ∷ responses) = named_res (insert name res m) responses

-- A missing response is the zero value.
abbrev pub or_zero : Option ImportRes → ImportRes
or_zero none = record { code = 0; message_id = "" }
or_zero (some res) = res

unfoldable pub in_order : ℕ → List ImportReq → Assoc ℕ ImportRes → List ImportRes
in_order i [] m = []
in_order i (r ∷ reqs) m = or_zero (lookup i m) ∷ in_order (suc i) reqs m

-- The first response that is no success.
unfoldable pub refusal : List ImportRes → Option ImportRes
refusal [] = none
refusal (res ∷ results) = if res.code == success_code then refusal results else some res

module _ (encrypt : List ℕ → Option (List ℕ)) where
  unfoldable pub encrypt_all : ℕ → List ImportReq → ImportResult (List ImportReq)
  encrypt_all i [] = imported []
  encrypt_all i (r ∷ reqs) =
      let rest = encrypt_all (suc i) reqs in
      elim (encrypt r.message) [
        | none ↦ encrypt_failed i
        | some e ↦ and_then rest λ done. imported (record r { encrypted_message = e } ∷ done)
      ]

module _ (post : ImportForm → Option (List (ℕ × ImportRes))) where
  -- `importMessages` and the check of its results.
  unfoldable pub import_chunk : List ImportReq → ImportResult (List ImportRes)
  unfolding build_import_req_fields named named_res in_order refusal
  import_chunk reqs = elim (post (build_import_req_fields (named 0 reqs))) [
    | none ↦ request_failed
    | some responses ↦
        let results = in_order 0 reqs (named_res [] responses) in
        elim (refusal results) [ none ↦ imported results | some res ↦ refused res ]
  ]

  -- What a reader of the stream gets: the chunks in their order, up to an error.
  unfoldable pub import_chunks : List (List ImportReq) → ImportResult (List ImportRes)
  unfolding import_chunk
  import_chunks [] = imported []
  import_chunks (chunk ∷ chunks) =
      let rest = import_chunks chunks in
      and_then (import_chunk chunk) λ results. and_then rest λ more. imported (results ++ more)

abbrev pub encrypted_size : ImportReq → ℕ
encrypted_size r = length r.encrypted_message

abbrev pub chunks_of : Outcome (List (List ImportReq)) → ImportResult (List (List ImportReq))
chunks_of (returned chunks) = imported chunks
chunks_of _ = looping

unfoldable pub import_messages :
    ℕ
    → (List ℕ → Option (List ℕ))
    → (ImportForm → Option (List (ℕ × ImportRes)))
    → List ImportReq
    → ImportResult (List ImportRes)
unfolding encrypt_all chunk_sized import_chunks any
import_messages fuel encrypt post reqs = and_then (encrypt_all encrypt 0 reqs) λ sealed.
    if any (λ r. ltb max_import_size (encrypted_size r)) sealed
    then size_exceeded
    else and_then
        (chunks_of (chunk_sized fuel sealed max_import_count max_import_size encrypted_size))
        (import_chunks post)
