-- ===== src/Client/Paging/Served.antt =====
-- `GetMessageMetadata` against the backend: its requests, answered by `getMailMessages`.
use go_proton_api.Base.{
  ℕ, suc, ◌≤◌, String, string_eq, false, some, List, [], ◌∷◌, ◌==◌, get_elem?, length,
  length-filter-le, ◌≡◌, refl, ap, ◌∙◌, arith, Bool-cases, Option-cases, inl, inr, if◌then◌else◌,
}
use go_proton_api.Base.Int.{pos}
use go_proton_api.Base.Assoc.{Assoc, find_key, lookup}
use go_proton_api.Backend.Types.{Account, Attachment, Message}
use go_proton_api.Backend.Exec.{Outcome, returned, and_then}
use go_proton_api.Backend.Store.{Store, get_acc, with_acc_ret}
use go_proton_api.Backend.Metadata.{Metadata, to_metadata}
use go_proton_api.Backend.Mailbox.{count_messages}
use go_proton_api.Backend.Search.{
  ListTools, MessageFilter, all_metadata, from_end_id, get_mail_messages, get_messages, is_match,
  page_of, select, skip_to,
}
use go_proton_api.Client.Paging.{ask_until_fresh, get_message_metadata, max_page_size}
use go_proton_api.Client.Paging.Whole.{AreChunks, IsInOrder, chunk_at, concat, fetch_paged_whole}

-- What is documented of juniper's slices.
pub record IsListTools (tools : ListTools) : Type 0 where
  pub chunks :
      (n : ℕ) (ms : List Metadata)
      → (cs : List (List Metadata)) × (tools.chunk (pos (suc n)) ms ≡ some cs)
        × AreChunks (suc n) cs
        × (concat cs ≡ ms)
  pub reversed : (ms : List Metadata) → length (tools.reverse ms) ≡ length ms

-- The two requests of the client; the fake server never answers with Stale.
module _ (tools : ListTools) (user_id : String) (f : MessageFilter) (b : Store) where
  unfoldable pub served_count : Outcome ℕ
  served_count = and_then (get_mail_messages tools user_id (pos 0) (pos 0) f b).0 λ r. returned r.1

  unfoldable pub served_page : ℕ → ℕ → Outcome (List Metadata)
  unfolding ask_until_fresh
  served_page page size = ask_until_fresh 1 0 λ k.
      and_then (get_mail_messages tools user_id (pos page) (pos size) f b).0
        λ r. returned (r.0, false)

length-skip_to :
    (id : String) (ms rest : List Metadata) → skip_to id ms ≡ some rest → length rest ≤ length ms
unfolding skip_to
length-skip_to id [] rest h = absurd (ground arith)
length-skip_to id (m ∷ ms) rest h = elim (Bool-cases (m.id == id)) [
  | inl e ↦ ground arith
  | inr e ↦ let shorter = length-skip_to id ms rest (ground arith) in omega arith
]

length-from_end_id : (id : String) (ms : List Metadata) → length (from_end_id id ms) ≤ length ms
unfolding from_end_id
length-from_end_id id ms = elim (Bool-cases (id == "")) [
  | inl e ↦ ground arith
  | inr e ↦ elim (Option-cases (skip_to id ms)) [
    | inl n ↦ ground arith
    | inr (rest, s) ↦ let shorter = length-skip_to id ms rest s in ground arith
  ]
]

length-select :
    (tools : ListTools) (f : MessageFilter) (ms : List Metadata)
    → IsListTools tools
    → length (select tools f ms) ≤ length ms
unfolding select
length-select tools f ms laws =
    let ordered = if f.desc then tools.reverse ms else ms in
    let same : length ordered ≡ length ms = ground (arith, laws.reversed ms) in
    omega (
      arith,
      length-filter-le (is_match tools f) (from_end_id f.end_id ordered),
      length-from_end_id f.end_id ordered,
      same,
    )

length-all_metadata :
    (att_data : Assoc String (List ℕ)) (atts : Assoc String Attachment)
    (messages : Assoc String Message) (ids : List String) (ms : List Metadata)
    → all_metadata att_data atts messages ids ≡ some ms
    → length ms ≡ length ids
unfolding all_metadata
length-all_metadata att_data atts messages [] ms h = ground arith
length-all_metadata att_data atts messages (id ∷ ids) ms h =
    elim (Option-cases (lookup id messages)) [
      | inl e ↦ absurd (ground arith)
      | inr (msg, e) ↦ elim (Option-cases (to_metadata att_data atts msg)) [
        | inl t ↦ absurd (ground arith)
        | inr (m, t) ↦ elim (Option-cases (all_metadata att_data atts messages ids)) [
          | inl r ↦ absurd (ground arith)
          | inr (rest, r) ↦
              let short = length-all_metadata att_data atts messages ids rest r in ground arith
        ]
      ]
    ]

page_of-chunk_at : (cs : List (List Metadata)) (i : ℕ) → page_of cs (pos i) ≡ some (chunk_at cs i)
unfolding page_of
page_of-chunk_at cs i = elim (Option-cases (get_elem? cs i)) [
  | inl e ↦ rw (page_of, chunk_at, e) refl
  | inr (c, e) ↦ rw (page_of, chunk_at, e) refl
]

count_messages-length :
    (user_id p : String) (b : Store) (acc : Account)
    → find_key (λ acc. acc.user_id == user_id) b.accounts ≡ some p
    → lookup p b.accounts ≡ some acc
    → count_messages user_id b ≡ (returned (length acc.message_ids), b)
unfolding count_messages with_acc_ret get_acc
count_messages-length user_id p b acc k q = rw (count_messages, with_acc_ret, get_acc, k, q) refl

get_messages-chunk_at :
    (tools : ListTools) (user_id p : String) (f : MessageFilter) (b : Store) (acc : Account)
    (ms : List Metadata) (cs : List (List Metadata)) (i n : ℕ)
    → find_key (λ acc. acc.user_id == user_id) b.accounts ≡ some p
    → lookup p b.accounts ≡ some acc
    → all_metadata b.att_data b.attachments b.messages acc.message_ids ≡ some ms
    → tools.chunk (pos (suc n)) (select tools f ms) ≡ some cs
    → get_messages tools user_id (pos i) (pos (suc n)) f b ≡ (returned (chunk_at cs i), b)
unfolding get_messages with_acc_ret get_acc
get_messages-chunk_at tools user_id p f b acc ms cs i n k q m c =
    rw (get_messages, with_acc_ret, get_acc, k, q, m, c, page_of-chunk_at cs i) refl

-- What the handler answers, by what the two methods return.
answer :
    (tools : ListTools) (user_id : String) (f : MessageFilter) (b : Store) (page : List Metadata)
    (total i n : ℕ)
    → get_messages tools user_id (pos i) (pos (suc n)) f b ≡ (returned page, b)
    → count_messages user_id b ≡ (returned total, b)
    → get_mail_messages tools user_id (pos i) (pos (suc n)) f b ≡ (returned (page, total), b)
unfolding get_mail_messages
answer tools user_id f b page total i n g c = rw (get_mail_messages, g, c) refl

default_size :
    (tools : ListTools) (user_id : String) (f : MessageFilter) (b : Store) (i : ℕ)
    → get_mail_messages tools user_id (pos i) (pos 0) f b
      ≡ get_mail_messages tools user_id (pos i) (pos 100) f b
unfolding get_mail_messages
default_size tools user_id f b i = refl

module _ (tools : ListTools) (user_id p : String) (f : MessageFilter) (b : Store) (acc : Account)
    (ms : List Metadata) (laws : IsListTools tools)
    (user : find_key (λ acc. acc.user_id == user_id) b.accounts ≡ some p)
    (found : lookup p b.accounts ≡ some acc)
    (shown : all_metadata b.att_data b.attachments b.messages acc.message_ids ≡ some ms) where
  mail_answer :
      (cs : List (List Metadata)) (i n : ℕ)
      → tools.chunk (pos (suc n)) (select tools f ms) ≡ some cs
      → get_mail_messages tools user_id (pos i) (pos (suc n)) f b
        ≡ (returned (chunk_at cs i, length acc.message_ids), b)
  mail_answer cs i n c =
      answer tools user_id f b (chunk_at cs i) (length acc.message_ids) i n
        (get_messages-chunk_at tools user_id p f b acc ms cs i n user found shown c)
        (count_messages-length user_id p b acc user found)

  served_count-length : served_count tools user_id f b ≡ returned (length acc.message_ids)
  unfolding served_count
  served_count-length =
      let (cs, c, chunks, whole) = laws.chunks 99 (select tools f ms) in
      ap (λ (r : Outcome (List Metadata × ℕ) × Store). and_then r.0 λ x. returned x.1)
        (default_size tools user_id f b 0 ∙ mail_answer cs 0 99 c)

  served_page-chunk_at :
      (cs : List (List Metadata)) (i : ℕ)
      → tools.chunk (pos max_page_size) (select tools f ms) ≡ some cs
      → served_page tools user_id f b i max_page_size ≡ returned (chunk_at cs i)
  unfolding served_page ask_until_fresh
  served_page-chunk_at cs i c = rw (mail_answer cs i 149 c) refl

  -- `GetMessageMetadata` gets all messages of the user that the filter lets through, in the order of the
  -- backend, whenever the metadata of the messages can be computed: the total counts messages that do
  -- not match too, so it asks for pages enough.
  pub get_message_metadata_complete :
      (collect : ℕ → (ℕ → Outcome (List Metadata)) → Outcome (List Metadata))
      → IsInOrder collect
      → get_message_metadata collect
          (served_count tools user_id f b)
          (served_page tools user_id f b)
        ≡ returned (select tools f ms)
  unfolding get_message_metadata
  get_message_metadata_complete collect order =
      let (cs, c, chunks, whole) = laws.chunks 149 (select tools f ms) in
      let total = length acc.message_ids in
      let small : length (concat cs) ≤ total = omega (
        arith,
        ap length whole,
        length-select tools f ms laws,
        length-all_metadata b.att_data b.attachments b.messages acc.message_ids ms shown,
      ) in
      rw served_count-length (
        fetch_paged_whole collect cs total (served_page tools user_id f b) order chunks small
          (λ i. served_page-chunk_at cs i c)
        ∙ ap returned whole)
