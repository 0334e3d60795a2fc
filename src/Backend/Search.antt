-- ===== src/Backend/Search.antt =====
-- `GetMessages` of server/backend/api.go, and the handler of server/messages.go that answers with a page.
-- No operation here changes the state.
use go_proton_api.Base.{
  ℕ, zero, suc, String, string_eq, Bool, true, ◌&&◌, ◌||◌, Option, none, some, List, [], ◌∷◌, ◌==◌,
  if◌then◌else◌, contains, filter, get_elem?,
}
use go_proton_api.Base.Int.{ℤ, pos, negsuc}
use go_proton_api.Base.Assoc.{Assoc, lookup, option_map}
use go_proton_api.Backend.Types.{Attachment, Message}
use go_proton_api.Backend.Exec.{or_panic, pure, reads, ◌>>=◌}
use go_proton_api.Backend.Store.{M, get_acc, with_acc_ret}
use go_proton_api.Backend.Metadata.{Metadata, to_metadata}
use go_proton_api.Backend.Mailbox.{count_messages}

-- message_types.go's `MessageFilter`.
pub record MessageFilter : Type 0 where
  pub ids : List String
  pub subject : String
  pub address_id : String
  pub external_id : String
  pub label_id : String
  pub end_id : String
  pub desc : Bool

-- `strings.Contains`, and `Reverse` and `Chunk` of juniper's xslices; `none` is a panic.
pub record ListTools : Type 0 where
  pub has_text : String → String → Bool
  pub reverse : List Metadata → List Metadata
  pub chunk : ℤ → List Metadata → Option (List (List Metadata))

-- `xslices.Map` over the ids, with the nil pointer of a missing message followed.
unfoldable pub all_metadata :
    Assoc String (List ℕ)
    → Assoc String Attachment
    → Assoc String Message
    → List String
    → Option (List Metadata)
all_metadata att_data atts messages [] = some []
all_metadata att_data atts messages (id ∷ ids) =
    let rest = all_metadata att_data atts messages ids in
    elim (lookup id messages) [
      | none ↦ none
      | some msg ↦ elim (to_metadata att_data atts msg) [
        | none ↦ none
        | some m ↦ option_map (◌∷◌ m) rest
      ]
    ]

-- What follows the first message with the id, that message included.
unfoldable pub skip_to : String → List Metadata → Option (List Metadata)
skip_to id [] = none
skip_to id (m ∷ ms) = let rest = skip_to id ms in if m.id == id then some (m ∷ ms) else rest

unfoldable pub from_end_id : String → List Metadata → List Metadata
unfolding skip_to
from_end_id id ms = if id == "" then ms else elim (skip_to id ms) [ none ↦ ms | some rest ↦ rest ]

unfoldable pub page_of : List (List Metadata) → ℤ → Option (List Metadata)
page_of pages (negsuc n) = none
page_of pages (pos i) = elim (get_elem? pages i) [ none ↦ some [] | some page ↦ some page ]

module _ (tools : ListTools) where
  unfoldable pub is_match : MessageFilter → Metadata → Bool
  is_match f m =
      (elim f.ids [ [] ↦ true | id ∷ ids ↦ contains (id ∷ ids) m.id ])
      && (f.subject == "" || tools.has_text m.subject f.subject)
      && (f.address_id == "" || f.address_id == m.address_id)
      && (f.external_id == "" || f.external_id == m.external_id)
      && (f.label_id == "" || contains m.label_ids f.label_id)

  -- The messages of a list that the filter lets through, in its order.
  unfoldable pub select : MessageFilter → List Metadata → List Metadata
  unfolding is_match from_end_id
  select f ms = filter (is_match f) (from_end_id f.end_id (if f.desc then tools.reverse ms else ms))

  unfoldable pub get_messages : String → ℤ → ℤ → MessageFilter → M (List Metadata)
  unfolding ◌>>=◌ all_metadata select page_of
  get_messages user_id page page_size f = with_acc_ret user_id λ p. do
    acc ← get_acc p
    b ← reads (λ b. b)
    ms ← or_panic (all_metadata b.att_data b.attachments b.messages acc.message_ids)
    pages ← or_panic (tools.chunk page_size (select f ms))
    or_panic (page_of pages page)

  abbrev pub page_or_first : ℤ → ℤ
  page_or_first (pos n) = pos n
  page_or_first (negsuc n) = pos 0

  abbrev pub size_or_default : ℤ → ℤ
  size_or_default (pos zero) = pos 100
  size_or_default (pos (suc n)) = pos (suc n)
  size_or_default (negsuc n) = pos 100

  -- `getMailMessages` answers with a page and the number of all messages.
  unfoldable pub get_mail_messages : String → ℤ → ℤ → MessageFilter → M (List Metadata × ℕ)
  unfolding ◌>>=◌ get_messages
  get_mail_messages user_id page page_size f = do
    page ← get_messages user_id (page_or_first page) (size_or_default page_size) f
    total ← count_messages user_id
    pure (page, total)
