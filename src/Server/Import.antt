-- ===== src/Server/Import.antt =====
-- The import of server/messages.go. rfc822, net/mail, mime and gopenpgp are the fields of ImportTools, and a
-- section is what rfc822 gives of it. Fresh ids are arguments; the text of an error is not kept.
use go_proton_api.Base.{
  ℕ, suc, ◌+◌, nat_eq, leb, ltb, String, string_eq, Bool, false, not, ◌&&◌, ◌||◌, Option, none,
  some, List, [], ◌∷◌, ◌++◌, ◌==◌, length, contains, if◌then◌else◌,
}
use go_proton_api.Backend.Types.{Attachment, LabelType, type_label, MailAddress}
use go_proton_api.Backend.Exec.{
  bad_value, crypto_failure, decode_failure, not_allowed, fail_if, for_each, or_fail, or_panic,
  pure, skip, ◌>>=◌, ◌>>◌, Outcome, returned, failed, panicked, stuck,
}
use go_proton_api.Backend.Store.{M}
use go_proton_api.Backend.Labels.{
  all_drafts_label, all_mail_label, all_sent_label, outbox_label, starred_label,
}
use go_proton_api.Backend.Message.{add_flag, new_message}
use go_proton_api.Backend.Mailbox.{label_messages}
use go_proton_api.Backend.Attachments.{create_attachment}
use go_proton_api.Backend.Delivery.{create_message}
use go_proton_api.Backend.Reads.{get_label}
use go_proton_api.Server.Response.{Handler, answer, bad_request, bind_json, invalid_value}

-- `content_type` is `none` where it cannot be parsed, and so are the header and, where `has_children` is
-- false, the children. A field that is missing from a header is empty.
pub record Part : Type 0 where
  pub content_type : Option (String × String)
  pub header : Option (String → String)
  pub has_disposition : Bool
  pub body : List ℕ
  pub has_children : Bool

mutual
  pub data Section : Type 0 where
    section : Part → Sections → Section

  pub data Sections : Type 0 where
    no_more : Sections
    more : Section → Sections → Sections

abbrev pub part_of : Section → Part
part_of (section part children) = part

abbrev pub parts_of : Sections → List Part
parts_of no_more = []
parts_of (more s rest) = part_of s ∷ parts_of rest

-- The bodies and the attachments.
abbrev pub Collected : Type 0
Collected = Option (List (List ℕ) × List Part)

abbrev pub join : Collected → Collected → Collected
join none rest = none
join (some found) none = none
join (some found) (some others) = some (found.0 ++ others.0, found.1 ++ others.1)

-- The second of two children of multipart/encrypted.
abbrev pub encrypted_body : List Part → Collected
encrypted_body (a ∷ b ∷ []) = some (b.body ∷ [], [])
encrypted_body _ = none

-- `all` is what the children give.
abbrev pub collect_part : Part → List Part → Collected → Collected
collect_part part children all = elim part.content_type [
  | none ↦ none
  | some mime ↦
      if mime.0 == "text"
      then some (part.body ∷ [], [])
      else if mime.0 == "multipart"
      then (if not part.has_children
          then none
          else if mime.1 == "encrypted"
          then encrypted_body children
          else all)
      else some ([], part ∷ [])
]

unfoldable mutual
  pub collect : Section → Collected
  collect (section part children) = collect_part part (parts_of children) (collect_all children)

  pub collect_all : Sections → Collected
  collect_all no_more = some ([], [])
  collect_all (more s rest) = join (collect s) (collect_all rest)

abbrev pub any_of_type : String → List Part → Bool
any_of_type subtype [] = false
any_of_type subtype (p ∷ parts) =
    let rest = any_of_type subtype parts in
    elim p.content_type [
      | none ↦ rest
      | some mime ↦ (mime.0 == "text" && mime.1 == subtype) || rest
    ]

-- A multipart type becomes multipart/mixed, unless the only child that is no attachment tells the type.
unfoldable pub mime_type_of : String × String → Part → List Part → ℕ → String × String
mime_type_of mime part children atts =
    if mime.0 == "multipart"
    then (if part.has_children && leb (length children) (atts + 1)
        then (if any_of_type "html" children
            then ("text", "html")
            else if any_of_type "plain" children
            then ("text", "plain")
            else ("multipart", "mixed"))
        else ("multipart", "mixed"))
    else mime

-- `date` reads the field Date, and `disposition` gives the type of Content-Disposition and its filename.
-- `split` is the split of a message of gopenpgp into its key packet and its data packet.
pub record ImportTools : Type 0 where
  pub parse : List ℕ → Section
  pub address : String → Option MailAddress
  pub addresses : String → Option (List MailAddress)
  pub date : String → Option ℕ
  pub disposition : String → Option (String × String)
  pub decode64 : List ℕ → Option (List ℕ)
  pub unarmor : List ℕ → Option (List ℕ)
  pub split : List ℕ → Option (List ℕ × List ℕ)
  pub joined_type : String × String → String

abbrev named : String → MailAddress
named s = record { display = s; address = "" }

module _ (tools : ImportTools) where
  unfoldable pub try_parse_address : String → Option MailAddress
  try_parse_address s =
      if s == ""
      then none
      else elim (tools.address s) [ none ↦ some (named s) | some addr ↦ some addr ]

  unfoldable pub try_parse_address_list : String → List MailAddress
  try_parse_address_list s =
      if s == "" then [] else elim (tools.addresses s) [ none ↦ named s ∷ [] | some addrs ↦ addrs ]

-- The header, the bodies, the attachments and the type.
pub record Parsed : Type 0 where
  pub header : String → String
  pub body : List (List ℕ)
  pub atts : List Part
  pub mime_type : String

abbrev sender_or_empty : Option MailAddress → MailAddress
sender_or_empty none = named ""
sender_or_empty (some addr) = addr

abbrev reply_or_empty : List MailAddress → List MailAddress
reply_or_empty [] = named "" ∷ []
reply_or_empty (a ∷ addrs) = a ∷ addrs

abbrev first_body : List (List ℕ) → Option (List ℕ)
first_body [] = none
first_body (b ∷ bodies) = some b

abbrev pub is_system : String → Bool
is_system id =
    id == all_drafts_label || id == all_sent_label || id == all_mail_label || id == outbox_label

-- A file of the import with its metadata; `new_attachment` gives the ids of the attachments and of their
-- bytes, by position.
pub record ImportReq : Type 0 where
  pub user_id : String
  pub addr_id : String
  pub label_ids : List String
  pub literal : List ℕ
  pub flags : ℕ
  pub unread : Bool
  pub new_id : String
  pub new_attachment : ℕ → String × String

module _ (tools : ImportTools) where
  unfoldable pub parse_message : List ℕ → Option Parsed
  unfolding collect mime_type_of
  parse_message literal = elim (tools.parse literal) [
    | section part children ↦ elim part.header [
      | none ↦ none
      | some header ↦ elim (collect (section part children)) [
        | none ↦ none
        | some found ↦ elim part.content_type [
          | none ↦ none
          | some mime ↦ some (record {
            header = header;
            body = found.0;
            atts = found.1;
            mime_type =
                tools.joined_type (mime_type_of mime part (parts_of children) (length found.1));
          })
        ]
      ]
    ]
  ]

  -- Without the field Date the date is 1970.
  abbrev date_of : String → Option ℕ
  date_of s = if s == "" then some 0 else tools.date s

  -- The first body is taken; without one the index is out of range.
  unfoldable pub import_body : ImportReq → Parsed → M String
  unfolding ◌>>=◌ create_message try_parse_address try_parse_address_list new_message add_flag
      contains
  import_body req parsed = do
    date ← or_fail decode_failure (date_of (parsed.header "Date"))
    body ← or_panic (first_body parsed.body)
    let msg =
        new_message req.addr_id (parsed.header "Subject")
          (some (sender_or_empty (try_parse_address tools (parsed.header "From"))))
          (try_parse_address_list tools (parsed.header "To"))
          (try_parse_address_list tools (parsed.header "Cc"))
          (try_parse_address_list tools (parsed.header "Bcc"))
          (reply_or_empty (try_parse_address_list tools (parsed.header "Reply-To"))) body
          parsed.mime_type "" date req.new_id
    create_message req.user_id (record msg {
      flags = add_flag msg.flags req.flags;
      unread = req.unread;
      starred = contains req.label_ids starred_label;
    })

  -- The disposition and the filename.
  abbrev disposition_of : Part → (String → String) → String × String
  disposition_of part header =
      if not part.has_disposition
      then ("attachment", "attachment.bin")
      else elim (tools.disposition (header "Content-Disposition")) [
        | none ↦ ("attachment", "attachment.bin")
        | some d ↦ d
      ]

  abbrev opened_body : Part → (String → String) → Option (List ℕ)
  opened_body part header =
      if header "Content-Transfer-Encoding" == "base64"
      then tools.decode64 part.body
      else tools.unarmor part.body

  unfoldable pub import_attachment : ImportReq → String → ℕ → Part → M Attachment
  unfolding ◌>>=◌ create_attachment
  import_attachment req message_id i part = do
    header ← or_fail decode_failure part.header
    mime ← or_fail decode_failure part.content_type
    message ← or_fail decode_failure (opened_body part header)
    packets ← or_fail crypto_failure (tools.split message)
    let d = disposition_of part header
    create_attachment req.user_id message_id
        (record {
          attach_id = (req.new_attachment i).0;
          att_data_id = (req.new_attachment i).1;
          filename = d.1;
          mime_type = tools.joined_type mime;
          disposition = d.0;
          content_id = header "Content-Id";
          key_packets = packets.0;
          arm_sig = "";
        })
        packets.1

  unfoldable pub import_attachments : ImportReq → String → ℕ → List Part → M Unit
  unfolding ◌>>=◌ import_attachment
  import_attachments req message_id i [] = skip
  import_attachments req message_id i (part ∷ parts) =
      let rest = import_attachments req message_id (suc i) parts in
      import_attachment req message_id i part >>= λ _. rest

  -- The labels that are exclusive; `same` is the equality of label types.
  unfoldable pub count_exclusive : (LabelType → LabelType → Bool) → String → List String → M ℕ
  unfolding ◌>>=◌ get_label
  count_exclusive same user_id [] = pure 0
  count_exclusive same user_id (id ∷ ids) =
      let rest = count_exclusive same user_id ids in
      do
        fail_if (is_system id) bad_value
        view ← get_label same user_id id
        n ← rest
        pure (if same view.label.label_type type_label then n else suc n)

  unfoldable pub import_message : (LabelType → LabelType → Bool) → ImportReq → M String
  unfolding ◌>>=◌ count_exclusive parse_message import_body import_attachments label_messages
  import_message same req = do
    exclusive ← count_exclusive same req.user_id req.label_ids
    fail_if (ltb 1 exclusive) not_allowed
    parsed ← or_fail decode_failure (parse_message req.literal)
    message_id ← import_body req parsed
    import_attachments req message_id 0 parsed.atts
    for_each req.label_ids λ label. label_messages req.user_id label false (message_id ∷ [])
    pure message_id

  -- What one file gets: its message, or the code of the error.
  abbrev answered : Outcome String → Outcome (ℕ × String)
  answered (returned id) = returned (1000, id)
  answered (failed e) = returned (invalid_value, "")
  answered panicked = panicked
  answered stuck = stuck

  -- The files with their names; an error of one does not keep the others out.
  unfoldable pub import_files :
      (LabelType → LabelType → Bool) → List (String × ImportReq) → M (List (String × ℕ × String))
  unfolding ◌>>=◌ import_message
  import_files same [] = pure []
  import_files same ((name, req) ∷ files) =
      let rest = import_files same files in
      do
        result ← (λ b. let (r, b') = import_message same req b in (answered r, b'))
        results ← rest
        pure ((name, result.0, result.1) ∷ results)

  unfoldable pub handle_put_mail_messages_import :
      (LabelType → LabelType → Bool)
      → Option (List (String × ImportReq))
      → Handler (List (String × ℕ × String))
  unfolding bind_json answer import_files
  handle_put_mail_messages_import same form =
      bind_json form λ files. answer bad_request (import_files same files)
