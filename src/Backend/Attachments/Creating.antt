-- ===== src/Backend/Attachments/Creating.antt =====
-- A new attachment and the bytes that it points to.
use go_proton_api.Base.{
  ℕ, ◌+◌, String, string_eq, nat_eq, false, not, ◌&&◌, ◌||◌, none, List, [], ◌∷◌, ◌++◌, ◌==◌, ◌≡◌,
  refl, sym, ap, ◌∙◌, subst, arith, str_iff, Bool-cases, Option-cases, inl, inr,
}
use go_proton_api.Base.Assoc.{Assoc, find_key, insert, insert_new, lookup, lookup-insert}
use go_proton_api.Backend.Types.{Attachment, Message}
use go_proton_api.Backend.Updates.{message_updated}
use go_proton_api.Backend.Exec.{pure, ◌>>◌}
use go_proton_api.Backend.Store.{Store, post, with_acc_ret}
use go_proton_api.Backend.Store.Keeps.{Keeps, keeps_rules}
use go_proton_api.Backend.Mailbox.{count_sharing, edit_message}
use go_proton_api.Backend.Attachments.{
  attach_to, attached, create_att_data, create_attachment, inline,
}
use go_proton_api.Backend.Attachments.Sharing.{
  DistinctKeys, IsCounted, messages-IsCounted, one_if, post-IsCounted,
}

count-append :
    (d id : String) (m : Assoc String Attachment) (att : Attachment)
    → count_sharing d (m ++ (id, att) ∷ []) ≡ one_if (att.att_data_id == d) + count_sharing d m
unfolding count_sharing
count-append d id [] att = ground arith
count-append d id ((k, a) ∷ m) att = let rest = count-append d id m att in ground arith

missing-append :
    (k id : String) (m : Assoc String Attachment) (att : Attachment)
    → lookup k m ≡ none
    → (id == k) ≡ false
    → lookup k (m ++ (id, att) ∷ []) ≡ none
unfolding lookup
missing-append k id [] att h e = ground arith
missing-append k id ((j, a) ∷ m) att h e = elim (Bool-cases (j == k)) [
  | inl t ↦ absurd (ground arith)
  | inr t ↦ rw t (missing-append k id m att (ground arith) e)
]

DistinctKeys-append :
    (id : String) (m : Assoc String Attachment) (att : Attachment)
    → DistinctKeys m
    → lookup id m ≡ none
    → DistinctKeys (m ++ (id, att) ∷ [])
unfolding lookup
DistinctKeys-append id [] att h n = (refl, tt)
DistinctKeys-append id ((k, a) ∷ m) att h n = elim (Bool-cases (k == id)) [
  | inl t ↦ absurd (ground arith)
  | inr t ↦ (
    missing-append k id m att h.0 (ground (arith, str_iff k id, str_iff id k)),
    DistinctKeys-append id m att h.1 (ground arith),
  )
]

added-IsCounted :
    (att : Attachment) (bytes : List ℕ) (b : Store)
    → IsCounted b
    → lookup att.attach_id b.attachments ≡ none
    → IsCounted (record b {
      att_data = insert att.att_data_id bytes b.att_data;
      attachments = insert att.attach_id att b.attachments;
    })
added-IsCounted att bytes b h new_id =
    let grown = insert_new att.attach_id att b.attachments new_id in
    record {
      keys =
          subst DistinctKeys (sym grown)
            (DistinctKeys-append att.attach_id b.attachments att h.keys new_id);
      counted = λ d.
          let count = ap (count_sharing d) grown ∙ count-append d att.attach_id b.attachments att in
          let found = lookup-insert att.att_data_id d bytes b.att_data in
          let (to, from) = h.counted d in
          elim (Bool-cases (att.att_data_id == d)) [
            | inl e ↦ ((λ n. ground arith), (λ n. ground arith))
            | inr e ↦ (
              (λ n. let z = to (ground arith) in ground arith),
              (λ n. let z = from (ground arith) in ground arith),
            )
          ];
    }

edit_message-IsCounted : (id : String) (f : Message → Message) → Keeps IsCounted (edit_message id f)
unfolding edit_message
edit_message-IsCounted id f = search (keeps_rules, messages-IsCounted) depth 12

attach_to-IsCounted : (message_id id : String) → Keeps IsCounted (attach_to message_id id)
unfolding attach_to
attach_to-IsCounted message_id id = search (keeps_rules, edit_message-IsCounted) depth 16

-- The part of `CreateAttachment` after the writes to the two maps.
rest-IsCounted :
    (p message_id : String) (att : Attachment)
    → Keeps IsCounted
        (do attach_to message_id att.attach_id; post p (message_updated message_id); pure att)
rest-IsCounted p message_id att = search (keeps_rules, attach_to-IsCounted, post-IsCounted) depth 12

-- Creating an attachment under a fresh id, whether or not the call goes through, keeps the bytes of
-- the attachments that are there and no others.
pub create_attachment-IsCounted :
    (user_id message_id : String) (att : Attachment) (bytes : List ℕ) (b : Store)
    → IsCounted b
    → lookup att.attach_id b.attachments ≡ none
    → IsCounted (create_attachment user_id message_id att bytes b).1
unfolding create_attachment create_att_data with_acc_ret find_key
create_attachment-IsCounted user_id message_id att bytes b h fresh =
    elim (Bool-cases (not (att.disposition == inline || att.disposition == attached))) [
      | inl e ↦ rw e h
      | inr e ↦ elim (Bool-cases (att.disposition == inline && att.content_id == "")) [
        | inl c ↦ rw (e, c) h
        | inr c ↦ elim (Option-cases (find_key (λ acc. acc.user_id == user_id) b.accounts)) [
          | inl q ↦ rw (e, c, q) h
          | inr (p, q) ↦
              rw (e, c, q)
                ((rest-IsCounted p message_id att).at _ (added-IsCounted att bytes b h fresh))
        ]
      ]
    ]
