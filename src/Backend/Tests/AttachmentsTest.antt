-- ===== src/Backend/Tests/AttachmentsTest.antt =====
-- Two attachments with one file name that share their bytes, on a message of the user.
use go_proton_api.Base.{
  String, string_eq, true, some, none, [], ◌∷◌, ◌==◌, ◌≡◌, refl, arith, Bool-cases, inl, inr,
}
use go_proton_api.Base.Assoc.{insert, lookup}
use go_proton_api.Backend.Types.{Attachment}
use go_proton_api.Backend.Exec.{for_each, returned}
use go_proton_api.Backend.Store.{Store, post, with_acc}
use go_proton_api.Backend.Mailbox.{delete_message, count_sharing, set_messages_read}
use go_proton_api.Backend.Attachments.{create_attachment, sort_attachments}
use go_proton_api.Backend.Attachments.Sorting.{sort_attachments_drops}
use go_proton_api.Backend.Attachments.Sharing.{IsCounted, delete_message-IsCounted}
use go_proton_api.Backend.Attachments.Creating.{create_attachment-IsCounted}
use go_proton_api.Backend.Tests.Fixture.{letter, mailbox, owner}

abbrev photo : String → Attachment
photo id = record {
  attach_id = id;
  att_data_id = "d";
  filename = "photo.png";
  mime_type = "image/png";
  disposition = "attachment";
  content_id = "";
  key_packets = [];
  arm_sig = "";
}

abbrev store : Store
store = record mailbox {
  accounts = ("u", record owner { message_ids = "m" ∷ [] }) ∷ [];
  messages = ("m", letter) ∷ [];
  attachments = ("p", photo "p") ∷ ("q", photo "q") ∷ [];
  att_data = ("d", 1 ∷ 2 ∷ []) ∷ [];
}

store-IsCounted : IsCounted store
unfolding lookup count_sharing
store-IsCounted = record {
  keys = (refl, (refl, tt));
  counted = λ d. elim (Bool-cases ("d" == d)) [
    | inl e ↦ ((λ n. ground arith), (λ n. ground arith))
    | inr e ↦ ((λ n. ground arith), (λ n. ground arith))
  ];
}

delete_message-IsCounted_example : IsCounted (delete_message "u" "m" store).1
delete_message-IsCounted_example = (delete_message-IsCounted "u" "m").at store store-IsCounted

new_id : lookup "r" store.attachments ≡ none
unfolding lookup
new_id = refl

create_attachment-IsCounted_example :
    IsCounted (create_attachment "u" "m" (photo "r") (3 ∷ []) store).1
create_attachment-IsCounted_example =
    create_attachment-IsCounted "u" "m" (photo "r") (3 ∷ []) store store-IsCounted new_id

p_there : lookup "p" store.attachments ≡ some (photo "p")
unfolding lookup
p_there = refl

q_there : lookup "q" store.attachments ≡ some (photo "q")
unfolding lookup
q_there = refl

sort_attachments_drops_example :
    sort_attachments store.attachments ("p" ∷ "q" ∷ []) ≡ some ("q" ∷ [])
sort_attachments_drops_example =
    sort_attachments_drops store.attachments "p" "q" (photo "p") (photo "q") p_there q_there refl
      refl refl

sorted_both : sort_attachments store.attachments ("q" ∷ "p" ∷ []) ≡ some ("p" ∷ [])
unfolding sort_attachments lookup insert
sorted_both = refl

read_goes_through : (set_messages_read "u" true ("m" ∷ []) store).0 ≡ returned tt
unfolding set_messages_read with_acc lookup for_each post
read_goes_through = refl
