-- ===== src/Client/Tests/PagingTest.antt =====
-- A client reads the metadata of two messages, newest first, of which one matches.
use go_proton_api.Base.{string_eq, true, false, some, List, [], ◌∷◌, ◌==◌, ◌≡◌, refl}
use go_proton_api.Base.Assoc.{find_key, lookup}
use go_proton_api.Backend.Types.{Account, Message}
use go_proton_api.Backend.Exec.{returned}
use go_proton_api.Backend.Store.{Store}
use go_proton_api.Backend.Metadata.{Metadata, to_metadata, attachments_size}
use go_proton_api.Backend.Message.{shown_labels}
use go_proton_api.Backend.Search.{MessageFilter, all_metadata, select}
use go_proton_api.Backend.Tests.Fixture.{letter, mailbox, owner}
use go_proton_api.Client.Paging.{get_message_metadata}
use go_proton_api.Client.Paging.Served.{get_message_metadata_complete, served_count, served_page}
use go_proton_api.Client.Tests.Slices.{in_order, in_order-IsInOrder, slices, slices-IsListTools}

abbrev first : Message
first = record letter { att_ids = [] }

abbrev second : Message
second = record letter { message_id = "k"; att_ids = []; addr_id = "other" }

abbrev reader : Account
reader = record owner { message_ids = "m" ∷ "k" ∷ [] }

abbrev store : Store
store = record mailbox {
  accounts = ("u", reader) ∷ [];
  messages = ("m", first) ∷ ("k", second) ∷ [];
}

abbrev by_address : MessageFilter
by_address = record {
  ids = [];
  subject = "";
  address_id = "other";
  external_id = "";
  label_id = "";
  end_id = "";
  desc = true;
}

abbrev shown_of : Message → Metadata
shown_of msg = record {
  id = msg.message_id;
  external_id = msg.external_id;
  address_id = msg.addr_id;
  label_ids = shown_labels msg;
  subject = msg.subject;
  sender = msg.sender;
  to_list = [];
  cc_list = [];
  bcc_list = [];
  reply_tos = [];
  size = 0;
  flags = 0;
  unread = true;
  is_forwarded = false;
  is_replied = false;
  is_replied_all = false;
  num_attachments = 0;
}

abbrev both : List Metadata
both = shown_of first ∷ shown_of second ∷ []

reader_user : find_key (λ acc. acc.user_id == "u") store.accounts ≡ some "u"
unfolding find_key
reader_user = refl

reader_found : lookup "u" store.accounts ≡ some reader
unfolding lookup
reader_found = refl

both_shown :
    all_metadata store.att_data store.attachments store.messages reader.message_ids ≡ some both
unfolding all_metadata to_metadata attachments_size lookup
both_shown = refl

get_message_metadata_complete_example :
    get_message_metadata in_order
      (served_count slices "u" by_address store)
      (served_page slices "u" by_address store)
    ≡ returned (select slices by_address both)
get_message_metadata_complete_example =
    get_message_metadata_complete slices "u" "u" by_address store reader both slices-IsListTools
      reader_user reader_found both_shown in_order in_order-IsInOrder
