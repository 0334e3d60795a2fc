-- ===== src/Backend/Tests/Fixture.antt =====
-- A backend with one user and no mail, written out.
use go_proton_api.Base.{true, some, none, [], ◌∷◌}
use go_proton_api.Base.Int.{pos}
use go_proton_api.Backend.Types.{Account, Message, reply}
use go_proton_api.Backend.Store.{Store}

abbrev pub owner : Account
owner = record {
  user_id = "u";
  username = "user";
  addresses = [];
  mail_settings = record {
    display_name = "user";
    sign = 0;
    pgp_scheme = 0;
    draft_mime_type = "text/html";
    attach_pub_key = true;
  };
  user_settings = record { telemetry = 1; crash_reports = 1 };
  contacts = [];
  contact_counter = 0;
  auth = [];
  keys = [];
  salt = [];
  verifier = [];
  label_ids = [];
  message_ids = [];
  update_ids = [];
}

abbrev pub mailbox : Store
mailbox = record {
  accounts = ("u", owner) ∷ [];
  attachments = [];
  att_data = [];
  messages = [];
  labels = [];
  updates = [];
  max_updates_per_event = pos 0;
  srp = [];
  auth_life = 1000;
  enable_dedup = true;
  feature_flags = [];
}

-- A message of the user with one attachment.
abbrev pub letter : Message
letter = record {
  message_id = "m";
  external_id = "";
  addr_id = "addr";
  label_ids = [];
  att_ids = "p" ∷ [];
  in_reply_to = "";
  internal_parent_id = "";
  sys_label = some "";
  subject = "hello";
  sender = none;
  to_list = [];
  cc_list = [];
  bcc_list = [];
  reply_tos = [];
  date = 0;
  draft_action = reply;
  arm_body = [];
  mime_type = "text/plain";
  flags = 0;
  unread = true;
  starred = true;
}
