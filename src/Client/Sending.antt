-- ===== src/Client/Sending.antt =====
-- message_send_types.go: the packages of a message that is sent. gopenpgp and base64 are arguments. A
-- Go map is a list of entries, in the order of one `range`; MIME types are their texts, and the schemes
-- and signature types the numbers of their constants.
pub mod Types
pub mod Readers
pub mod Keys
use go_proton_api.Base.{
  ℕ, Bool, true, false, String, string_eq, nat_eq, ◌==◌, not, bit_or, Option, none, some, List, [],
  ◌∷◌, ◌++◌, ◌&&◌, if◌then◌else◌, any,
}
use go_proton_api.Base.Assoc.{Assoc, insert, values}
use go_proton_api.Client.Sending.Types.{
  clear_scheme, clear_mime_scheme, internal_scheme, pgp_inline_scheme, pgp_mime_scheme,
  detached_signature, MessageRecipient, SessionKey, MessagePackage, SendError, bad_mime_type,
  bad_signature_type, bad_scheme, must_encrypt, missing_key, crypto_error, SendResult, made, error,
  and_then, or_error, SendTools, SendPreferences, new_recipient, new_message_package,
  with_recipient,
}

module _ {Pub Key : Type 0} (tools : SendTools Pub Key) where
  unfoldable pub enc_split : String → SendResult (Key × List ℕ)
  enc_split body = and_then (or_error crypto_error (tools.encrypt body)) λ message.
      and_then (or_error crypto_error (tools.split message)) λ parts.
        and_then (or_error crypto_error (tools.open_key parts.0)) λ key. made (key, parts.1)

  -- The session key for the reader of one public key, in base64.
  unfoldable pub key_packet : Pub → Key → SendResult String
  key_packet ring key =
      and_then (or_error crypto_error (tools.encrypt_key ring key))
        λ packet. made (tools.base64 packet)

  unfoldable pub key_packets :
      Pub → Assoc String Key → Assoc String String → SendResult (Assoc String String)
  unfolding key_packet
  key_packets ring [] packets = made packets
  key_packets ring ((id, key) ∷ keys) packets =
      and_then (key_packet ring key) λ packet. key_packets ring keys (insert id packet packets)

  unfoldable pub show_keys : Assoc String Key → Assoc String SessionKey → Assoc String SessionKey
  show_keys [] shown = shown
  show_keys ((id, key) ∷ keys) shown = show_keys keys (insert id (tools.show_key key) shown)

  -- The guards of the loop of `newTextPackage`, and the default of its switch.
  unfoldable pub text_refused : String → SendPreferences Pub → Option SendError
  text_refused mime_type p =
      if not (p.mime_type == mime_type)
      then some bad_mime_type
      else if p.signature == detached_signature && not p.encrypt && p.scheme == pgp_inline_scheme
      then some bad_scheme
      else if p.signature == detached_signature
          && not p.encrypt
          && p.scheme == clear_scheme
          && not (mime_type == "text/plain")
      then some bad_mime_type
      else if p.scheme == internal_scheme && not p.encrypt
      then some must_encrypt
      else if p.scheme == pgp_inline_scheme && not (mime_type == "text/plain")
      then some bad_mime_type
      else if p.scheme == clear_scheme
      then none
      else if p.scheme == internal_scheme
      then none
      else if p.scheme == pgp_inline_scheme
      then none
      else some bad_scheme

  unfoldable pub text_recipient :
      Key → Assoc String Key → SendPreferences Pub → SendResult MessageRecipient
  unfolding key_packet key_packets
  text_recipient key att_keys p =
      let r = new_recipient p in
      if not p.encrypt
      then made r
      else and_then (or_error missing_key p.pub_key) λ ring.
        if not (p.signature == detached_signature)
        then error bad_signature_type
        else and_then (key_packet ring key) λ packet.
          and_then (key_packets ring att_keys []) λ packets.
            made (record r { body_key_packet = packet; attachment_key_packets = packets })

  abbrev pub with_clear_keys : Key → Assoc String Key → MessagePackage → MessagePackage
  with_clear_keys key att_keys pkg = record pkg {
    body_key = some (tools.show_key key);
    attachment_keys = show_keys att_keys pkg.attachment_keys;
  }

  unfoldable pub add_text_recipients :
      Key
      → Assoc String Key
      → String
      → Assoc String (SendPreferences Pub)
      → MessagePackage
      → SendResult MessagePackage
  unfolding text_refused text_recipient show_keys
  add_text_recipients key att_keys mime_type [] pkg = made pkg
  add_text_recipients key att_keys mime_type ((addr, p) ∷ prefs) pkg =
      elim (text_refused mime_type p) [
        | some e ↦ error e
        | none ↦ and_then (text_recipient key att_keys p) λ r.
            add_text_recipients key att_keys mime_type prefs (
              with_recipient addr r
                (if p.scheme == clear_scheme then with_clear_keys key att_keys pkg else pkg))
      ]

  unfoldable pub new_text_package :
      String
      → String
      → Assoc String (SendPreferences Pub)
      → Assoc String Key
      → SendResult MessagePackage
  unfolding enc_split add_text_recipients new_message_package
  new_text_package body mime_type prefs att_keys =
      if not (mime_type == "text/plain") && not (mime_type == "text/html")
      then error bad_mime_type
      else and_then (enc_split body) λ parts.
        add_text_recipients parts.0 att_keys mime_type prefs
          (new_message_package mime_type (tools.base64 parts.1))

  -- The loop of `newMIMEPackage`: the recipient, with the package before it is stored.
  unfoldable pub mime_recipient :
      Key → SendPreferences Pub → MessagePackage → SendResult (MessageRecipient × MessagePackage)
  unfolding key_packet
  mime_recipient key p pkg =
      let r = new_recipient p in
      if not (p.mime_type == "multipart/mixed")
      then error bad_mime_type
      else if not (p.signature == detached_signature)
      then error bad_signature_type
      else if p.scheme == pgp_mime_scheme
      then and_then (or_error missing_key p.pub_key) (λ ring.
        and_then (key_packet ring key)
          (λ packet. made (record r { body_key_packet = packet }, pkg)))
      else if p.scheme == clear_mime_scheme
      then made (r, record pkg { body_key = some (tools.show_key key) })
      else error bad_scheme

  unfoldable pub add_mime_recipients :
      Key → Assoc String (SendPreferences Pub) → MessagePackage → SendResult MessagePackage
  unfolding mime_recipient
  add_mime_recipients key [] pkg = made pkg
  add_mime_recipients key ((addr, p) ∷ prefs) pkg =
      and_then (mime_recipient key p pkg)
        λ made_r. add_mime_recipients key prefs (with_recipient addr made_r.0 made_r.1)

  unfoldable pub new_mime_package :
      String → Assoc String (SendPreferences Pub) → SendResult MessagePackage
  unfolding enc_split add_mime_recipients new_message_package
  new_mime_package body prefs = and_then (enc_split body) λ parts.
      add_mime_recipients parts.0 prefs
        (new_message_package "multipart/mixed" (tools.base64 parts.1))

  -- `SendDraftReq` is the list of its packages.
  abbrev added :
      SendResult MessagePackage → List MessagePackage → Option SendError × List MessagePackage
  added (made pkg) packages = (none, packages ++ pkg ∷ [])
  added (error e) packages = (some e, packages)

  unfoldable pub add_text_package :
      String
      → String
      → Assoc String (SendPreferences Pub)
      → Assoc String Key
      → List MessagePackage
      → Option SendError × List MessagePackage
  unfolding new_text_package
  add_text_package body mime_type prefs att_keys packages =
      added (new_text_package body mime_type prefs att_keys) packages

  unfoldable pub add_mime_package :
      String
      → Assoc String (SendPreferences Pub)
      → List MessagePackage
      → Option SendError × List MessagePackage
  unfolding new_mime_package any values
  add_mime_package body prefs packages =
      if any (λ p. not (p.mime_type == "multipart/mixed")) (values prefs)
      then (some bad_mime_type, packages)
      else added (new_mime_package body prefs) packages
