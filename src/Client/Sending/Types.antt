-- ===== src/Client/Sending/Types.antt =====
-- message_send_types.go: the records of a message that is sent, and the results of making them.
use go_proton_api.Base.{ℕ, Bool, String, string_eq, nat_eq, bit_or, Option, none, some, List, []}
use go_proton_api.Base.Assoc.{Assoc, insert}

abbrev pub internal_scheme : ℕ
internal_scheme = 1

abbrev pub clear_scheme : ℕ
clear_scheme = 4

abbrev pub pgp_inline_scheme : ℕ
pgp_inline_scheme = 8

abbrev pub pgp_mime_scheme : ℕ
pgp_mime_scheme = 16

abbrev pub clear_mime_scheme : ℕ
clear_mime_scheme = 32

abbrev pub detached_signature : ℕ
detached_signature = 1

pub record MessageRecipient : Type 0 where
  pub scheme : ℕ
  pub signature : ℕ
  pub body_key_packet : String
  pub attachment_key_packets : Assoc String String

-- The key in base64, and the algorithm.
pub record SessionKey : Type 0 where
  pub key : String
  pub algorithm : String

pub record MessagePackage : Type 0 where
  pub addresses : Assoc String MessageRecipient
  pub mime_type : String
  pub scheme : ℕ
  pub body : String
  pub body_key : Option SessionKey
  pub attachment_keys : Assoc String SessionKey

pub data SendError : Type 0 where
  bad_mime_type bad_signature_type bad_scheme must_encrypt missing_key crypto_error : SendError

pub data SendResult (A : Type 0) : Type 0 where
  made : A → SendResult A
  error : SendError → SendResult A

abbrev pub and_then : {A B : Type 0} → SendResult A → (A → SendResult B) → SendResult B
and_then (made a) f = f a
and_then (error e) f = error e

abbrev pub or_error : {A : Type 0} → SendError → Option A → SendResult A
or_error e none = error e
or_error e (some a) = made a

-- `Pub` and `Key` are gopenpgp's key rings and session keys. `encrypt`, `split` and `open_key` are
-- the calls of `encSplit` on the sender's key ring.
pub record SendTools (Pub Key : Type 0) : Type 0 where
  pub encrypt : String → Option (List ℕ)
  pub split : List ℕ → Option (List ℕ × List ℕ)
  pub open_key : List ℕ → Option Key
  pub encrypt_key : Pub → Key → Option (List ℕ)
  pub show_key : Key → SessionKey
  pub base64 : List ℕ → String

pub record SendPreferences (Pub : Type 0) : Type 0 where
  pub encrypt : Bool
  pub pub_key : Option Pub
  pub signature : ℕ
  pub scheme : ℕ
  pub mime_type : String

-- A recipient without key packets.
abbrev pub new_recipient : {Pub : Type 0} → SendPreferences Pub → MessageRecipient
new_recipient p = record {
  scheme = p.scheme;
  signature = p.signature;
  body_key_packet = "";
  attachment_key_packets = [];
}

unfoldable pub new_message_package : String → String → MessagePackage
new_message_package mime_type body = record {
  addresses = [];
  mime_type = mime_type;
  scheme = 0;
  body = body;
  body_key = none;
  attachment_keys = [];
}

-- The end of the loops: the recipient is stored, and its scheme counts for the package.
abbrev pub with_recipient : String → MessageRecipient → MessagePackage → MessagePackage
with_recipient addr r pkg = record pkg {
  addresses = insert addr r pkg.addresses;
  scheme = bit_or pkg.scheme r.scheme;
}
