-- ===== src/Client/Tests/SendingTest.antt =====
-- A message to a reader with a public key and to one without, and a PGP/MIME message.
use go_proton_api.Base.{
  ℕ, true, false, String, string_eq, nat_eq, ◌==◌, none, some, List, [], ◌∷◌, ◌≡◌, refl,
  if◌then◌else◌,
}
use go_proton_api.Base.Assoc.{Assoc, insert, lookup}
use go_proton_api.Client.Sending.Types.{
  SendTools, SendPreferences, MessagePackage, made, clear_scheme, clear_mime_scheme,
  internal_scheme, pgp_mime_scheme, detached_signature, must_encrypt,
}
use go_proton_api.Client.Sending.{enc_split, new_text_package, new_mime_package, add_text_package}
use go_proton_api.Client.Sending.Readers.{IsMap, IsTextRecipient, IsMimeRecipient}
use go_proton_api.Client.Sending.Keys.{
  IsPackage, new_text_package-IsPackage, new_mime_package-IsPackage,
}

-- A packet is the reader's key and the session key, which is always 5.
abbrev text_of : List ℕ → String
text_of [] = ""
text_of (n ∷ ns) = if n == 5 then "five" else text_of ns

abbrev tools : SendTools ℕ ℕ
tools = record {
  encrypt = λ s. some (5 ∷ []);
  split = λ m. some (m, 9 ∷ []);
  open_key = λ m. some 5;
  encrypt_key = λ ring key. some (ring ∷ key ∷ []);
  show_key = λ key. record { key = text_of (key ∷ []); algorithm = "aes256" };
  base64 = text_of;
}

abbrev inside : SendPreferences ℕ
inside = record {
  encrypt = true;
  pub_key = some 7;
  signature = detached_signature;
  scheme = internal_scheme;
  mime_type = "text/plain";
}

abbrev outside : SendPreferences ℕ
outside = record inside { encrypt = false; pub_key = none; signature = 0; scheme = clear_scheme }

abbrev readers : Assoc String (SendPreferences ℕ)
readers = ("in", inside) ∷ ("out", outside) ∷ []

abbrev first_key : ℕ → SendPreferences ℕ → SendPreferences ℕ
first_key ring p = record p {
  pub_key = some ring;
  scheme = pgp_mime_scheme;
  mime_type = "multipart/mixed";
}

abbrev text_result : MessagePackage
text_result = record {
  addresses =
      (
        "in",
        record {
          scheme = 1;
          signature = 1;
          body_key_packet = "five";
          attachment_key_packets = ("a", "") ∷ [];
        },
      )
      ∷ (
        "out",
        record { scheme = 4; signature = 0; body_key_packet = ""; attachment_key_packets = [] },
      )
      ∷ [];
  mime_type = "text/plain";
  scheme = 5;
  body = "";
  body_key = some (record { key = "five"; algorithm = "aes256" });
  attachment_keys = ("a", record { key = ""; algorithm = "aes256" }) ∷ [];
}

readers-IsMap : IsMap readers
unfolding lookup
readers-IsMap = (refl, (refl, tt))

text_made : new_text_package tools "hi" "text/plain" readers (("a", 3) ∷ []) ≡ made text_result
unfolding new_text_package insert
text_made = refl

plain_internal :
    add_text_package tools "hi" "text/plain" (("in", record inside { encrypt = false }) ∷ []) [] []
    ≡ (some must_encrypt, [])
unfolding add_text_package
plain_internal = refl

abbrev mime_prefs : Assoc String (SendPreferences ℕ)
mime_prefs = ("in", first_key 7 inside) ∷ []

abbrev mime_result : MessagePackage
mime_result = record {
  addresses =
      (
        "in",
        record {
          scheme = 16;
          signature = 1;
          body_key_packet = "five";
          attachment_key_packets = [];
        },
      )
      ∷ [];
  mime_type = "multipart/mixed";
  scheme = 16;
  body = "";
  body_key = none;
  attachment_keys = [];
}

mime_prefs-IsMap : IsMap mime_prefs
unfolding lookup
mime_prefs-IsMap = (refl, tt)

mime_made : new_mime_package tools "hi" mime_prefs ≡ made mime_result
unfolding new_mime_package insert
mime_made = refl

new_text_package-IsPackage_example :
    (parts : ℕ × List ℕ) × (enc_split tools "hi" ≡ made parts)
    × (text_result.body ≡ tools.base64 parts.1)
    × (text_result.mime_type ≡ "text/plain")
    × IsPackage tools parts.0
        (IsTextRecipient tools parts.0)
        (λ p. p.scheme == clear_scheme)
        readers
        text_result
new_text_package-IsPackage_example =
    new_text_package-IsPackage tools "hi" "text/plain" readers (("a", 3) ∷ []) readers-IsMap
      text_made

new_mime_package-IsPackage_example :
    (parts : ℕ × List ℕ) × (enc_split tools "hi" ≡ made parts)
    × (mime_result.body ≡ tools.base64 parts.1)
    × (mime_result.mime_type ≡ "multipart/mixed")
    × IsPackage tools parts.0
        (IsMimeRecipient tools parts.0)
        (λ p. p.scheme == clear_mime_scheme)
        mime_prefs
        mime_result
    × (mime_result.attachment_keys ≡ [])
new_mime_package-IsPackage_example =
    new_mime_package-IsPackage tools "hi" mime_prefs mime_prefs-IsMap mime_made
