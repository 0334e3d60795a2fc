-- ===== src/Contacts/Settings/Texts.antt =====
-- What is read from the texts of a group in which settings were written.
use go_proton_api.Base.{
  ℕ, nat_eq, Bool, true, false, String, string_eq, ◌==◌, Option, none, some, List, [], ◌∷◌, ◌++◌,
  ◌≡◌, refl, ap, arith, All, any,
}
use go_proton_api.Base.Assoc.{option_map}
use go_proton_api.Contacts.Card.{CardTools, CardResult, value, and_then}
use go_proton_api.Contacts.Settings.{
  EncryptionScheme, pgp_inline_scheme, pgp_mime_scheme, ContactSettings, KeyTools, pm_scheme,
  pm_sign, pm_encrypt, pm_encrypt_untrusted, pm_mime_type, bool_text, bool_of, scheme_of,
  scheme_text, parse_bool, mime_text, keys_text, bytes_of, read_keys, first, with_prefix,
  after_comma,
}
use go_proton_api.Contacts.Settings.Written.{over, or_old, first-over}

-- The base64 of bytes and the text of a key read back.
pub record KeyLaws {Key : Type 0} (kt : KeyTools Key) : Type 0 where
  pub decode64-encode64 : (bytes : List ℕ) → kt.decode64 (kt.encode64 bytes) ≡ some bytes
  pub new_key-serialize :
      (k : Key) (bytes : List ℕ) → kt.serialize k ≡ some bytes → kt.new_key bytes ≡ some k

abbrev pub pm_names : List String
pm_names = pm_scheme ∷ pm_mime_type ∷ pm_sign ∷ pm_encrypt ∷ pm_encrypt_untrusted ∷ []

abbrev pub AreOther : String → List String → Type 0
AreOther key [] = Unit
AreOther key (k ∷ names) = ((k == key) ≡ false) × AreOther key names

-- The names of fields are in capitals and apart.
pub record NameLaws (tools : CardTools) (IsUpper : String → Type 0) : Type 0 where
  pub pm_upper : All IsUpper pm_names
  pub key_upper : IsUpper tools.key_field
  pub email_upper : IsUpper tools.email_field
  pub key_other : AreOther tools.key_field pm_names
  pub email_other : AreOther tools.email_field pm_names
  pub key_not_email : (tools.key_field == tools.email_field) ≡ false

-- The texts of settings are texts that the encoder can write: the schemes, the MIME types, the truth
-- values, and the base64 of bytes.
pub record TextLaws {Key : Type 0} (kt : KeyTools Key) (IsPlain : String → Type 0) : Type 0 where
  pub schemes_plain : IsPlain "pgp-inline" × IsPlain "pgp-mime"
  pub bools_plain : IsPlain "true" × IsPlain "false"
  pub mime_types_plain : All IsPlain kt.mime_types
  pub base64_plain : (bytes : List ℕ) → IsPlain (with_prefix "base64," (kt.encode64 bytes))

module _ {Key : Type 0} where
  -- The settings without keys, by the first texts of the five names.
  abbrev pub flags_from :
      Option String
      → Option String
      → Option String
      → Option String
      → Option String
      → CardResult (ContactSettings Key)
  flags_from scheme mime sign encrypt untrusted = and_then (bool_of sign) (λ sign.
      and_then (bool_of encrypt) (λ encrypt. and_then (bool_of untrusted) (λ untrusted.
        value (record {
          mime_type = mime;
          scheme = scheme_of scheme;
          sign = sign;
          encrypt = encrypt;
          encrypt_untrusted = untrusted;
          keys = [];
        }))))

  flags_from-parts :
      (scheme mime sign encrypt untrusted : Option String) (old : ContactSettings Key)
      → flags_from scheme mime sign encrypt untrusted ≡ value old
      → (bool_of sign ≡ value old.sign)
        × (bool_of encrypt ≡ value old.encrypt)
        × (bool_of untrusted ≡ value old.encrypt_untrusted)
        × (mime ≡ old.mime_type)
        × (scheme_of scheme ≡ old.scheme)
  flags_from-parts scheme mime sign encrypt untrusted old h = ground arith

module _ {Key : Type 0} (kt : KeyTools Key) where
  -- No key, or one that can be serialized.
  pub data OneKey : List Key → Type 0 where
    no_key : OneKey []
    one_key : (k : Key) (bytes : List ℕ) → kt.serialize k ≡ some bytes → OneKey (k ∷ [])

  abbrev kept_scheme : Option EncryptionScheme → Option EncryptionScheme
  kept_scheme (some pgp_inline_scheme) = some pgp_inline_scheme
  kept_scheme (some pgp_mime_scheme) = some pgp_mime_scheme
  kept_scheme _ = none

  abbrev over_keys : List Key → List Key → List Key
  over_keys [] old = old
  over_keys (k ∷ keys) [] = k ∷ []
  over_keys (k ∷ keys) (o ∷ old) = k ∷ old

  -- The settings that were given, and the old ones where none is given.
  abbrev pub override : ContactSettings Key → ContactSettings Key → ContactSettings Key
  override new old = record {
    mime_type = or_old (mime_text kt new.mime_type) old.mime_type;
    scheme = or_old (kept_scheme new.scheme) old.scheme;
    sign = or_old new.sign old.sign;
    encrypt = or_old new.encrypt old.encrypt;
    encrypt_untrusted = or_old new.encrypt_untrusted old.encrypt_untrusted;
    keys = over_keys new.keys old.keys;
  }

  scheme_of-over :
      (s : Option EncryptionScheme) (ts : List String)
      → scheme_of (first (over (scheme_text s) ts)) ≡ or_old (kept_scheme s) (scheme_of (first ts))
  unfolding scheme_of
  scheme_of-over s ts = rw (first-over (scheme_text s) ts) (ground arith)

  bool_of-over :
      (b old : Option Bool) (ts : List String)
      → bool_of (first ts) ≡ value old
      → bool_of (first (over (option_map bool_text b) ts)) ≡ value (or_old b old)
  unfolding bool_of parse_bool any
  bool_of-over none old ts h = h
  bool_of-over (some true) old ts h = rw (first-over (some "true") ts) refl
  bool_of-over (some false) old ts h = rw (first-over (some "false") ts) refl

  append_nil : (bytes : List ℕ) → bytes ++ [] ≡ bytes
  append_nil [] = refl
  append_nil (b ∷ bytes) = ap (λ bs. b ∷ bs) (append_nil bytes)

  read_keys-written :
      (laws : KeyLaws kt) (k : Key) (bytes : List ℕ) (ts : List String) (keys : List Key)
      → kt.serialize k ≡ some bytes
      → read_keys kt ts ≡ some (value keys)
      → read_keys kt (with_prefix "base64," (kt.encode64 (bytes_of (kt.serialize k) ++ [])) ∷ ts)
        ≡ some (value (k ∷ keys))
  unfolding read_keys after_comma
  read_keys-written laws k bytes ts keys e h =
      rw
        (
          read_keys,
          laws.decode64-encode64 (bytes_of (kt.serialize k) ++ []),
          e,
          append_nil bytes,
          laws.new_key-serialize k bytes e,
          h,
        )
        refl

  read_keys-rest :
      (t : String) (ts : List String) (old : List Key)
      → read_keys kt (t ∷ ts) ≡ some (value old)
      → (o : Key) × (keys : List Key) × (old ≡ o ∷ keys) × (read_keys kt ts ≡ some (value keys))
  unfolding read_keys
  read_keys-rest t ts [] h = absurd (ground arith)
  read_keys-rest t ts (o ∷ keys) h = (o, keys, refl, ground arith)

  pub read_keys-over :
      (laws : KeyLaws kt) (keys old : List Key) (ts : List String)
      → OneKey keys
      → read_keys kt ts ≡ some (value old)
      → read_keys kt (over (keys_text kt keys) ts) ≡ some (value (over_keys keys old))
  unfolding read_keys
  read_keys-over laws keys old ts no_key h = h
  read_keys-over laws keys [] [] (one_key k bytes e) h = read_keys-written laws k bytes [] [] e refl
  read_keys-over laws keys (o ∷ old) [] (one_key k bytes e) h = absurd (ground arith)
  read_keys-over laws keys old (t ∷ ts) (one_key k bytes e) h =
      let (o, rest, same, reads) = read_keys-rest t ts old h in
      rw same (read_keys-written laws k bytes ts rest e reads)

  pub flags_from-over :
      (new old : ContactSettings Key) (scheme mime sign encrypt untrusted : List String)
      → flags_from (first scheme) (first mime) (first sign) (first encrypt) (first untrusted)
        ≡ value old
      → flags_from
          (first (over (scheme_text new.scheme) scheme))
          (first (over (mime_text kt new.mime_type) mime))
          (first (over (option_map bool_text new.sign) sign))
          (first (over (option_map bool_text new.encrypt) encrypt))
          (first (over (option_map bool_text new.encrypt_untrusted) untrusted))
        ≡ value (record (override new old) { keys = [] })
  flags_from-over new old scheme mime sign encrypt untrusted h =
      let parts =
        flags_from-parts (first scheme) (first mime) (first sign) (first encrypt) (first untrusted)
          old h in
      rw
        (
          scheme_of-over new.scheme scheme,
          first-over (mime_text kt new.mime_type) mime,
          bool_of-over new.sign old.sign sign parts.0,
          bool_of-over new.encrypt old.encrypt encrypt parts.1,
          bool_of-over new.encrypt_untrusted old.encrypt_untrusted untrusted parts.2,
          parts.3,
          parts.4,
        )
        refl
