-- ===== src/Contacts/Settings/Stored.antt =====
-- What a group reads before and after the writes of `SetSettings`.
use go_proton_api.Base.{
  nat_eq, false, String, string_eq, ◌==◌, Option, none, some, beq_refl, str_iff, List, ◌≡◌, refl,
  sym, ap, ◌∙◌, arith,
}
use go_proton_api.Base.Assoc.{option_map}
use go_proton_api.Contacts.Card.{CardTools, Vcard, fields_of, decode, CardResult, value, error}
use go_proton_api.Contacts.Card.Codec.{CardLaws}
use go_proton_api.Contacts.Group.{CardGroup, get}
use go_proton_api.Contacts.Group.Refines.{get-decode}
use go_proton_api.Contacts.Group.Texts.{texts}
use go_proton_api.Contacts.Settings.{
  ContactSettings, KeyTools, pm_scheme, pm_sign, pm_encrypt, pm_encrypt_untrusted, pm_mime_type,
  bool_text, bool_of, scheme_text, mime_text, keys_text, read_keys, read_flags, read_first,
  read_settings, finish, with_keys, set_all, writes, first,
}
use go_proton_api.Contacts.Settings.Texts.{
  KeyLaws, NameLaws, TextLaws, OneKey, override, flags_from, flags_from-over, read_keys-over,
}
use go_proton_api.Contacts.Settings.Names.{own_names}
use go_proton_api.Contacts.Settings.Written.{over, written, get-set_all}

module _ {Key : Type 0} (kt : KeyTools Key) (tools : CardTools) {IsUpper IsPlain : String → Type 0}
    (laws : CardLaws tools IsUpper IsPlain) (key_laws : KeyLaws kt) (names : NameLaws tools IsUpper)
    (plain : TextLaws kt IsPlain) where
  apart : (a b : String) → (a == b) ≡ false → (b == a) ≡ false
  apart a b h = ground (arith, str_iff a b, str_iff b a)

  read_settings-finish :
      (g : CardGroup)
      → read_settings kt tools g
        ≡ finish kt tools (read_flags kt tools g) (get tools tools.key_field g)
  unfolding read_settings
  read_settings-finish g = refl

  with_keys-parts :
      (cs old : ContactSettings Key) (r : Option (CardResult (List Key)))
      → option_map (with_keys kt tools cs) r ≡ some (value old)
      → (keys : List Key) × (r ≡ some (value keys)) × (old ≡ record cs { keys = keys })
  with_keys-parts cs old none h = absurd (ground arith)
  with_keys-parts cs old (some (error e)) h = absurd (ground arith)
  with_keys-parts cs old (some (value keys)) h = (keys, refl, cc h)

  finish-parts :
      (flags : CardResult (ContactSettings Key)) (ts : List String) (old : ContactSettings Key)
      → finish kt tools flags (value ts) ≡ some (value old)
      → (cs : ContactSettings Key) × (keys : List Key) × (flags ≡ value cs)
        × (read_keys kt ts ≡ some (value keys))
        × (old ≡ record cs { keys = keys })
  finish-parts (error failure) ts old h = absurd (ground arith)
  finish-parts (value cs) ts old h =
      let (keys, reads, same) = with_keys-parts cs old (read_keys kt ts) h in
      (cs, keys, refl, reads, same)

  -- `SetSettings` writes names in capitals only.
  -- The texts of each name after the writes.
  module _ (new : ContactSettings Key) (g g' : CardGroup) (dec : Vcard)
      (e : decode tools g.card ≡ value dec) (in_plain : IsPlain g.group)
      (ran : set_all tools (writes kt tools new) g ≡ (none, g')) where
    abbrev old_texts : String → List String
    old_texts key = texts g.group (fields_of key dec)

    after :
        (key : String)
        → IsUpper key
        → get tools key g' ≡ value (written (writes kt tools new) key (old_texts key))
    after key upper =
        get-set_all tools laws (writes kt tools new) g g' key (old_texts key) upper
          (get-decode tools laws key g dec e) (own_names kt tools names plain new) in_plain ran

    abbrev flags_before : CardResult (ContactSettings Key)
    flags_before =
        flags_from (first (old_texts pm_scheme)) (first (old_texts pm_mime_type))
          (first (old_texts pm_sign)) (first (old_texts pm_encrypt))
          (first (old_texts pm_encrypt_untrusted))

    get-pm_scheme :
        get tools pm_scheme g' ≡ value (over (scheme_text new.scheme) (old_texts pm_scheme))
    get-pm_scheme =
        rw (after pm_scheme names.pm_upper.0, apart pm_scheme tools.key_field names.key_other.0)
          refl

    get-pm_mime_type :
        get tools pm_mime_type g'
        ≡ value (over (mime_text kt new.mime_type) (old_texts pm_mime_type))
    get-pm_mime_type =
        rw
          (
            after pm_mime_type names.pm_upper.1.0,
            apart pm_mime_type tools.key_field names.key_other.1.0,
          )
          refl

    get-pm_sign :
        get tools pm_sign g' ≡ value (over (option_map bool_text new.sign) (old_texts pm_sign))
    get-pm_sign =
        rw (after pm_sign names.pm_upper.1.1.0, apart pm_sign tools.key_field names.key_other.1.1.0)
          refl

    get-pm_encrypt :
        get tools pm_encrypt g'
        ≡ value (over (option_map bool_text new.encrypt) (old_texts pm_encrypt))
    get-pm_encrypt =
        rw
          (
            after pm_encrypt names.pm_upper.1.1.1.0,
            apart pm_encrypt tools.key_field names.key_other.1.1.1.0,
          )
          refl

    get-pm_encrypt_untrusted :
        get tools pm_encrypt_untrusted g'
        ≡ value (over (option_map bool_text new.encrypt_untrusted) (old_texts pm_encrypt_untrusted))
    get-pm_encrypt_untrusted =
        rw
          (
            after pm_encrypt_untrusted names.pm_upper.1.1.1.1.0,
            apart pm_encrypt_untrusted tools.key_field names.key_other.1.1.1.1.0,
          )
          refl

    get-key_field :
        get tools tools.key_field g'
        ≡ value (over (keys_text kt new.keys) (old_texts tools.key_field))
    get-key_field =
        rw
          (
            after tools.key_field names.key_upper,
            names.key_other.0,
            names.key_other.1.0,
            names.key_other.1.1.0,
            names.key_other.1.1.1.0,
            names.key_other.1.1.1.1.0,
            beq_refl tools.key_field,
          )
          refl

    read_flags-old : read_flags kt tools g ≡ flags_before
    unfolding read_flags bool_of
    read_flags-old =
        rw
          (
            read_flags,
            read_first,
            get-decode tools laws pm_scheme g dec e,
            get-decode tools laws pm_mime_type g dec e,
            get-decode tools laws pm_sign g dec e,
            get-decode tools laws pm_encrypt g dec e,
            get-decode tools laws pm_encrypt_untrusted g dec e,
          )
          refl

    read_flags-new :
        read_flags kt tools g'
        ≡ flags_from
            (first (over (scheme_text new.scheme) (old_texts pm_scheme)))
            (first (over (mime_text kt new.mime_type) (old_texts pm_mime_type)))
            (first (over (option_map bool_text new.sign) (old_texts pm_sign)))
            (first (over (option_map bool_text new.encrypt) (old_texts pm_encrypt)))
            (first
              (over (option_map bool_text new.encrypt_untrusted) (old_texts pm_encrypt_untrusted)))
    unfolding read_flags bool_of
    read_flags-new =
        rw
          (
            read_flags, read_first, get-pm_scheme, get-pm_mime_type, get-pm_sign, get-pm_encrypt,
            get-pm_encrypt_untrusted,
          )
          refl

    pub read_settings-new :
        (old : ContactSettings Key)
        → OneKey kt new.keys
        → read_settings kt tools g ≡ some (value old)
        → read_settings kt tools g' ≡ some (value (override kt new old))
    read_settings-new old one h =
        let before =
          ap (λ f. finish kt tools f (get tools tools.key_field g)) read_flags-old
          ∙ ap (finish kt tools flags_before) (get-decode tools laws tools.key_field g dec e) in
        let (cs, keys, flags, reads, same) =
          finish-parts flags_before (old_texts tools.key_field) old
            (sym before ∙ sym (read_settings-finish g) ∙ h) in
        rw
          (
            same,
            read_settings-finish g',
            read_flags-new,
            get-key_field,
            flags_from-over kt new cs (old_texts pm_scheme) (old_texts pm_mime_type)
                (old_texts pm_sign) (old_texts pm_encrypt) (old_texts pm_encrypt_untrusted) flags,
            read_keys-over kt key_laws new.keys keys (old_texts tools.key_field) one reads,
          )
          refl
