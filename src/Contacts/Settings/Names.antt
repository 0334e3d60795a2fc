-- ===== src/Contacts/Settings/Names.antt =====
-- `SetSettings` writes names in capitals, and texts that go-vcard can write.
use go_proton_api.Base.{
  Bool, Bool-cases, true, false, String, string_eq, str_iff, ◌==◌, Option, none, some, List, [],
  ◌∷◌, ◌≡◌, sym, subst, inl, inr, any, All, arith,
}
use go_proton_api.Base.Assoc.{option_map}
use go_proton_api.Contacts.Card.{CardTools}
use go_proton_api.Contacts.Settings.{
  ContactSettings, EncryptionScheme, pgp_inline_scheme, pgp_mime_scheme, KeyTools, bool_text,
  keys_text, mime_text, scheme_text, writes,
}
use go_proton_api.Contacts.Settings.Texts.{NameLaws, TextLaws}
use go_proton_api.Contacts.Settings.Written.{OptionIs, Writes}

any-All :
    (P : String → Type 0) (ts : List String) (m : String)
    → any (λ t. m == t) ts ≡ true
    → All P ts
    → P m
unfolding any
any-All P [] m e h = absurd (ground arith)
any-All P (t ∷ ts) m e h = elim (Bool-cases (m == t)) [
  | inl same ↦ subst P (sym ((str_iff m t).0 same)) h.0
  | inr other ↦ any-All P ts m (ground arith) h.1
]

module _ {Key : Type 0} (kt : KeyTools Key) (tools : CardTools) {IsUpper IsPlain : String → Type 0}
    (names : NameLaws tools IsUpper) (plain : TextLaws kt IsPlain) where
  mime_text-OptionIs : (m : Option String) → OptionIs IsPlain (mime_text kt m)
  mime_text-OptionIs none = tt
  mime_text-OptionIs (some m) = elim (Bool-cases (any (λ t. m == t) kt.mime_types)) [
    | inl e ↦ rw e (any-All IsPlain kt.mime_types m e plain.mime_types_plain)
    | inr e ↦ rw e tt
  ]

  scheme_text-OptionIs : (s : Option EncryptionScheme) → OptionIs IsPlain (scheme_text s)
  scheme_text-OptionIs (some pgp_inline_scheme) = plain.schemes_plain.0
  scheme_text-OptionIs (some pgp_mime_scheme) = plain.schemes_plain.1
  scheme_text-OptionIs _ = tt

  bool_text-OptionIs : (b : Option Bool) → OptionIs IsPlain (option_map bool_text b)
  bool_text-OptionIs none = tt
  bool_text-OptionIs (some true) = plain.bools_plain.0
  bool_text-OptionIs (some false) = plain.bools_plain.1

  keys_text-OptionIs : (keys : List Key) → OptionIs IsPlain (keys_text kt keys)
  keys_text-OptionIs [] = tt
  keys_text-OptionIs (k ∷ keys) = plain.base64_plain _

  pub own_names : (new : ContactSettings Key) → Writes IsUpper IsPlain (writes kt tools new)
  own_names new =
      let (scheme, rest) = names.pm_upper in
      let (mime, (sign, (encrypt, (untrusted, none_left)))) = rest in
      (
        scheme,
        scheme_text-OptionIs new.scheme,
        (
          mime,
          mime_text-OptionIs new.mime_type,
          (
            sign,
            bool_text-OptionIs new.sign,
            (
              encrypt,
              bool_text-OptionIs new.encrypt,
              (
                untrusted,
                bool_text-OptionIs new.encrypt_untrusted,
                (names.key_upper, keys_text-OptionIs new.keys, tt),
              ),
            ),
          ),
        ),
      )
