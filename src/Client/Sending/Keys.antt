-- ===== src/Client/Sending/Keys.antt =====
-- Who gets the session key of a message, in the packages of message_send_types.go.
use go_proton_api.Base.{
  ℕ, Bool, false, String, string_eq, nat_eq, ◌==◌, not, none, some, List, [], ◌∷◌, ◌&&◌, inl, inr,
  if◌then◌else◌, any, ◌≡◌, refl, ◌∙◌, subst, arith, Bool-cases, Option-cases,
}
use go_proton_api.Base.Assoc.{Assoc, insert, lookup, values}
use go_proton_api.Client.Sending.Readers.{
  IsMap, Gets, Gets-cons, and_then-eq-made, IsTextRecipient, IsMimeRecipient,
  text_recipient-IsTextRecipient,
}
use go_proton_api.Client.Sending.Types.{
  MessageRecipient, MessagePackage, SendTools, SendPreferences, made, with_recipient, clear_scheme,
  clear_mime_scheme, pgp_mime_scheme,
}
use go_proton_api.Client.Sending.{
  enc_split, text_refused, text_recipient, add_text_recipients, new_text_package, with_clear_keys,
  mime_recipient, add_mime_recipients, new_mime_package,
}

module _ {Pub Key : Type 0} (tools : SendTools Pub Key) (key : Key) where
  -- What a loop leaves of the package: the preferences that `clear` finds show the body key.
  abbrev Shows :
      (SendPreferences Pub → Bool)
      → Assoc String (SendPreferences Pub)
      → MessagePackage
      → MessagePackage
      → Type 0
  Shows clear prefs before after =
      (after.body ≡ before.body)
      × (after.mime_type ≡ before.mime_type)
      × (after.body_key
          ≡ (if any clear (values prefs) then some (tools.show_key key) else before.body_key))
      × (any clear (values prefs) ≡ false → after.attachment_keys ≡ before.attachment_keys)

  abbrev Served :
      (SendPreferences Pub → MessageRecipient → Type 0)
      → (SendPreferences Pub → Bool)
      → Assoc String (SendPreferences Pub)
      → MessagePackage
      → MessagePackage
      → Type 0
  Served Q clear prefs before after =
      ((addr : String)
        → Gets Q (lookup addr prefs) (lookup addr before.addresses) (lookup addr after.addresses))
      × Shows clear prefs before after

  Served-nil :
      (Q : SendPreferences Pub → MessageRecipient → Type 0) (clear : SendPreferences Pub → Bool)
      (before after : MessagePackage)
      → made before ≡ made after
      → Served Q clear [] before after
  unfolding any values lookup
  Served-nil Q clear before after h =
      let same : before ≡ after = cc in
      subst (λ t. Served Q clear [] before t) same (λ addr. refl, (refl, refl, refl, λ e. refl))

  -- One round: the package `shown` has the keys that the preference shows.
  Served-cons :
      (Q : SendPreferences Pub → MessageRecipient → Type 0) (clear : SendPreferences Pub → Bool)
      (k : String) (p : SendPreferences Pub) (prefs : Assoc String (SendPreferences Pub))
      (r : MessageRecipient) (before shown after : MessagePackage)
      → shown.addresses ≡ before.addresses
      → Shows clear ((k, p) ∷ []) before shown
      → Q p r
      → lookup k prefs ≡ none
      → Served Q clear prefs (with_recipient k r shown) after
      → Served Q clear ((k, p) ∷ prefs) before after
  unfolding any values
  Served-cons Q clear k p prefs r before shown after kept (body, mime, body_key, atts) q fresh
        served =
      (
        λ addr. Gets-cons Q k addr p prefs r before.addresses _ q fresh (
            subst
              (λ t.
                Gets Q (lookup addr prefs) (lookup addr (insert k r t))
                  (lookup addr after.addresses))
              kept (served.0 addr)),
        (
          served.1.0 ∙ body,
          served.1.1 ∙ mime,
          ground (arith, served.1.2),
          λ plain. served.1.3 (ground arith) ∙ atts (ground arith),
        ),
      )

  add_text_recipients-Served :
      (mime_type : String) (att_keys : Assoc String Key)
      (prefs : Assoc String (SendPreferences Pub)) (before after : MessagePackage)
      → IsMap prefs
      → add_text_recipients tools key att_keys mime_type prefs before ≡ made after
      → Served (IsTextRecipient tools key) (λ p. p.scheme == clear_scheme) prefs before after
  unfolding add_text_recipients any values
  add_text_recipients-Served mime_type att_keys [] before after m h =
      Served-nil (IsTextRecipient tools key) (λ p. p.scheme == clear_scheme) before after h
  add_text_recipients-Served mime_type att_keys ((k, p) ∷ prefs) before after m h =
      elim (Option-cases (text_refused tools mime_type p)) [
        | inr e ↦ absurd (ground (arith, e.1))
        | inl passed ↦
            let shown =
              if p.scheme == clear_scheme
              then with_clear_keys tools key att_keys before
              else before in
            let (r, done, rest) =
              and_then-eq-made (text_recipient tools key att_keys p) _
                (rw (add_text_recipients, passed) at h) in
            Served-cons (IsTextRecipient tools key) (λ p. p.scheme == clear_scheme) k p prefs r
              before shown after (ground arith)
              (ground arith, ground arith, ground arith, λ plain. ground arith)
              (text_recipient-IsTextRecipient tools key mime_type att_keys p r passed done) m.0
              (add_text_recipients-Served mime_type att_keys prefs (with_recipient k r shown) after
                m.1 rest)
      ]

  mime_recipient_lem :
      (k : String) (p : SendPreferences Pub) (before : MessagePackage) (r : MessageRecipient)
      (shown : MessagePackage)
      → mime_recipient tools key p before ≡ made (r, shown)
      → IsMimeRecipient tools key p r
        × (shown.addresses ≡ before.addresses)
        × Shows (λ p. p.scheme == clear_mime_scheme) ((k, p) ∷ []) before shown
  unfolding mime_recipient any values
  mime_recipient_lem k p before r shown h = elim (Bool-cases (p.scheme == pgp_mime_scheme)) [
    | inl e ↦ elim (Option-cases p.pub_key) [
      | inl f ↦ absurd (ground arith)
      | inr f ↦ elim (Option-cases (tools.encrypt_key f.0 key)) [
        | inl g ↦ absurd (ground (arith, f.1))
        | inr g ↦
            let scheme : p.scheme ≡ pgp_mime_scheme = ground arith in
            (
              (
                ground (arith, f.1, g.1),
                ground (arith, f.1, g.1),
                inl (scheme, (f.0, g.0, f.1, g.1, ground (arith, f.1, g.1))),
              ),
              ground (arith, f.1, g.1),
              (
                ground (arith, f.1, g.1),
                ground (arith, f.1, g.1),
                ground (arith, f.1, g.1),
                λ plain. ground (arith, f.1, g.1),
              ),
            )
      ]
    ]
    | inr e ↦ elim (Bool-cases (p.scheme == clear_mime_scheme)) [
      | inr f ↦ absurd (ground arith)
      | inl f ↦
          let scheme : p.scheme ≡ clear_mime_scheme = ground arith in
          (
            (ground arith, ground arith, inr (scheme, ground arith)),
            ground arith,
            (ground arith, ground arith, ground arith, λ plain. ground arith),
          )
    ]
  ]

  add_mime_recipients-Served :
      (prefs : Assoc String (SendPreferences Pub)) (before after : MessagePackage)
      → IsMap prefs
      → add_mime_recipients tools key prefs before ≡ made after
      → Served (IsMimeRecipient tools key) (λ p. p.scheme == clear_mime_scheme) prefs before after
  unfolding add_mime_recipients
  add_mime_recipients-Served [] before after m h =
      Served-nil (IsMimeRecipient tools key) (λ p. p.scheme == clear_mime_scheme) before after h
  add_mime_recipients-Served ((k, p) ∷ prefs) before after m h =
      let (step, done, rest) = and_then-eq-made (mime_recipient tools key p before) _ h in
      let (q, kept, shows) = mime_recipient_lem k p before step.0 step.1 done in
      Served-cons (IsMimeRecipient tools key) (λ p. p.scheme == clear_mime_scheme) k p prefs step.0
        before step.1 after kept shows q m.0
        (add_mime_recipients-Served prefs (with_recipient k step.0 step.1) after m.1 rest)

  mime_recipient-attachment_keys :
      (p : SendPreferences Pub) (before : MessagePackage) (r : MessageRecipient)
      (shown : MessagePackage)
      → mime_recipient tools key p before ≡ made (r, shown)
      → shown.attachment_keys ≡ before.attachment_keys
  unfolding mime_recipient
  mime_recipient-attachment_keys p before r shown h = ground arith

  add_mime_recipients-attachment_keys :
      (prefs : Assoc String (SendPreferences Pub)) (before after : MessagePackage)
      → add_mime_recipients tools key prefs before ≡ made after
      → after.attachment_keys ≡ before.attachment_keys
  unfolding add_mime_recipients
  add_mime_recipients-attachment_keys [] before after h = cc
  add_mime_recipients-attachment_keys ((k, p) ∷ prefs) before after h =
      let (step, done, rest) = and_then-eq-made (mime_recipient tools key p before) _ h in
      add_mime_recipients-attachment_keys prefs (with_recipient k step.0 step.1) after rest
      ∙ mime_recipient-attachment_keys p before step.0 step.1 done

  -- The addresses of the package are those of the preferences, each with its recipient, and the
  -- session key is in the package in the clear exactly if a preference has the clear scheme.
  abbrev pub IsPackage :
      (SendPreferences Pub → MessageRecipient → Type 0)
      → (SendPreferences Pub → Bool)
      → Assoc String (SendPreferences Pub)
      → MessagePackage
      → Type 0
  IsPackage Q clear prefs pkg =
      ((addr : String) → Gets Q (lookup addr prefs) none (lookup addr pkg.addresses))
      × (pkg.body_key ≡ (if any clear (values prefs) then some (tools.show_key key) else none))
      × (any clear (values prefs) ≡ false → pkg.attachment_keys ≡ [])

module _ {Pub Key : Type 0} (tools : SendTools Pub Key) where
  -- A text package that is made, for preferences of distinct addresses, has the encrypted body and
  -- the MIME type that was asked for, and a recipient for each address of the preferences and no
  -- other. A recipient with encryption has the packet with the session key of that body for its own
  -- public key, one without has none, and is of the clear scheme or an inline one that is not signed
  -- apart. The session key stands in the package in the clear exactly if a preference has the clear
  -- scheme; otherwise no key of an attachment does either.
  pub new_text_package-IsPackage :
      (body mime_type : String) (prefs : Assoc String (SendPreferences Pub))
      (att_keys : Assoc String Key) {pkg : MessagePackage}
      → IsMap prefs
      → new_text_package tools body mime_type prefs att_keys ≡ made pkg
      → (parts : Key × List ℕ) × (enc_split tools body ≡ made parts)
        × (pkg.body ≡ tools.base64 parts.1)
        × (pkg.mime_type ≡ mime_type)
        × IsPackage tools parts.0
            (IsTextRecipient tools parts.0)
            (λ p. p.scheme == clear_scheme)
            prefs
            pkg
  unfolding new_text_package lookup
  new_text_package-IsPackage body mime_type prefs att_keys {pkg} m h =
      elim (Bool-cases (not (mime_type == "text/plain") && not (mime_type == "text/html"))) [
        | inl e ↦ absurd (ground arith)
        | inr e ↦
            let (parts, split, rest) = and_then-eq-made (enc_split tools body) _ (rw e at h) in
            let (gets, (body_is, mime_is, body_key, atts)) =
              add_text_recipients-Served tools parts.0 mime_type att_keys prefs _ pkg m rest in
            (parts, split, body_is, mime_is, (gets, body_key, atts))
      ]

  -- Likewise a MIME package: a recipient of the PGP/MIME scheme has the packet for its own public key,
  -- one of the clear scheme none, and there are no others. The session key stands in the package in the
  -- clear exactly if a preference has the clear MIME scheme. The package shows no key of an attachment,
  -- whatever the schemes.
  pub new_mime_package-IsPackage :
      (body : String) (prefs : Assoc String (SendPreferences Pub)) {pkg : MessagePackage}
      → IsMap prefs
      → new_mime_package tools body prefs ≡ made pkg
      → (parts : Key × List ℕ) × (enc_split tools body ≡ made parts)
        × (pkg.body ≡ tools.base64 parts.1)
        × (pkg.mime_type ≡ "multipart/mixed")
        × IsPackage tools parts.0
            (IsMimeRecipient tools parts.0)
            (λ p. p.scheme == clear_mime_scheme)
            prefs
            pkg
        × (pkg.attachment_keys ≡ [])
  unfolding new_mime_package lookup
  new_mime_package-IsPackage body prefs {pkg} m h =
      let (parts, split, rest) = and_then-eq-made (enc_split tools body) _ h in
      let (gets, (body_is, mime_is, body_key, atts)) =
        add_mime_recipients-Served tools parts.0 prefs _ pkg m rest in
      (
        parts,
        split,
        body_is,
        mime_is,
        (gets, body_key, atts),
        add_mime_recipients-attachment_keys tools parts.0 prefs _ pkg rest,
      )
