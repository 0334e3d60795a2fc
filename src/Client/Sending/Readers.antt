-- ===== src/Client/Sending/Readers.antt =====
-- The recipients of the packages of message_send_types.go, and what each of them holds.
use go_proton_api.Base.{
  ℕ, true, false, String, string_eq, str_iff, nat_eq, nat_beq_iff, ◌==◌, Option, none, some, List,
  [], ◌∷◌, ◌⊎◌, inl, inr, ◌≡◌, ◌≢◌, refl, ◌∙◌, subst, arith, Bool-cases, Option-cases,
}
use go_proton_api.Base.Assoc.{Assoc, insert, lookup, lookup-insert}
use go_proton_api.Client.Sending.Types.{
  MessageRecipient, SendTools, SendPreferences, SendResult, made, error, clear_scheme,
  clear_mime_scheme, pgp_inline_scheme, pgp_mime_scheme, detached_signature, and_then,
}
use go_proton_api.Client.Sending.{key_packet, text_refused, text_recipient}

-- The keys of a Go map: no two entries have one.
abbrev pub IsMap : {V : Type 0} → Assoc String V → Type 0
IsMap [] = Unit
IsMap ((k, v) ∷ m) = (lookup k m ≡ none) × IsMap m

pub and_then-eq-made :
    {A B : Type 0} (m : SendResult A) (f : A → SendResult B) {b : B}
    → and_then m f ≡ made b
    → (a : A) × (m ≡ made a) × (f a ≡ made b)
and_then-eq-made (made a) f h = (a, refl, h)
and_then-eq-made (error e) f h = absurd (cc)

-- An address with a preference gets a recipient that meets `Q`, any other keeps what it had.
module _ {Pub : Type 0} (Q : SendPreferences Pub → MessageRecipient → Type 0) where
  abbrev pub Gets :
      Option (SendPreferences Pub) → Option MessageRecipient → Option MessageRecipient → Type 0
  Gets none before after = after ≡ before
  Gets (some p) before after = (r : MessageRecipient) × (after ≡ some r) × Q p r

  pub Gets-cons :
      (k addr : String) (p : SendPreferences Pub) (prefs : Assoc String (SendPreferences Pub))
      (r : MessageRecipient) (m : Assoc String MessageRecipient) (after : Option MessageRecipient)
      → Q p r
      → lookup k prefs ≡ none
      → Gets (lookup addr prefs) (lookup addr (insert k r m)) after
      → Gets (lookup addr ((k, p) ∷ prefs)) (lookup addr m) after
  unfolding lookup
  Gets-cons k addr p prefs r m after q fresh h = elim (Bool-cases (k == addr)) [
    | inl e ↦
        let same : k ≡ addr = ground (arith, str_iff k addr) in
        let none_left : lookup addr prefs ≡ none = subst (λ t. lookup t prefs ≡ none) same fresh in
        let kept = rw none_left at h in rw e (r, kept ∙ lookup-insert k addr r m ∙ rw e, q)
    | inr e ↦
        let unchanged = lookup-insert k addr r m in
        rw e (subst (λ t. Gets (lookup addr prefs) t after) (unchanged ∙ rw e) h)
  ]

module _ {Pub Key : Type 0} (tools : SendTools Pub Key) (key : Key) where
  -- The packet holds the session key for the reader of the preference's public key.
  abbrev pub IsPacketFor : SendPreferences Pub → String → Type 0
  IsPacketFor p text =
      (ring : Pub) × (packet : List ℕ) × (p.pub_key ≡ some ring)
      × (tools.encrypt_key ring key ≡ some packet)
      × (text ≡ tools.base64 packet)

  -- A recipient of a text package: without encryption it has no packet, and is one whose body is
  -- sent in the clear or an inline one without a detached signature.
  abbrev pub IsTextRecipient : SendPreferences Pub → MessageRecipient → Type 0
  IsTextRecipient p r =
      (r.scheme ≡ p.scheme)
      × (r.signature ≡ p.signature)
      × (p.encrypt ≡ true → IsPacketFor p r.body_key_packet)
      × (p.encrypt ≡ false
          → (r.body_key_packet ≡ "")
            × ((p.scheme ≡ clear_scheme)
                ⊎ ((p.scheme ≡ pgp_inline_scheme) × (p.signature ≢ detached_signature))))

  key_packet-IsPacketFor :
      (p : SendPreferences Pub) (ring : Pub) {text : String}
      → p.pub_key ≡ some ring
      → key_packet tools ring key ≡ made text
      → IsPacketFor p text
  unfolding key_packet
  key_packet-IsPacketFor p ring has h = elim (Option-cases (tools.encrypt_key ring key)) [
    | inl e ↦ absurd (let no = rw e at h in cc)
    | inr e ↦ (ring, e.0, has, e.1, ground (arith, e.1))
  ]

  text_refused_plain :
      (mime_type : String) (p : SendPreferences Pub)
      → text_refused tools mime_type p ≡ none
      → p.encrypt ≡ false
      → (p.scheme ≡ clear_scheme)
        ⊎ ((p.scheme ≡ pgp_inline_scheme) × (p.signature ≢ detached_signature))
  unfolding text_refused
  text_refused_plain mime_type p passed plain = elim (Bool-cases (p.scheme == clear_scheme)) [
    | inl e ↦ inl (ground (arith, nat_beq_iff p.scheme clear_scheme))
    | inr e ↦ inr (
      ground (arith, nat_beq_iff p.scheme pgp_inline_scheme),
      λ signed. ground (arith, nat_beq_iff p.signature detached_signature),
    )
  ]

  text_recipient_plain :
      (att_keys : Assoc String Key) (p : SendPreferences Pub) (r : MessageRecipient)
      → p.encrypt ≡ false
      → text_recipient tools key att_keys p ≡ made r
      → (r.scheme ≡ p.scheme) × (r.signature ≡ p.signature) × (r.body_key_packet ≡ "")
  unfolding text_recipient
  text_recipient_plain att_keys p r plain h = ground arith

  text_recipient_sealed :
      (att_keys : Assoc String Key) (p : SendPreferences Pub) (r : MessageRecipient)
      → p.encrypt ≡ true
      → text_recipient tools key att_keys p ≡ made r
      → (r.scheme ≡ p.scheme) × (r.signature ≡ p.signature) × IsPacketFor p r.body_key_packet
  unfolding text_recipient
  text_recipient_sealed att_keys p r sealed h = elim (Option-cases p.pub_key) [
    | inl e ↦ absurd (ground arith)
    | inr e ↦ elim (Option-cases (tools.encrypt_key e.0 key)) [
      | inl f ↦ absurd (ground (arith, e.1))
      | inr f ↦ (
        ground (arith, e.1, f.1),
        ground (arith, e.1, f.1),
        (e.0, f.0, e.1, f.1, ground (arith, e.1, f.1)),
      )
    ]
  ]

  pub text_recipient-IsTextRecipient :
      (mime_type : String) (att_keys : Assoc String Key) (p : SendPreferences Pub)
      (r : MessageRecipient)
      → text_refused tools mime_type p ≡ none
      → text_recipient tools key att_keys p ≡ made r
      → IsTextRecipient p r
  text_recipient-IsTextRecipient mime_type att_keys p r passed h = elim (Bool-cases p.encrypt) [
    | inl e ↦
        let (scheme, signature, packet) = text_recipient_sealed att_keys p r e h in
        (scheme, signature, λ _. packet, λ plain. absurd (cc))
    | inr e ↦
        let (scheme, signature, packet) = text_recipient_plain att_keys p r e h in
        (
          scheme,
          signature,
          λ sealed. absurd (cc),
          λ plain. (packet, text_refused_plain mime_type p passed plain),
        )
  ]

  -- A recipient of a MIME package: of the PGP/MIME scheme, with the packet for its public key, or of
  -- the clear one, without a packet.
  abbrev pub IsMimeRecipient : SendPreferences Pub → MessageRecipient → Type 0
  IsMimeRecipient p r =
      (r.scheme ≡ p.scheme)
      × (r.signature ≡ p.signature)
      × (((p.scheme ≡ pgp_mime_scheme) × IsPacketFor p r.body_key_packet)
          ⊎ ((p.scheme ≡ clear_mime_scheme) × (r.body_key_packet ≡ "")))
