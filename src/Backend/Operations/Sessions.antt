-- ===== src/Backend/Operations/Sessions.antt =====
-- Logins, contacts, feature flags and announcements, and the event streams.
use go_proton_api.Base.{
  ℕ, String, string_eq, Bool-cases, Option-cases, Option, List, [], ◌∷◌, ◌==◌, ◌≡◌, refl, ap, inl,
  inr,
}
use go_proton_api.Base.Assoc.{Assoc, find_key, lookup}
use go_proton_api.Contacts.Card.{Card}
use go_proton_api.Backend.Types.{Account, Auth, Contact}
use go_proton_api.Backend.Updates.{Update}
use go_proton_api.Backend.Exec.{account_not_found, modify, ◌>>=◌, reads}
use go_proton_api.Backend.Store.{Store, M, post, set_acc}
use go_proton_api.Backend.Store.Keeps.{
  Keeps, Keeps-bind, Keeps-get_acc, Keeps-modify, Keeps-or_fail, Keeps-pure, Keeps-with_acc,
  keeps_rules,
}
use go_proton_api.Backend.Contacts.{add_user_contact, generate_contact_id, update_user_contact}
use go_proton_api.Backend.Reads.{
  add_address_created_update, add_address_updated_event, add_label_created_update,
  add_message_created_update, delete_feature_flags, push_feature_flag,
}
use go_proton_api.Backend.Sessions.{
  check_token, delete_session, is_expired, new_auth, new_auth_info, new_auth_ref, put_auth,
  verify_auth, with_acc_name,
}
use go_proton_api.Backend.Operations.Streams.{IsStreamInvariant, streams_of}

-- A check takes access tokens away, and leaves the streams alone.
check_token-streams :
    (life now : ℕ) (uid access : String) (m : Assoc String Account)
    → streams_of (check_token life now uid access m).1 ≡ streams_of m
unfolding check_token
check_token-streams life now uid access [] = refl
check_token-streams life now uid access ((k, acc) ∷ m) =
    let rest = ap (λ t. (k, acc.update_ids) ∷ t) (check_token-streams life now uid access m) in
    elim (Option-cases (lookup uid acc.auth)) [
      | inl e ↦ rw (check_token, e) rest
      | inr (auth, e) ↦ elim (Bool-cases (is_expired life now auth)) [
        | inl late ↦ rw (check_token, e, late) rest
        | inr late ↦ elim (Bool-cases (auth.acc == access)) [
          | inl fits ↦ rw (check_token, e, late, fits) refl
          | inr fits ↦ rw (check_token, e, late, fits) rest
        ]
      ]
    ]

module _ {P : Store → Type 0} where
  looked_up_keeps :
      {A : Type 0} (name : String) (fn : String → M A)
      → ((p : String) → Keeps P (fn p))
      → Keeps P (with_acc_name name fn)
  unfolding with_acc_name
  looked_up_keeps name fn k = record {
    at = λ b h. elim (Option-cases (find_key (λ acc. acc.username == name) b.accounts)) [
      | inl e ↦ rw (with_acc_name, e) h
      | inr (p, e) ↦ rw (with_acc_name, e) ((k p).at b h)
    ];
  }

module _ {P : Store → Type 0} (inv : IsStreamInvariant P) where
  post_keeps : (p : String) (e : Update) → Keeps P (post p e)
  post_keeps p e = inv.posts p e

  -- Writes to an account that leave its stream alone.
  put_auth_keeps : (p uid : String) (auth : Auth) → Keeps P (set_acc p (put_auth uid auth))
  put_auth_keeps p uid auth = inv.edits p _ (λ acc. refl)

  auth_keeps :
      (p : String) (f : Account → Assoc String Auth)
      → Keeps P (set_acc p (λ acc. record acc { auth = f acc }))
  auth_keeps p f = inv.edits p _ (λ acc. refl)

  contacts_keeps :
      (p : String) (f : Account → Assoc String Contact)
      → Keeps P (set_acc p (λ acc. record acc { contacts = f acc }))
  contacts_keeps p f = inv.edits p _ (λ acc. refl)

  counter_keeps :
      (p : String) (f : Account → ℕ)
      → Keeps P (set_acc p (λ acc. record acc { contact_counter = f acc }))
  counter_keeps p f = inv.edits p _ (λ acc. refl)

  srp_keeps : (f : Store → Assoc String ℕ) → Keeps P (modify λ b. record b { srp = f b })
  srp_keeps f = Keeps-modify _ (λ b h. inv.frame b _ refl refl h)

  ruleset session_rules = (
    keeps_rules, post_keeps, put_auth_keeps, auth_keeps, contacts_keeps, counter_keeps, srp_keeps,
    looked_up_keeps,
  )

  pub new_auth_info_keeps :
      (name : String) (server : Option ℕ) (session : String)
      → Keeps P (new_auth_info name server session)
  unfolding new_auth_info
  new_auth_info_keeps name server session = search session_rules depth 16

  pub new_auth_keeps :
      (verify : ℕ → Option (List ℕ)) (now : ℕ) (name session uid access refresh : String)
      → Keeps P (new_auth verify now name session uid access refresh)
  unfolding new_auth
  new_auth_keeps verify now name session uid access refresh = search session_rules depth 24

  pub new_auth_ref_keeps :
      (now : ℕ) (uid old access refresh : String)
      → Keeps P (new_auth_ref now uid old access refresh)
  unfolding new_auth_ref
  new_auth_ref_keeps now uid old access refresh = search session_rules depth 24

  pub verify_auth_keeps : (now : ℕ) (uid access : String) → Keeps P (verify_auth now uid access)
  unfolding verify_auth reads modify
  verify_auth_keeps now uid access = record {
    at = λ b h.
        let result = check_token b.auth_life now uid access b.accounts in
        let rest =
          Keeps-bind {P = P} _ _ (Keeps-or_fail account_not_found result.0)
            λ p. Keeps-bind _ _ (Keeps-get_acc p) (λ acc. Keeps-pure acc.user_id) in
        unfold ◌>>=◌ in
        rest.at (record b { accounts = result.1 })
          (inv.same_streams b result.1 (check_token-streams b.auth_life now uid access b.accounts)
            h);
  }

  pub delete_session_keeps : (user uid : String) → Keeps P (delete_session user uid)
  unfolding delete_session
  delete_session_keeps user uid = search session_rules depth 16

  pub add_user_contact_keeps :
      (user : String) (contact : Contact) → Keeps P (add_user_contact user contact)
  unfolding add_user_contact
  add_user_contact_keeps user contact = search session_rules depth 16

  pub update_user_contact_keeps :
      (user id : String) (cards : List Card) → Keeps P (update_user_contact user id cards)
  unfolding update_user_contact
  update_user_contact_keeps user id cards = search session_rules depth 16

  pub generate_contact_id_keeps : (user : String) → Keeps P (generate_contact_id user)
  unfolding generate_contact_id
  generate_contact_id_keeps user = search session_rules depth 16

  pub add_address_created_update_keeps :
      (user id : String) → Keeps P (add_address_created_update user id)
  unfolding add_address_created_update
  add_address_created_update_keeps user id = Keeps-with_acc _ _ (λ p. inv.posts p _)

  pub add_address_updated_event_keeps :
      (user id : String) → Keeps P (add_address_updated_event user id)
  unfolding add_address_updated_event
  add_address_updated_event_keeps user id = Keeps-with_acc _ _ (λ p. inv.posts p _)

  pub add_label_created_update_keeps :
      (user id : String) → Keeps P (add_label_created_update user id)
  unfolding add_label_created_update
  add_label_created_update_keeps user id = Keeps-with_acc _ _ (λ p. inv.posts p _)

  pub add_message_created_update_keeps :
      (user id : String) → Keeps P (add_message_created_update user id)
  unfolding add_message_created_update
  add_message_created_update_keeps user id = Keeps-with_acc _ _ (λ p. inv.posts p _)

  pub push_feature_flag_keeps : (name : String) → Keeps P (push_feature_flag name)
  unfolding push_feature_flag
  push_feature_flag_keeps name = Keeps-modify _ (λ b h. inv.frame b _ refl refl h)

  pub delete_feature_flags_keeps : Keeps P delete_feature_flags
  unfolding delete_feature_flags
  delete_feature_flags_keeps = Keeps-modify _ (λ b h. inv.frame b _ refl refl h)
