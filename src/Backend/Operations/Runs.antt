-- ===== src/Backend/Operations/Runs.antt =====
-- What holds after every run of the backend: the streams are in order, every update that a stream
-- names is known, and a stream only grows until it is begun anew.
use go_proton_api.Base.{
  ℕ, suc, ◌≤◌, String, some, List, [], ◌∷◌, All, length, ◌≡◌, refl, sym, subst, arith, nat_eq,
  string_eq,
}
use mathlib.Core.List.{append-nil}
use go_proton_api.Base.Assoc.{Assoc, lookup, lookup-AllValues}
use go_proton_api.Backend.Types.{Account}
use go_proton_api.Backend.Updates.{Update}
use go_proton_api.Backend.Store.{Store}
use go_proton_api.Backend.Store.Keeps.{Keeps, Keeps-bind, Keeps-skip}
use go_proton_api.Backend.Store.Ordered.{Ascends, Numbered, IsOrdered, Numbered-lookup}
use go_proton_api.Backend.Events.{updates_at}
use go_proton_api.Backend.Operations.Invariants.{HasStream, IsOrdered-invariant, stream_invariant}
use go_proton_api.Backend.Operations.Lifecycle.{perform_user-HasStream, perform_user-IsOrdered}
use go_proton_api.Backend.Operations.Sessions.{
  add_address_created_update_keeps, add_address_updated_event_keeps, add_label_created_update_keeps,
  add_message_created_update_keeps, add_user_contact_keeps, delete_feature_flags_keeps,
  delete_session_keeps, generate_contact_id_keeps, new_auth_info_keeps, new_auth_keeps,
  new_auth_ref_keeps, push_feature_flag_keeps, update_user_contact_keeps, verify_auth_keeps,
}
use go_proton_api.Backend.Operations.{
  Operation, perform, run_all, op_create_label, op_update_label, op_delete_label, op_set_read,
  op_set_forwarded, op_label, op_unlabel, op_delete_message, op_create_draft, op_update_draft,
  op_create_attachment, op_create_message, op_send, op_address_status, op_delete_address,
  op_remove_address, op_address_order, op_change_address, op_create_address, op_address_key,
  op_remove_address_key, op_user_key, op_remove_user_key, op_mail_settings, op_user_setting,
  op_announce_address, op_announce_address_change, op_announce_label, op_announce_message,
  op_add_contact, op_update_contact, op_contact_id, op_auth_info, op_login, op_refresh_login,
  op_check_login, op_delete_session, op_push_flag, op_delete_flags, op_user, UserOperation,
  perform_user, Spares,
}
use go_proton_api.Backend.Addresses.{KeyMaker}
use go_proton_api.Backend.Operations.Deliveries.{
  create_attachment_keeps, create_message_keeps, send_message_keeps,
}
use go_proton_api.Backend.Operations.Profiles.{
  change_address_keeps, create_address_keeps, create_address_key_keeps, create_user_key_keeps,
  delete_address_keeps, remove_address_keeps, remove_address_key_keeps, remove_user_key_keeps,
  set_address_order_keeps, set_address_status_keeps, set_mail_settings_keeps,
  set_user_setting_keeps,
}
use go_proton_api.Backend.Operations.Streams.{
  IsStreamInvariant, create_draft_keeps, create_label_keeps, delete_label_keeps,
  delete_message_keeps, label_messages_keeps, set_messages_forwarded_keeps, set_messages_read_keeps,
  unlabel_messages_keeps, update_draft_keeps, update_label_keeps,
}

-- The user operations that a request may be keep the property.
Lives : (Store → Type 0) → KeyMaker → ℕ → Operation → Type 0
Lives P maker fuel o = (u : UserOperation) → o ≡ op_user u → Keeps P (perform_user maker fuel u)

module _ {P : Store → Type 0} (inv : IsStreamInvariant P) (maker : KeyMaker) (fuel : ℕ) where
  perform_keeps : (o : Operation) → Lives P maker fuel o → Keeps P (perform maker fuel o)
  unfolding perform Lives
  perform_keeps (op_create_label u n a t i) _ =
      Keeps-bind _ _ (create_label_keeps inv fuel u n a t i) (λ _. Keeps-skip)
  perform_keeps (op_update_label u i n a) _ =
      Keeps-bind _ _ (update_label_keeps inv fuel u i n a) (λ _. Keeps-skip)
  perform_keeps (op_delete_label u i) _ = delete_label_keeps inv fuel u i
  perform_keeps (op_set_read u r is) _ = set_messages_read_keeps inv u r is
  perform_keeps (op_set_forwarded u r is) _ = set_messages_forwarded_keeps inv u r is
  perform_keeps (op_label u l e is) _ = label_messages_keeps inv u l e is
  perform_keeps (op_unlabel u l is) _ = unlabel_messages_keeps inv u l is
  perform_keeps (op_delete_message u i) _ = delete_message_keeps inv u i
  perform_keeps (op_create_draft u a d r x i) _ =
      Keeps-bind _ _ (create_draft_keeps inv u a d r x i) (λ _. Keeps-skip)
  perform_keeps (op_update_draft u i c) _ =
      Keeps-bind _ _ (update_draft_keeps inv u i c) (λ _. Keeps-skip)
  perform_keeps (op_create_attachment u i att bytes) _ =
      Keeps-bind _ _ (create_attachment_keeps inv u i att bytes) (λ _. Keeps-skip)
  perform_keeps (op_create_message u msg) _ =
      Keeps-bind _ _ (create_message_keeps inv u msg) (λ _. Keeps-skip)
  perform_keeps (op_send now u i packages) _ =
      Keeps-bind _ _ (send_message_keeps inv maker.armor now u i packages) (λ _. Keeps-skip)
  perform_keeps (op_address_status s u i) _ = set_address_status_keeps inv s u i
  perform_keeps (op_delete_address u i) _ = delete_address_keeps inv u i
  perform_keeps (op_remove_address u i) _ = remove_address_keeps inv u i
  perform_keeps (op_address_order u is) _ = set_address_order_keeps inv u is
  perform_keeps (op_change_address f u i) _ = change_address_keeps inv f u i
  perform_keeps (op_create_address u e pw w s t a n bits random k i) _ =
      Keeps-bind _ _ (create_address_keeps inv maker u e pw w s t a n bits random k i)
        (λ _. Keeps-skip)
  perform_keeps (op_address_key u i pw random k) _ =
      create_address_key_keeps inv maker u i pw random k
  perform_keeps (op_remove_address_key u i k) _ = remove_address_key_keeps inv u i k
  perform_keeps (op_user_key u pw random k) _ = create_user_key_keeps inv maker u pw random k
  perform_keeps (op_remove_user_key u k) _ = remove_user_key_keeps inv u k
  perform_keeps (op_mail_settings u f) _ =
      Keeps-bind _ _ (set_mail_settings_keeps inv u f) (λ _. Keeps-skip)
  perform_keeps (op_user_setting u v f) _ =
      Keeps-bind _ _ (set_user_setting_keeps inv u v f) (λ _. Keeps-skip)
  perform_keeps (op_announce_address u i) _ = add_address_created_update_keeps inv u i
  perform_keeps (op_announce_address_change u i) _ = add_address_updated_event_keeps inv u i
  perform_keeps (op_announce_label u i) _ = add_label_created_update_keeps inv u i
  perform_keeps (op_announce_message u i) _ = add_message_created_update_keeps inv u i
  perform_keeps (op_add_contact u c) _ =
      Keeps-bind _ _ (add_user_contact_keeps inv u c) (λ _. Keeps-skip)
  perform_keeps (op_update_contact u i cards) _ =
      Keeps-bind _ _ (update_user_contact_keeps inv u i cards) (λ _. Keeps-skip)
  perform_keeps (op_contact_id u) _ =
      Keeps-bind _ _ (generate_contact_id_keeps inv u) (λ _. Keeps-skip)
  perform_keeps (op_auth_info n server i) _ =
      Keeps-bind _ _ (new_auth_info_keeps inv n server i) (λ _. Keeps-skip)
  perform_keeps (op_login verify now n session i access refresh) _ =
      Keeps-bind _ _ (new_auth_keeps inv verify now n session i access refresh) (λ _. Keeps-skip)
  perform_keeps (op_refresh_login now i old access refresh) _ =
      Keeps-bind _ _ (new_auth_ref_keeps inv now i old access refresh) (λ _. Keeps-skip)
  perform_keeps (op_check_login now i access) _ =
      Keeps-bind _ _ (verify_auth_keeps inv now i access) (λ _. Keeps-skip)
  perform_keeps (op_delete_session u i) _ = delete_session_keeps inv u i
  perform_keeps (op_push_flag name) _ = push_feature_flag_keeps inv name
  perform_keeps op_delete_flags _ = delete_feature_flags_keeps inv
  perform_keeps (op_user o) lives = lives o refl

  run_all_keeps :
      (os : List Operation)
      → All (Lives P maker fuel) os
      → (b : Store) → P b
      → P (run_all maker fuel os b)
  unfolding run_all
  run_all_keeps [] lives b h = h
  run_all_keeps (o ∷ os) lives b h =
      run_all_keeps os lives.1 (perform maker fuel o b).1 ((perform_keeps o lives.0).at b h)

Ascends-bound : {lo hi : ℕ} (ids : List ℕ) → Ascends lo hi ids → lo ≤ hi
Ascends-bound [] a = a
Ascends-bound (i ∷ is) a = omega (arith, a.0, Ascends-bound is a.1)

updates_at-cons :
    (i : ℕ) (is : List ℕ) (m : Assoc ℕ Update) (u : Update) (us : List Update)
    → lookup i m ≡ some u
    → updates_at m is ≡ some us
    → updates_at m (i ∷ is) ≡ some (u ∷ us)
unfolding updates_at
updates_at-cons i is m u us e q = ground arith

known_updates :
    (lo : ℕ) (ids : List ℕ) (m : Assoc ℕ Update)
    → Numbered 0 m
    → Ascends lo (length m) ids
    → (us : List Update) × (updates_at m ids ≡ some us)
unfolding updates_at
known_updates lo [] m n a = ([], refl)
known_updates lo (i ∷ is) m n a =
    let (u, found) = Numbered-lookup 0 i m n (omega arith) (omega (arith, Ascends-bound is a.1)) in
    let (us, rest) = known_updates (suc i) is m n a.1 in
    (u ∷ us, updates_at-cons i is m u us found rest)

All-Lives :
    (maker : KeyMaker) (fuel : ℕ) (os : List Operation) → All (Lives IsOrdered maker fuel) os
unfolding Lives
All-Lives maker fuel [] = tt
All-Lives maker fuel (o ∷ os) =
    (λ u _. perform_user-IsOrdered maker fuel u, All-Lives maker fuel os)

-- Begin with streams in order, and let any of the methods of the backend in `Operation` follow, in any
-- order, whether each returns, fails or panics: the operations of the mailbox, the labels, the
-- addresses, the keys, the settings, the contacts, the sessions and the feature flags, new and removed
-- users, refreshes and announcements. Then the streams are in order, and every update that the stream
-- of an account names is there: no event reads a nil update.
pub run_all-updates_at :
    (maker : KeyMaker) (fuel : ℕ) (os : List Operation) (b : Store) (p : String) (acc : Account)
    → IsOrdered b
    → lookup p (run_all maker fuel os b).accounts ≡ some acc
    → Ascends 0 (length (run_all maker fuel os b).updates) acc.update_ids
      × ((us : List Update) × (updates_at (run_all maker fuel os b).updates acc.update_ids
            ≡ some us))
run_all-updates_at maker fuel os b p acc h found =
    let after = run_all_keeps IsOrdered-invariant maker fuel os (All-Lives maker fuel os) b h in
    let a =
      lookup-AllValues (λ acc. Ascends 0 (length (run_all maker fuel os b).updates) acc.update_ids)
        p (run_all maker fuel os b).accounts after.streams found in
    (a, known_updates 0 acc.update_ids _ after.dense a)

Spares-Lives :
    (maker : KeyMaker) (fuel : ℕ) (p : String) (ids : List ℕ) (os : List Operation)
    → All (Spares p) os
    → All (Lives (HasStream p ids) maker fuel) os
unfolding Lives
Spares-Lives maker fuel p ids [] h = tt
Spares-Lives maker fuel p ids (o ∷ os) h = (
  λ u e. perform_user-HasStream p ids maker fuel u (subst (Spares p) e h.0),
  Spares-Lives maker fuel p ids os h.1,
)

-- Take a run of those methods in which no request removes the user `p`, creates a user under its id, or
-- refreshes `p` with `RefreshAll`, which begins a stream anew; other users may come, go and be
-- refreshed. The run never drops or reorders what the stream of `p` holds: the account is still there,
-- and its stream begins with the ids that it had.
pub run_all-HasStream :
    (maker : KeyMaker) (fuel : ℕ) (os : List Operation) (b : Store) (p : String) (acc : Account)
    → All (Spares p) os
    → lookup p b.accounts ≡ some acc
    → HasStream p acc.update_ids (run_all maker fuel os b)
run_all-HasStream maker fuel os b p acc spared found =
    run_all_keeps (stream_invariant p acc.update_ids) maker fuel os
      (Spares-Lives maker fuel p acc.update_ids os spared) b
      (record { acc = acc; found = found; later = []; stream = sym (append-nil acc.update_ids) })
