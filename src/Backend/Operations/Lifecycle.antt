-- ===== src/Backend/Operations/Lifecycle.antt =====
-- New users, removed users and refreshes, and the event streams.
use go_proton_api.Base.{
  ℕ, true, false, String, string_eq, nat_eq, Bool-cases, List, [], ◌∷◌, ◌==◌, ◌≡◌, refl, arith, inl,
  inr, ◌∙◌,
}
use go_proton_api.Base.Int.{pos}
use go_proton_api.Base.Assoc.{
  Assoc, AllValues-adjust, AllValues-delete, AllValues-insert, delete, insert, lookup,
  lookup-delete, lookup-insert,
}
use go_proton_api.Backend.Types.{Account, Label, Message, new_account}
use go_proton_api.Backend.Updates.{Update, user_refreshed}
use go_proton_api.Backend.Exec.{crypto_failure, modify, no_such_user, ◌>>=◌}
use go_proton_api.Backend.Store.{M, Store, new_update, post, set_acc}
use go_proton_api.Backend.Store.Keeps.{
  Keeps, Keeps-bind, Keeps-for_each, Keeps-modify, Keeps-reads, Keeps-or_fail, Keeps-pure,
  Keeps-skip, Keeps-with_acc_at, keeps_rules,
}
use go_proton_api.Backend.Store.Ordered.{IsOrdered, streams_mono, updated-IsOrdered}
use go_proton_api.Backend.Mailbox.{delete_attachment}
use go_proton_api.Backend.Addresses.{KeyMaker}
use go_proton_api.Backend.Users.{
  NewUser, create_user, refresh_all, refresh_user, remove_message, remove_user,
}
use go_proton_api.Backend.Operations.{
  UserOperation, perform_user, touches, user_create, user_refresh, user_remove,
}
use go_proton_api.Backend.Operations.Streams.{IsStreamInvariant, delete_attachment_keeps}
use go_proton_api.Backend.Operations.Invariants.{
  HasStream, HasStream-adjust, IsOrdered-invariant, stream_invariant,
}

abbrev put_user : String → Account → Store → Store
put_user user_id acc b = record b { accounts = insert user_id acc b.accounts }

abbrev drop_user : String → Store → Store
drop_user user_id b = record b { accounts = delete user_id b.accounts }

-- The two statements of a refresh that starts the stream anew.
begin_anew : String → Update → M Unit
begin_anew p event = new_update event >>= λ n. set_acc p (λ acc. record acc { update_ids = n ∷ [] })

module _ {P : Store → Type 0} (inv : IsStreamInvariant P) where
  messages_keeps :
      (f : Store → Assoc String Message) → Keeps P (modify λ b. record b { messages = f b })
  messages_keeps f = Keeps-modify _ (λ b h. inv.frame b _ refl refl h)

  labels_keeps : (f : Store → Assoc String Label) → Keeps P (modify λ b. record b { labels = f b })
  labels_keeps f = Keeps-modify _ (λ b h. inv.frame b _ refl refl h)

  attachment_keeps : (id : String) → Keeps P (delete_attachment id)
  attachment_keeps id = delete_attachment_keeps inv id

  remove_message_keeps : (id : String) → Keeps P (remove_message id)
  unfolding remove_message
  remove_message_keeps id = search (keeps_rules, messages_keeps, attachment_keeps) depth 16

  remove_user_keeps :
      (user_id : String) → Keeps P (modify (drop_user user_id)) → Keeps P (remove_user user_id)
  unfolding remove_user
  remove_user_keeps user_id drops =
      Keeps-bind _ _ (Keeps-reads (λ b. lookup user_id b.accounts)) λ found.
        Keeps-bind _ _ (Keeps-or_fail no_such_user found) λ user.
          Keeps-bind _ _
            (Keeps-for_each user.label_ids _ (λ id. labels_keeps (λ b. delete id b.labels)))
            λ _.
              Keeps-bind _ _ (Keeps-for_each user.message_ids _ remove_message_keeps) (λ _. drops)

  create_user_keeps :
      (maker : KeyMaker) (name : String) (password : List ℕ) (new : NewUser)
      → ((acc : Account) → acc.update_ids ≡ [] → Keeps P (modify (put_user new.user_id acc)))
      → Keeps P (create_user maker name password new)
  unfolding create_user new_account
  create_user_keeps maker name password new puts =
      Keeps-bind _ _ (Keeps-or_fail crypto_failure new.salt) λ salt.
        Keeps-bind _ _ (Keeps-or_fail crypto_failure (maker.hash_password password salt))
          λ passphrase. Keeps-bind _ _ (Keeps-or_fail crypto_failure new.verifier) λ verifier.
            Keeps-bind _ _
              (Keeps-or_fail crypto_failure (maker.generate_key name name passphrase (pos 2048)))
              λ arm_key.
                Keeps-bind _ _
                  (puts (new_account new.user_id name arm_key salt verifier new.key_id) refl)
                  (λ _. Keeps-pure new.user_id)

  refresh_user_keeps :
      (user_id : String) (flag : ℕ)
      → ((flag == refresh_all) ≡ true → Keeps P (begin_anew user_id (user_refreshed flag)))
      → Keeps P (refresh_user user_id flag)
  unfolding refresh_user begin_anew post
  refresh_user_keeps user_id flag anew =
      Keeps-with_acc_at _ _ (elim (Bool-cases (flag == refresh_all)) [
        | inl e ↦ rw e (anew e)
        | inr e ↦ rw e (inv.posts user_id (user_refreshed flag))
      ])

begin_anew-IsOrdered : (p : String) (e : Update) → Keeps IsOrdered (begin_anew p e)
unfolding begin_anew new_update set_acc ◌>>=◌ modify
begin_anew-IsOrdered p e = record {
  at = λ b h.
      updated-IsOrdered b e _ h (
        AllValues-adjust _ p _ b.accounts (λ acc a. (omega arith, omega arith)) (streams_mono b h));
}

-- The streams are in order after each of them.
pub perform_user-IsOrdered :
    (maker : KeyMaker) (fuel : ℕ) (o : UserOperation) → Keeps IsOrdered (perform_user maker fuel o)
unfolding perform_user
perform_user-IsOrdered maker fuel (user_create name password new) =
    Keeps-bind _ _
      (create_user_keeps IsOrdered-invariant maker name password new λ acc fresh.
        Keeps-modify _ λ b h. record {
          dense = h.dense;
          streams =
              AllValues-insert _ new.user_id acc b.accounts (rw fresh (omega arith)) h.streams;
        })
      (λ _. Keeps-skip)
perform_user-IsOrdered maker fuel (user_remove user) = remove_user_keeps IsOrdered-invariant user (
    Keeps-modify _
      λ b h. record { dense = h.dense; streams = AllValues-delete _ user b.accounts h.streams })
perform_user-IsOrdered maker fuel (user_refresh user flag) =
    refresh_user_keeps IsOrdered-invariant user flag (λ _. begin_anew-IsOrdered user _)

module _ (p : String) (ids : List ℕ) where
  untouched_stream :
      (m : Assoc String Account) (b : Store)
      → lookup p m ≡ lookup p b.accounts
      → HasStream p ids b
      → HasStream p ids (record b { accounts = m })
  untouched_stream m b same h = record {
    acc = h.acc;
    found = same ∙ h.found;
    later = h.later;
    stream = h.stream;
  }

  -- No other operation shortens the stream of `p`.
  pub perform_user-HasStream :
      (maker : KeyMaker) (fuel : ℕ) (o : UserOperation)
      → touches p o ≡ false
      → Keeps (HasStream p ids) (perform_user maker fuel o)
  unfolding perform_user
  perform_user-HasStream maker fuel (user_create name password new) e =
      Keeps-bind _ _
        (create_user_keeps (stream_invariant p ids) maker name password new λ acc fresh.
          Keeps-modify _
            λ b h. untouched_stream _ b (lookup-insert new.user_id p acc b.accounts ∙ rw e refl) h)
        (λ _. Keeps-skip)
  perform_user-HasStream maker fuel (user_remove user) e =
      remove_user_keeps (stream_invariant p ids) user
        (Keeps-modify _ λ b h. untouched_stream _ b (lookup-delete user p b.accounts ∙ rw e refl) h)
  perform_user-HasStream maker fuel (user_refresh user flag) e =
      refresh_user_keeps (stream_invariant p ids) user flag λ anew. record {
        at =
            unfold begin_anew new_update set_acc ◌>>=◌ modify in
            λ b h. HasStream-adjust p user ids _ _ b (λ same. absurd (ground arith)) h;
      }
