-- ===== src/Backend/Mailbox/Deletion.antt =====
-- What `DeleteMessage` leaves.
use go_proton_api.Base.{
  String, string_eq, nat_eq, false, not, none, some, List, [], ◌∷◌, ◌++◌, ◌==◌, contains, filter,
  length, ◌≡◌, refl, sym, ap, ◌∙◌, subst, arith, beq_refl, Bool-cases, Option-cases, inl, inr,
  if◌then◌else◌,
}
use go_proton_api.Base.Assoc.{
  adjust, delete, insert, lookup, lookup-adjust, lookup-delete, lookup-insert, option_map,
}
use go_proton_api.Backend.Types.{Account, Message}
use go_proton_api.Backend.Updates.{message_deleted}
use go_proton_api.Backend.Exec.{returned, for_each, modify, ◌>>=◌, ◌>>◌}
use go_proton_api.Backend.Exec.Returns.{after_loop}
use go_proton_api.Backend.Store.{Store, M, post, push_id, set_acc, with_acc}
use go_proton_api.Backend.Store.Keeps.{Keeps, Keeps-for_each}
use go_proton_api.Backend.Mailbox.{delete_attachment, delete_message}

-- The state has the mailboxes and the updates of `b`; the attachments may differ.
record SameMail (b b' : Store) : Type 0 where
  accounts : b'.accounts ≡ b.accounts
  messages : b'.messages ≡ b.messages
  updates : b'.updates ≡ b.updates

delete_attachment-SameMail : (b : Store) (id : String) → Keeps (SameMail b) (delete_attachment id)
unfolding delete_attachment
delete_attachment-SameMail b id = record {
  at = λ s h. elim (Option-cases (lookup id s.attachments)) [
    | inl e ↦ elim (Bool-cases (length s.attachments == 0)) [
      | inl n ↦ rw (e, n) h
      | inr n ↦ rw (e, n) h
    ]
    | inr (att, e) ↦
        rw e (record { accounts = h.accounts; messages = h.messages; updates = h.updates })
  ];
}

attachments-SameMail :
    (b : Store) (ids : List String) → SameMail b (for_each ids delete_attachment b).1
attachments-SameMail b ids =
    (Keeps-for_each ids delete_attachment (delete_attachment-SameMail b)).at b
      (record { accounts = refl; messages = refl; updates = refl })

abbrev forget : String → Account → Account
forget id acc = record acc { message_ids = filter (λ other. not (other == id)) acc.message_ids }

-- The state after the deletion, from the state after the loop over the attachments.
abbrev deleted : String → String → Store → Store
deleted user_id id s =
    let n = length s.updates in
    record s {
      messages = delete id s.messages;
      updates = insert n (message_deleted id) s.updates;
      accounts = adjust user_id (forget id) (adjust user_id (push_id n) s.accounts);
    }

contains-filter :
    (id : String) (xs : List String) → contains (filter (λ other. not (other == id)) xs) id ≡ false
unfolding contains filter
contains-filter id [] = refl
contains-filter id (x ∷ xs) = elim (Bool-cases (x == id)) [
  | inl e ↦ rw e (contains-filter id xs)
  | inr e ↦ rw (e, contains-filter id xs) (ground arith)
]

finish : String → String → M Unit
unfolding ◌>>=◌ post set_acc
finish p id = do
  modify (λ b. record b { messages = delete id b.messages })
  post p (message_deleted id)
  set_acc p (forget id)

finish-deleted : (p id : String) (b : Store) → finish p id b ≡ (returned tt, deleted p id b)
unfolding finish post set_acc
finish-deleted p id b = refl

record IsDeletion (user_id id : String) (b after : Store) : Type 0 where
  before : Store
  same : SameMail b before
  wrote : after ≡ deleted user_id id before

delete_message-found :
    (user_id id : String) (b : Store) (acc : Account) (msg : Message)
    → lookup user_id b.accounts ≡ some acc
    → lookup id b.messages ≡ some msg
    → delete_message user_id id b
      ≡ (for_each msg.att_ids delete_attachment >>= λ _. finish user_id id) b
unfolding delete_message with_acc finish
delete_message-found user_id id b acc msg e q = rw (with_acc, e, q) refl

delete_message-IsDeletion :
    (user_id id : String) (b : Store)
    → (delete_message user_id id b).0 ≡ returned tt
    → IsDeletion user_id id b (delete_message user_id id b).1
unfolding delete_message with_acc
delete_message-IsDeletion user_id id b h = elim (Option-cases (lookup user_id b.accounts)) [
  | inl e ↦ absurd (ground arith)
  | inr (acc, e) ↦ elim (Option-cases (lookup id b.messages)) [
    | inl q ↦ absurd (ground arith)
    | inr (msg, q) ↦
        let same = delete_message-found user_id id b acc msg e q in
        let loop = for_each msg.att_ids delete_attachment in
        let ran = after_loop loop (finish user_id id) b (sym (ap (λ r. r.0) same) ∙ h) in
        record {
          before = (loop b).1;
          same = attachments-SameMail b msg.att_ids;
          wrote = ap (λ r. r.1) (same ∙ ran ∙ finish-deleted user_id id (loop b).1);
        }
  ]
]

-- What the deletion of message `id` leaves: the message is gone from the map and from the list of its
-- account, the other messages are as before, and the account has one more update, which reports it.
pub record IsGone (user_id id : String) (acc : Account) (b after : Store) : Type 0 where
  pub message :
      (other : String)
      → lookup other after.messages ≡ (if id == other then none else lookup other b.messages)
  pub left : Account
  pub at : lookup user_id after.accounts ≡ some left
  pub unlisted : contains left.message_ids id ≡ false
  pub logged : left.update_ids ≡ acc.update_ids ++ length b.updates ∷ []
  pub update : lookup (length b.updates) after.updates ≡ some (message_deleted id)

deleted-IsGone :
    (user_id id : String) (acc : Account) (b s : Store)
    → SameMail b s
    → lookup user_id b.accounts ≡ some acc
    → IsGone user_id id acc b (deleted user_id id s)
deleted-IsGone user_id id acc b s same e =
    let n = length s.updates in
    let count : n ≡ length b.updates = ap length same.updates in
    let found : lookup user_id s.accounts ≡ some acc = ap (lookup user_id) same.accounts ∙ e in
    let pushed : lookup user_id (adjust user_id (push_id n) s.accounts) ≡ some (push_id n acc) =
      lookup-adjust user_id user_id (push_id n) s.accounts
      ∙ rw (beq_refl user_id) (ap (option_map (push_id n)) found) in
    record {
      message = λ other. lookup-delete id other s.messages ∙ rw same.messages refl;
      left = forget id (push_id n acc);
      at =
          lookup-adjust user_id user_id (forget id) (adjust user_id (push_id n) s.accounts)
          ∙ rw (beq_refl user_id) (ap (option_map (forget id)) pushed);
      unlisted = contains-filter id acc.message_ids;
      logged = ap (λ k. acc.update_ids ++ k ∷ []) count;
      update =
          ap (λ k. lookup k (insert n (message_deleted id) s.updates)) (sym count)
          ∙ lookup-insert n n (message_deleted id) s.updates
          ∙ rw (beq_refl n) refl;
    }

-- `DeleteMessage` of a known user, when it returns no error, takes the message out of the map and out of
-- the list of its account, leaves the other messages as they were, and appends one update to the
-- account, which reports the deletion.
pub delete_message-IsGone :
    (user_id id : String) (acc : Account) (b : Store)
    → lookup user_id b.accounts ≡ some acc
    → (delete_message user_id id b).0 ≡ returned tt
    → IsGone user_id id acc b (delete_message user_id id b).1
delete_message-IsGone user_id id acc b e h =
    let done = delete_message-IsDeletion user_id id b h in
    subst (IsGone user_id id acc b) (sym done.wrote)
      (deleted-IsGone user_id id acc b done.before done.same e)
