-- ===== src/Backend/Delivery/Duplicates.antt =====
-- The deduplication of `CreateMessage`.
use go_proton_api.Base.{
  false, All, In, In-append_cases, In-append_right, str_iff, ◌⊎◌, ◌↔◌, length, String, string_eq,
  nat_eq, true, Option, none, some, List, [], ◌∷◌, ◌++◌, ◌==◌, ◌≡◌, refl, sym, ap, ◌∙◌, subst,
  arith, beq_refl, Bool-cases, inl, inr,
}
use go_proton_api.Base.Assoc.{Assoc, adjust, find_key, insert, insert_new, lookup, lookup-insert}
use go_proton_api.Backend.Types.{Account, MailAddress, Message}
use go_proton_api.Backend.Exec.{Outcome, returned}
use go_proton_api.Backend.Store.{Store, post, push_id, set_acc, with_acc_ret}
use go_proton_api.Backend.Updates.{message_created}
use go_proton_api.Backend.Mailbox.{push_message_id, store_message}
use go_proton_api.Backend.Delivery.{
  create_message, find_duplicate, is_duplicate, same_list, store_unless,
}

-- The message under another id.
abbrev pub with_id : String → Message → Message
with_id id msg = record msg { message_id = id }

same_list_refl : (xs : List MailAddress) → same_list xs xs ≡ true
unfolding same_list
same_list_refl [] = refl
same_list_refl (a ∷ xs) = rw (beq_refl a.address, same_list_refl xs) refl

-- A message with a sender duplicates itself, under whichever id.
is_duplicate_self :
    (msg : Message) (from : MailAddress) (id : String)
    → msg.sender ≡ some from
    → is_duplicate (with_id id msg) msg ≡ some true
unfolding is_duplicate
is_duplicate_self msg from id e =
    rw
      (
        e,
        beq_refl from.address,
        same_list_refl msg.to_list,
        same_list_refl msg.bcc_list,
        same_list_refl msg.cc_list,
        beq_refl msg.subject,
      )
      refl

find_duplicate-with_id :
    (id : String) (msg : Message) (m : Assoc String Message)
    → find_duplicate (with_id id msg) m ≡ find_duplicate msg m
unfolding find_duplicate
find_duplicate-with_id id msg [] = refl
find_duplicate-with_id id msg ((k, n) ∷ m) = rw (find_duplicate-with_id id msg m) refl

-- The message is of another address, or has a sender and differs: a range over it goes on.
abbrev pub IsOther : Message → String × Message → Type 0
IsOther msg entry = (entry.1.addr_id ≡ msg.addr_id) → is_duplicate msg entry.1 ≡ some false

find_duplicate_other :
    (msg n : Message) (k : String) (m : Assoc String Message)
    → IsOther msg (k, n)
    → find_duplicate msg ((k, n) ∷ m) ≡ find_duplicate msg m
unfolding find_duplicate is_duplicate
find_duplicate_other msg n k m other = elim (Bool-cases (n.addr_id == msg.addr_id)) [
  | inl e ↦
      let same : n.addr_id ≡ msg.addr_id = (str_iff n.addr_id msg.addr_id).0 e in
      let differs = other same in ground arith
  | inr e ↦ ground arith
]

find_duplicate_here :
    (msg : Message) (from : MailAddress) (k : String) (m : Assoc String Message)
    → msg.sender ≡ some from
    → find_duplicate msg ((k, msg) ∷ m) ≡ some (some msg.message_id)
unfolding find_duplicate is_duplicate
find_duplicate_here msg from k m e =
    let same = is_duplicate_self msg from msg.message_id e in ground (arith, beq_refl msg.addr_id)

find_duplicate-none :
    (msg : Message) (m : Assoc String Message)
    → All (IsOther msg) m
    → find_duplicate msg m ≡ some none
unfolding find_duplicate
find_duplicate-none msg [] others = refl
find_duplicate-none msg ((k, n) ∷ m) others =
    find_duplicate_other msg n k m others.0 ∙ find_duplicate-none msg m others.1

-- A range in any order over others and the message itself finds the message.
find_duplicate_self :
    (msg : Message) (from : MailAddress) (m : Assoc String Message)
    → msg.sender ≡ some from
    → All (λ entry. IsOther msg entry ⊎ (entry ≡ (msg.message_id, msg))) m
    → In (msg.message_id, msg) m
    → find_duplicate msg m ≡ some (some msg.message_id)
find_duplicate_self msg from [] e known here = absurd here
find_duplicate_self msg from ((k, n) ∷ m) e known (inl self) =
    let same : n ≡ msg = ap (λ p. p.1) self in rw same (find_duplicate_here msg from k m e)
find_duplicate_self msg from ((k, n) ∷ m) e known (inr later) = elim known.0 [
  | inr self ↦
      let same : n ≡ msg = ap (λ p. p.1) self in rw same (find_duplicate_here msg from k m e)
  | inl other ↦
      find_duplicate_other msg n k m other ∙ find_duplicate_self msg from m e known.1 later
]

All-In :
    (P : String × Message → Type 0) (m : Assoc String Message)
    → ((entry : String × Message) → In entry m → P entry)
    → All P m
All-In P [] h = tt
All-In P (entry ∷ m) h = (h entry (inl refl), All-In P m (λ other q. h other (inr q)))

In-All :
    (P : String × Message → Type 0) (m : Assoc String Message) (entry : String × Message)
    → All P m
    → In entry m
    → P entry
In-All P [] entry h q = absurd q
In-All P (first ∷ m) entry h (inl e) = subst P e h.0
In-All P (first ∷ m) entry h (inr q) = In-All P m entry h.1 q

-- Two orders of one map.
abbrev pub IsReordered : Assoc String Message → Assoc String Message → Type 0
IsReordered m m' = (entry : String × Message) → In entry m ↔ In entry m'

find_duplicate-reordered :
    (msg : Message) (from : MailAddress) (id : String) (m m' : Assoc String Message)
    → msg.sender ≡ some from
    → All (IsOther msg) m
    → lookup msg.message_id m ≡ none
    → IsReordered (insert msg.message_id msg m) m'
    → find_duplicate (with_id id msg) m' ≡ some (some msg.message_id)
find_duplicate-reordered msg from id m m' e others fresh same =
    let stored = insert_new msg.message_id msg m fresh in
    let last : In (msg.message_id, msg) (m ++ (msg.message_id, msg) ∷ []) =
      In-append_right _ m _ (inl refl) in
    find_duplicate-with_id id msg m'
    ∙ find_duplicate_self msg from m' e
        (All-In _ m' (λ entry q.
          elim (In-append_cases entry m _ (subst (In entry) stored ((same entry).1 q))) [
            | inl old ↦ inl (In-All (IsOther msg) m entry others old)
            | inr (inl new) ↦ inr (sym new)
            | inr (inr nothing) ↦ absurd nothing
          ]))
        ((same (msg.message_id, msg)).0 (subst (In (msg.message_id, msg)) (sym stored) last))

pub find_key-adjust :
    (user p : String) (f : Account → Account) (m : Assoc String Account)
    → ((acc : Account) → (f acc).user_id ≡ acc.user_id)
    → find_key (λ acc. acc.user_id == user) (adjust p f m) ≡ find_key (λ acc. acc.user_id == user) m
unfolding find_key adjust
find_key-adjust user p f [] same = refl
find_key-adjust user p f ((k, acc) ∷ m) same =
    let rest = find_key-adjust user p f m same in
    elim (Bool-cases (k == p)) [ inl e ↦ rw (e, same acc) refl | inr e ↦ rw (e, rest) refl ]

-- The state after `store_message`.
abbrev stored : String → Message → Store → Store
stored p msg b =
    let update_id = length b.updates in
    record b {
      messages = insert msg.message_id msg b.messages;
      updates = insert update_id (message_created msg.message_id) b.updates;
      accounts =
          adjust p (push_message_id msg.message_id) (adjust p (push_id update_id) b.accounts);
    }

store_message-stored :
    (p : String) (msg : Message) (b : Store) → store_message p msg b ≡ (returned tt, stored p msg b)
unfolding store_message post set_acc
store_message-stored p msg b = refl

-- What `CreateMessage` does with deduplication on, by the result of the search.
create_message-deduplicated :
    (user_id p : String) (msg : Message) (b : Store) (found : Option String)
    → b.enable_dedup ≡ true
    → find_key (λ acc. acc.user_id == user_id) b.accounts ≡ some p
    → find_duplicate msg b.messages ≡ some found
    → create_message user_id msg b ≡ store_unless p msg found b
unfolding create_message with_acc_ret
create_message-deduplicated user_id p msg b found on k q =
    rw (create_message, with_acc_ret, k, on, q) refl

store_unless-none :
    (p : String) (msg : Message) (b : Store)
    → store_unless p msg none b ≡ (returned msg.message_id, stored p msg b)
unfolding store_unless
store_unless-none p msg b = rw (store_message-stored p msg b) refl

store_unless-some :
    (p : String) (msg : Message) (id : String) (b : Store)
    → store_unless p msg (some id) b ≡ (returned id, b)
unfolding store_unless
store_unless-some p msg id b = refl

user_stored :
    (user_id p : String) (msg : Message) (b : Store)
    → find_key (λ acc. acc.user_id == user_id) (stored p msg b).accounts
      ≡ find_key (λ acc. acc.user_id == user_id) b.accounts
user_stored user_id p msg b =
    find_key-adjust user_id p (push_message_id msg.message_id) _ (λ acc. refl)
    ∙ find_key-adjust user_id p (push_id (length b.updates)) b.accounts (λ acc. refl)

-- With deduplication on, where every stored message of the address has a sender and differs from a
-- message with a sender, creating that message under a fresh id stores it and returns its id.
-- Creating it a second time, under whichever id, stores nothing and returns that id again, in
-- whatever order the range then goes through the messages.
pub create_message_twice :
    (user_id p id : String) (msg : Message) (from : MailAddress) (b : Store)
    (m : Assoc String Message)
    → msg.sender ≡ some from
    → b.enable_dedup ≡ true
    → find_key (λ acc. acc.user_id == user_id) b.accounts ≡ some p
    → lookup msg.message_id b.messages ≡ none
    → All (IsOther msg) b.messages
    → IsReordered (create_message user_id msg b).1.messages m
    → ((create_message user_id msg b).0 ≡ returned msg.message_id)
      × (lookup msg.message_id (create_message user_id msg b).1.messages ≡ some msg)
      × (create_message user_id
            (with_id id msg)
            (record (create_message user_id msg b).1 { messages = m })
          ≡ (returned msg.message_id, record (create_message user_id msg b).1 { messages = m }))
create_message_twice user_id p id msg from b m sender on user fresh others same =
    let first : create_message user_id msg b ≡ (returned msg.message_id, stored p msg b) =
      create_message-deduplicated user_id p msg b none on user
        (find_duplicate-none msg b.messages others)
      ∙ store_unless-none p msg b in
    let again = record (stored p msg b) { messages = m } in
    let order : IsReordered (insert msg.message_id msg b.messages) m =
      subst (λ (r : Outcome String × Store). IsReordered r.1.messages m) first same in
    let second : create_message user_id (with_id id msg) again ≡ (returned msg.message_id, again) =
      create_message-deduplicated user_id p (with_id id msg) again (some msg.message_id) on
        (user_stored user_id p msg b ∙ user)
        (find_duplicate-reordered msg from id b.messages m sender others fresh order)
      ∙ store_unless-some p (with_id id msg) msg.message_id again in
    (
      ap (λ r. r.0) first,
      ap (λ r. lookup msg.message_id r.1.messages) first
          ∙ lookup-insert msg.message_id msg.message_id msg b.messages
          ∙ rw (beq_refl msg.message_id),
      subst
          (λ (r : Outcome String × Store).
            create_message user_id (with_id id msg) (record r.1 { messages = m })
            ≡ (returned msg.message_id, record r.1 { messages = m }))
          (sym first) second,
    )
