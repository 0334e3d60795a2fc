-- ===== src/Backend/Mailbox/Effects.antt =====
-- What the message methods do to the map of messages.
use go_proton_api.Base.{
  String, string_eq, Bool, true, false, not, ◌||◌, Option, none, some, List, [], ◌∷◌, ◌==◌,
  contains, ◌≡◌, refl, sym, ap, ◌∙◌, arith, Option-cases, inl, inr, if◌then◌else◌,
}
use go_proton_api.Base.Assoc.{adjust, lookup, lookup-adjust, option_map}
use go_proton_api.Backend.Types.{Message}
use go_proton_api.Backend.Updates.{Update, message_updated}
use go_proton_api.Backend.Exec.{Outcome, returned, panicked, for_each, ◌>>◌}
use go_proton_api.Backend.Store.{Store, M, post, with_acc}
use go_proton_api.Backend.Mailbox.{edit_message, set_messages_read}

post-messages : (p : String) (e : Update) (b : Store) → (post p e b).1.messages ≡ b.messages
unfolding post
post-messages p e b = refl

post-returned : (p : String) (e : Update) (b : Store) → (post p e b).0 ≡ returned tt
unfolding post
post-returned p e b = refl

edit_then_post : String → (Message → Message) → String → M Unit
edit_then_post p f id = edit_message id f >> post p (message_updated id)

edit_then_post_missing :
    (p id : String) (f : Message → Message) (b : Store)
    → lookup id b.messages ≡ none
    → (edit_then_post p f id b).0 ≡ panicked
unfolding edit_then_post edit_message
edit_then_post_missing p id f b e = rw e refl

edit_then_post_there :
    (p id : String) (f : Message → Message) (b : Store) (msg : Message)
    → lookup id b.messages ≡ some msg
    → ((edit_then_post p f id b).0 ≡ returned tt)
      × ((edit_then_post p f id b).1.messages ≡ adjust id f b.messages)
unfolding edit_then_post edit_message
edit_then_post_there p id f b msg e = rw e (post-returned p _ _, post-messages p _ _)

-- What the loop leaves under an id.
edited : (Message → Message) → Bool → Option Message → Option Message
edited f true o = option_map f o
edited f false o = o

edited_twice :
    (f : Message → Message) (s t : Bool) (o : Option Message)
    → ((msg : Message) → f (f msg) ≡ f msg)
    → edited f t (if s then option_map f o else o) ≡ edited f (s || t) o
unfolding edited
edited_twice f false t o idem = refl
edited_twice f true false o idem = refl
edited_twice f true true none idem = refl
edited_twice f true true (some msg) idem = ap some (idem msg)

for_each-cons :
    {X : Type 0} (x : X) (xs : List X) (body : X → M Unit) (b : Store)
    → (body x b).0 ≡ returned tt
    → for_each (x ∷ xs) body b ≡ for_each xs body (body x b).1
unfolding for_each
for_each-cons x xs body b e = rw e refl

for_each-panicked :
    {X : Type 0} (x : X) (xs : List X) (body : X → M Unit) (b : Store)
    → (body x b).0 ≡ panicked
    → (for_each (x ∷ xs) body b).0 ≡ panicked
unfolding for_each
for_each-panicked x xs body b e = rw e refl

edit_each :
    (p : String) (f : Message → Message) (ids : List String) (b : Store)
    → ((msg : Message) → f (f msg) ≡ f msg)
    → (for_each ids (edit_then_post p f) b).0 ≡ returned tt
    → (id : String)
    → lookup id (for_each ids (edit_then_post p f) b).1.messages
      ≡ edited f (contains ids id) (lookup id b.messages)
unfolding contains
edit_each p f [] b idem h id = unfold for_each edited in refl
edit_each p f (x ∷ xs) b idem h id = elim (Option-cases (lookup x b.messages)) [
  | inl e ↦
      let stop = edit_then_post_missing p x f b e in
      let out = for_each-panicked x xs (edit_then_post p f) b stop in absurd (ground arith)
  | inr (msg, e) ↦
      let (go, wrote) = edit_then_post_there p x f b msg e in
      let step = for_each-cons x xs (edit_then_post p f) b go in
      let rest =
        edit_each p f xs (edit_then_post p f x b).1 idem
          (ap (λ (r : Outcome Unit × Store). r.0) (sym step) ∙ h) id in
      ap (λ (r : Outcome Unit × Store). lookup id r.1.messages) step
      ∙ rest
      ∙ ap (edited f (contains xs id))
          (ap (λ m. lookup id m) wrote ∙ lookup-adjust x id f b.messages)
      ∙ edited_twice f (x == id) (contains xs id) (lookup id b.messages) idem
]

abbrev pub mark : Bool → Message → Message
mark read msg = record msg { unread = not read }

marked_each :
    (user_id : String) (read : Bool) (ids : List String) (b : Store)
    → (set_messages_read user_id read ids b).0 ≡ returned tt
    → set_messages_read user_id read ids b ≡ for_each ids (edit_then_post user_id (mark read)) b
unfolding set_messages_read with_acc edit_then_post
marked_each user_id read ids b h = elim (Option-cases (lookup user_id b.accounts)) [
  | inl e ↦ absurd (ground arith)
  | inr (acc, e) ↦ rw (with_acc, e) refl
]

edited-if :
    (f : Message → Message) (t : Bool) (o : Option Message)
    → edited f t o ≡ (if t then option_map f o else o)
unfolding edited
edited-if f true o = refl
edited-if f false o = refl

-- A call of `SetMessagesRead` that goes through sets the flag of exactly the messages that it names,
-- and leaves the rest of them and all other messages as they were.
pub set_messages_read-messages :
    (user_id : String) (read : Bool) (ids : List String) (b : Store)
    → (set_messages_read user_id read ids b).0 ≡ returned tt
    → (id : String)
    → lookup id (set_messages_read user_id read ids b).1.messages ≡ (
        if contains ids id
        then option_map (mark read) (lookup id b.messages)
        else lookup id b.messages)
set_messages_read-messages user_id read ids b h id =
    let loop = marked_each user_id read ids b h in
    ap (λ (r : Outcome Unit × Store). lookup id r.1.messages) loop
    ∙ edit_each user_id (mark read) ids b (λ msg. refl)
        (ap (λ (r : Outcome Unit × Store). r.0) (sym loop) ∙ h) id
    ∙ edited-if (mark read) (contains ids id) (lookup id b.messages)
