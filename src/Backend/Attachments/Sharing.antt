-- ===== src/Backend/Attachments/Sharing.antt =====
-- The bytes of attachments are shared: they are kept exactly as long as an attachment points to them.
use go_proton_api.Base.{
  ℕ, ◌+◌, String, string_eq, nat_eq, Bool, true, false, none, some, List, [], ◌∷◌, ◌==◌, length,
  ◌≡◌, ◌↔◌, refl, sym, ap, subst, ◌∙◌, arith, str_iff, Bool-cases, Option-cases, inl, inr,
  if◌then◌else◌,
}
use go_proton_api.Base.Assoc.{Assoc, delete, lookup, lookup-delete}
use go_proton_api.Backend.Types.{Account, Attachment, Label, Message}
use go_proton_api.Backend.Users.{remove_message, remove_user}
use go_proton_api.Backend.Updates.{Update}
use go_proton_api.Backend.Exec.{modify}
use go_proton_api.Backend.Store.{Store, new_update, post, set_acc}
use go_proton_api.Backend.Store.Keeps.{Keeps, Keeps-modify, keeps_rules}
use go_proton_api.Backend.Mailbox.{
  count_sharing, delete_attachment, delete_message, without_attachment,
}

-- No key stands twice in the map.
abbrev pub DistinctKeys : Assoc String Attachment → Type 0
DistinctKeys [] = Unit
DistinctKeys ((k, att) ∷ m) = (lookup k m ≡ none) × DistinctKeys m

-- Bytes are there exactly if some attachment points to them.
pub record IsCounted (b : Store) : Type 0 where
  pub keys : DistinctKeys b.attachments
  pub counted : (d : String) → (lookup d b.att_data ≡ none) ↔ (count_sharing d b.attachments ≡ 0)

abbrev pub one_if : Bool → ℕ
one_if true = 1
one_if false = 0

DistinctKeys-delete :
    (id : String) (m : Assoc String Attachment) → DistinctKeys m → DistinctKeys (delete id m)
unfolding delete
DistinctKeys-delete id [] h = tt
DistinctKeys-delete id ((k, att) ∷ m) h = elim (Bool-cases (k == id)) [
  | inl e ↦ rw e (DistinctKeys-delete id m h.1)
  | inr e ↦ rw e (apart, DistinctKeys-delete id m h.1)
]
  where
    apart : lookup k (delete id m) ≡ none
    apart = lookup-delete id k m ∙ ground (arith, h.0)

count_delete_missing :
    (d id : String) (m : Assoc String Attachment)
    → lookup id m ≡ none
    → count_sharing d (delete id m) ≡ count_sharing d m
unfolding count_sharing delete lookup
count_delete_missing d id [] h = refl
count_delete_missing d id ((k, att) ∷ m) h = elim (Bool-cases (k == id)) [
  | inl e ↦ absurd (ground arith)
  | inr e ↦ let rest = count_delete_missing d id m (ground arith) in ground arith
]

-- Deleting an attachment takes one pointer away.
count_delete :
    (d id : String) (m : Assoc String Attachment) (att : Attachment)
    → DistinctKeys m
    → lookup id m ≡ some att
    → count_sharing d m ≡ one_if (att.att_data_id == d) + count_sharing d (delete id m)
unfolding count_sharing delete lookup
count_delete d id [] att h q = absurd (cc)
count_delete d id ((k, a) ∷ m) att h q = elim (Bool-cases (k == id)) [
  | inl e ↦
      let gone : lookup id m ≡ none = ap (λ t. lookup t m) (sym ((str_iff k id).0 e)) ∙ h.0 in
      let rest = count_delete_missing d id m gone in
      let same : a ≡ att = ground arith in rw (← same) (ground arith)
  | inr e ↦ let rest = count_delete d id m att h.1 (ground arith) in ground arith
]

-- One pointer to `x` less: the bytes `x` go if it was the last, and no others.
data_counted :
    (x d : String) (m m' : Assoc String Attachment) (bytes : Assoc String (List ℕ))
    → (lookup d bytes ≡ none) ↔ (count_sharing d m ≡ 0)
    → count_sharing d m ≡ one_if (x == d) + count_sharing d m'
    → (lookup d (if count_sharing x m == 1 then delete x bytes else bytes) ≡ none)
      ↔ (count_sharing d m' ≡ 0)
data_counted x d m m' bytes (to, from) one =
    let gone = lookup-delete x d bytes in
    elim (Bool-cases (x == d)) [
      | inl e ↦
          let same : count_sharing x m ≡ count_sharing d m =
            ap (λ t. count_sharing t m) ((str_iff x d).0 e) in
          elim (Bool-cases (count_sharing x m == 1)) [
            | inl last ↦ rw last ((λ n. ground arith), (λ n. ground arith))
            | inr more ↦ rw more ((λ n. let z = to n in ground arith), (λ n. ground arith))
          ]
      | inr e ↦ elim (Bool-cases (count_sharing x m == 1)) [
        | inl last ↦ rw last (
          (λ n. let z = to (ground arith) in ground arith),
          (λ n. let z = from (ground arith) in ground arith),
        )
        | inr more ↦ rw more ((λ n. let z = to n in ground arith), (λ n. from (ground arith)))
      ]
    ]

without_attachment-IsCounted :
    (id : String) (att : Attachment) (b : Store)
    → IsCounted b
    → lookup id b.attachments ≡ some att
    → IsCounted (without_attachment id att b)
without_attachment-IsCounted id att b h q = record {
  keys = DistinctKeys-delete id b.attachments h.keys;
  counted = λ d.
      data_counted att.att_data_id d b.attachments (delete id b.attachments) b.att_data
        (h.counted d) (count_delete d id b.attachments att h.keys q);
}

-- Writes to the other maps.
frame-IsCounted :
    (f : Store → Store)
    → ((b : Store) → (f b).attachments ≡ b.attachments)
    → ((b : Store) → (f b).att_data ≡ b.att_data)
    → Keeps IsCounted (modify f)
frame-IsCounted f atts bytes = Keeps-modify f λ b h. record {
  keys = subst DistinctKeys (sym (atts b)) h.keys;
  counted = λ d.
      subst (λ m. (lookup d m ≡ none) ↔ (count_sharing d (f b).attachments ≡ 0)) (sym (bytes b))
        (subst (λ m. (lookup d b.att_data ≡ none) ↔ (count_sharing d m ≡ 0)) (sym (atts b))
          (h.counted d));
}

pub messages-IsCounted :
    (f : Store → Assoc String Message) → Keeps IsCounted (modify λ b. record b { messages = f b })
messages-IsCounted f = frame-IsCounted _ (λ b. refl) (λ b. refl)

labels-IsCounted :
    (f : Store → Assoc String Label) → Keeps IsCounted (modify λ b. record b { labels = f b })
labels-IsCounted f = frame-IsCounted _ (λ b. refl) (λ b. refl)

accounts-IsCounted :
    (f : Store → Assoc String Account) → Keeps IsCounted (modify λ b. record b { accounts = f b })
accounts-IsCounted f = frame-IsCounted _ (λ b. refl) (λ b. refl)

set_acc-IsCounted : (p : String) (f : Account → Account) → Keeps IsCounted (set_acc p f)
unfolding set_acc
set_acc-IsCounted p f = frame-IsCounted _ (λ b. refl) (λ b. refl)

new_update-IsCounted : (e : Update) → Keeps IsCounted (new_update e)
unfolding new_update
new_update-IsCounted e = record { at = λ b h. record { keys = h.keys; counted = h.counted } }

pub post-IsCounted : (p : String) (e : Update) → Keeps IsCounted (post p e)
unfolding post
post-IsCounted p e = search (keeps_rules, new_update-IsCounted, set_acc-IsCounted) depth 8

delete_attachment-IsCounted : (id : String) → Keeps IsCounted (delete_attachment id)
unfolding delete_attachment
delete_attachment-IsCounted id = record {
  at = λ b h. elim (Option-cases (lookup id b.attachments)) [
    | inl e ↦ elim (Bool-cases (length b.attachments == 0)) [
      | inl n ↦ rw (e, n) h
      | inr n ↦ rw (e, n) h
    ]
    | inr (att, e) ↦ rw e (without_attachment-IsCounted id att b h e)
  ];
}

ruleset counted_rules = (
  keeps_rules, messages-IsCounted, labels-IsCounted, accounts-IsCounted, set_acc-IsCounted,
  post-IsCounted, delete_attachment-IsCounted,
)

-- Deleting a message, whatever its attachments share with those of other messages, keeps the bytes of
-- every attachment that is left and no others.
pub delete_message-IsCounted : (user_id id : String) → Keeps IsCounted (delete_message user_id id)
unfolding delete_message
delete_message-IsCounted user_id id = search counted_rules depth 16

remove_message-IsCounted : (id : String) → Keeps IsCounted (remove_message id)
unfolding remove_message
remove_message-IsCounted id = search counted_rules depth 16

-- Removing a user does so too.
pub remove_user-IsCounted : (user_id : String) → Keeps IsCounted (remove_user user_id)
unfolding remove_user
remove_user-IsCounted user_id = search (counted_rules, remove_message-IsCounted) depth 16
