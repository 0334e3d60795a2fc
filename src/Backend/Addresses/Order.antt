-- ===== src/Backend/Addresses/Order.antt =====
-- What `SetAddressOrder` leaves as the orders of the addresses.
use go_proton_api.Base.{
  ℕ, suc, ◌+◌, String, string_eq, nat_eq, Bool, true, false, Option, none, some, List, [], ◌∷◌,
  ◌==◌, if◌then◌else◌, contains, length, ◌≡◌, refl, sym, ap, subst, ◌∙◌, arith, str_iff, beq_refl,
  Bool-cases, Option-cases, inl, inr,
}
use go_proton_api.Base.Assoc.{Assoc, adjust, lookup, lookup-adjust, option_map}
use go_proton_api.Backend.Types.{Account, Address}
use go_proton_api.Backend.Updates.{Update, address_updated, user_info_update}
use go_proton_api.Backend.Exec.{returned, or_panic, skip, ◌>>=◌}
use go_proton_api.Backend.Exec.Returns.{after_loop, first_returned}
use go_proton_api.Backend.Store.{Store, M, get_acc, post, push_id, set_acc, with_acc}
use go_proton_api.Backend.Metadata.{primary}
use go_proton_api.Backend.Mailbox.Pages.{Distinct}
use go_proton_api.Backend.Addresses.{adjust_address, set_address_order, set_order, set_orders}

abbrev order_in : String → Account → Option ℕ
order_in id acc = option_map (λ (a : Address). a.order) (lookup id acc.addresses)

abbrev pub seen_in : String → Option Account → Option ℕ
seen_in id none = none
seen_in id (some acc) = order_in id acc

-- The order of the address `id` of the account `p`, where both are there.
abbrev pub order_at : String → String → Store → Option ℕ
order_at p id s = seen_in id (lookup p s.accounts)

-- The ids have the orders i + 1, i + 2 and so on.
abbrev pub AreOrdered : String → ℕ → List String → Store → Type 0
AreOrdered p i [] s = Unit
AreOrdered p i (id ∷ ids) s = (order_at p id s ≡ some (i + 1)) × AreOrdered p (suc i) ids s

abbrev ordered : String → ℕ → Account → Account
ordered id n = adjust_address id (λ a. record a { order = n })

order_in-ordered :
    (id other : String) (n : ℕ) (acc : Account) (addr : Address)
    → lookup id acc.addresses ≡ some addr
    → order_in other (ordered id n acc) ≡ (if id == other then some n else order_in other acc)
order_in-ordered id other n acc addr e =
    let found = lookup-adjust id other (λ (a : Address). record a { order = n }) acc.addresses in
    elim (Bool-cases (id == other)) [
      | inl t ↦
          let here : id ≡ other = ground (arith, str_iff id other) in
          let at : lookup other acc.addresses ≡ some addr =
            subst (λ k. lookup k acc.addresses ≡ some addr) here e in
          rw (found, t, at) refl
      | inr t ↦ rw (found, t) refl
    ]

adjusted :
    (p : String) (f : Account → Account) (m : Assoc String Account) (acc : Account)
    → lookup p m ≡ some acc
    → lookup p (adjust p f m) ≡ some (f acc)
adjusted p f m acc e = lookup-adjust p p f m ∙ rw (beq_refl p) (ap (option_map f) e)

seen_in-push_id :
    (id : String) (n : ℕ) (c : Bool) (x : Option Account)
    → seen_in id (if c then option_map (push_id n) x else x) ≡ seen_in id x
seen_in-push_id id n true none = refl
seen_in-push_id id n true (some acc) = refl
seen_in-push_id id n false x = refl

order_at-post :
    (p q id : String) (event : Update) (s : Store)
    → order_at p id (post q event s).1 ≡ order_at p id s
unfolding post set_acc
order_at-post p q id event s =
    ap (seen_in id) (lookup-adjust q p (push_id (length s.updates)) s.accounts)
    ∙ seen_in-push_id id (length s.updates) (q == p) (lookup p s.accounts)

-- A state with the order written, after a state in which the account is there.
written :
    (p id other : String) (n : ℕ) (s : Store) (acc : Account) (addr : Address)
    → lookup p s.accounts ≡ some acc
    → lookup id acc.addresses ≡ some addr
    → order_at p other (record s { accounts = adjust p (ordered id n) s.accounts })
      ≡ (if id == other then some n else order_at p other s)
written p id other n s acc addr q r =
    ap (seen_in other) (adjusted p (ordered id n) s.accounts acc q)
    ∙ order_in-ordered id other n acc addr r
    ∙ ap (λ k. if id == other then some n else k) (sym (ap (seen_in other) q))

set_order-kept :
    (p id : String) (i : ℕ) (s : Store) (acc : Account) (addr : Address)
    → lookup p s.accounts ≡ some acc
    → lookup id acc.addresses ≡ some addr
    → (addr.order == i + 1) ≡ true
    → (set_order p i id s).1 ≡ record s { accounts = adjust p (ordered id (i + 1)) s.accounts }
unfolding set_order get_acc set_acc
set_order-kept p id i s acc addr q r t = rw (set_order, get_acc, q, r, t) refl

set_order-posted :
    (p id : String) (i : ℕ) (s : Store) (acc : Account) (addr : Address)
    → lookup p s.accounts ≡ some acc
    → lookup id acc.addresses ≡ some addr
    → (addr.order == i + 1) ≡ false
    → (set_order p i id s).1 ≡ (
        let s' = (post p (address_updated id) s).1 in
        record s' { accounts = adjust p (ordered id (i + 1)) s'.accounts })
unfolding set_order get_acc set_acc post
set_order-posted p id i s acc addr q r t = rw (set_order, get_acc, q, r, t) refl

-- `set_order` on an address that is there.
set_order-order_at :
    (p id other : String) (i : ℕ) (s : Store)
    → (set_order p i id s).0 ≡ returned tt
    → order_at p other (set_order p i id s).1
      ≡ (if id == other then some (i + 1) else order_at p other s)
unfolding set_order get_acc set_acc post
set_order-order_at p id other i s h = elim (Option-cases (lookup p s.accounts)) [
  | inl q ↦ absurd (ground arith)
  | inr (acc, q) ↦ elim (Option-cases (lookup id acc.addresses)) [
    | inl r ↦ absurd (ground arith)
    | inr (addr, r) ↦ elim (Bool-cases (addr.order == i + 1)) [
      | inl t ↦
          ap (order_at p other) (set_order-kept p id i s acc addr q r t)
          ∙ written p id other (i + 1) s acc addr q r
      | inr t ↦
          let event = address_updated id in
          let n = length s.updates in
          ap (order_at p other) (set_order-posted p id i s acc addr q r t)
          ∙ written p id other (i + 1) (post p event s).1 (push_id n acc) addr
              (adjusted p (push_id n) s.accounts acc q) r
          ∙ ap (λ k. if id == other then some (i + 1) else k) (order_at-post p p other event s)
    ]
  ]
]

-- What the loop does: the ids of the list get their orders, and no other address is touched.
pub record IsOrdering (p : String) (i : ℕ) (ids : List String) (s after : Store) : Type 0 where
  pub listed : AreOrdered p i ids after
  pub kept :
      (other : String) → contains ids other ≡ false → order_at p other after ≡ order_at p other s

set_orders-IsOrdering :
    (p : String) (i : ℕ) (ids : List String) (s : Store)
    → Distinct ids
    → (set_orders p i ids s).0 ≡ returned tt
    → IsOrdering p i ids s (set_orders p i ids s).1
unfolding set_orders contains
set_orders-IsOrdering p i [] s d h = record { listed = tt; kept = λ other c. refl }
set_orders-IsOrdering p i (id ∷ ids) s d h =
    let first = set_order p i id in
    let rest = set_orders p (suc i) ids in
    let ran = after_loop first rest s h in
    let went = first_returned first rest s h in
    let later = set_orders-IsOrdering p (suc i) ids (first s).1 d.1 (sym (ap (λ r. r.0) ran) ∙ h) in
    let one = set_order-order_at p id id i s went in
    subst (λ (r : Store). IsOrdering p i (id ∷ ids) s r) (sym (ap (λ r. r.1) ran))
      (record {
        listed = (later.kept id d.0 ∙ one ∙ rw (beq_refl id) refl, later.listed);
        kept = λ other c.
            later.kept other (ground arith)
            ∙ set_order-order_at p id other i s went
            ∙ (let not_it : (id == other) ≡ false = ground arith in rw not_it refl);
      })

-- The statements after the loop, which report a change of the primary address.
report : String → Address → M Unit
unfolding ◌>>=◌
report p old = do
  after ← get_acc p
  new ← or_panic (primary after.addresses)
  if old.addr_id == new.addr_id then skip else post p user_info_update

report-order_at :
    (p q id : String) (old : Address) (s : Store)
    → order_at p id (report q old s).1 ≡ order_at p id s
unfolding report get_acc
report-order_at p q id old s = elim (Option-cases (lookup q s.accounts)) [
  | inl e ↦ rw (report, get_acc, e) refl
  | inr (acc, e) ↦ elim (Option-cases (primary acc.addresses)) [
    | inl f ↦ rw (report, get_acc, e, f) refl
    | inr (new, f) ↦ elim (Bool-cases (old.addr_id == new.addr_id)) [
      | inl t ↦ rw (report, get_acc, e, f, t) refl
      | inr t ↦ rw (report, get_acc, e, f, t) (order_at-post p q id user_info_update s)
    ]
  ]
]

set_address_order-report :
    (user_id : String) (ids : List String) (b : Store) (acc : Account) (old : Address)
    → lookup user_id b.accounts ≡ some acc
    → primary acc.addresses ≡ some old
    → set_address_order user_id ids b ≡ (set_orders user_id 0 ids >>= λ _. report user_id old) b
unfolding set_address_order with_acc get_acc report
set_address_order-report user_id ids b acc old e q = ground arith

AreOrdered-same :
    (p : String) (i : ℕ) (ids : List String) (s s' : Store)
    → ((id : String) → order_at p id s' ≡ order_at p id s)
    → AreOrdered p i ids s
    → AreOrdered p i ids s'
AreOrdered-same p i [] s s' same h = tt
AreOrdered-same p i (id ∷ ids) s s' same h =
    (same id ∙ h.0, AreOrdered-same p (suc i) ids s s' same h.1)

-- `SetAddressOrder` with ids that do not repeat, when it returns no error, gives the addresses the
-- orders 1, 2 and so on in the order of the list, and leaves the order of every other address.
pub set_address_order-IsOrdering :
    (user_id : String) (ids : List String) (b : Store)
    → Distinct ids
    → (set_address_order user_id ids b).0 ≡ returned tt
    → IsOrdering user_id 0 ids b (set_address_order user_id ids b).1
unfolding set_address_order with_acc get_acc
set_address_order-IsOrdering user_id ids b d h = elim (Option-cases (lookup user_id b.accounts)) [
  | inl e ↦ absurd (ground arith)
  | inr (acc, e) ↦ elim (Option-cases (primary acc.addresses)) [
    | inl q ↦ absurd (ground arith)
    | inr (old, q) ↦
        let loop = set_orders user_id 0 ids in
        let rest = report user_id old in
        let split = set_address_order-report user_id ids b acc old e q in
        let good = sym (ap (λ r. r.0) split) ∙ h in
        let done = set_orders-IsOrdering user_id 0 ids b d (first_returned loop rest b good) in
        let same = λ (id : String). report-order_at user_id user_id id old (loop b).1 in
        subst (λ (s : Store). IsOrdering user_id 0 ids b s)
          (sym (ap (λ r. r.1) (split ∙ after_loop loop rest b good)))
          (record {
            listed = AreOrdered-same user_id 0 ids (loop b).1 (rest (loop b).1).1 same done.listed;
            kept = λ other c. same other ∙ done.kept other c;
          })
  ]
]
