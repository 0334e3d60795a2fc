-- ===== src/Backend/Store/Ordered.antt =====
-- The event streams: update ids are dense, and every account lists its own in increasing order.
use go_proton_api.Base.{
  ◌+◌, some, Bool-cases, ◌==◌, inl, inr, ℕ, suc, ◌≤◌, ◌<◌, String, none, List, [], ◌∷◌, ◌++◌, ◌≡◌,
  refl, arith, length, length-append, nat_eq, string_eq, subst, sym,
}
use go_proton_api.Base.Assoc.{
  Assoc, AllValues, AllValues-mono, AllValues-adjust, AllValues-adjust_to, lookup, insert,
  insert_new,
}
use go_proton_api.Backend.Types.{Account}
use go_proton_api.Backend.Updates.{Update}
use go_proton_api.Backend.Store.{Store, set_acc, post}
use go_proton_api.Backend.Store.Keeps.{Keeps, Keeps-modify}

-- The list increases strictly from `lo`, and stays below `hi`.
abbrev pub Ascends : ℕ → ℕ → List ℕ → Type 0
Ascends lo hi [] = lo ≤ hi
Ascends lo hi (x ∷ xs) = (lo ≤ x) × Ascends (suc x) hi xs

Ascends-mono : {hi hi' : ℕ} (lo : ℕ) (xs : List ℕ) → hi ≤ hi' → Ascends lo hi xs → Ascends lo hi' xs
Ascends-mono lo [] h a = omega arith
Ascends-mono lo (x ∷ xs) h a = (a.0, Ascends-mono (suc x) xs h a.1)

Ascends-push : (lo hi : ℕ) (xs : List ℕ) → Ascends lo hi xs → Ascends lo (suc hi) (xs ++ hi ∷ [])
Ascends-push lo hi [] a = (a, omega arith)
Ascends-push lo hi (x ∷ xs) a = (a.0, Ascends-push (suc x) hi xs a.1)

module _ {V : Type 0} where
  -- The keys are the numbers from `lo` on, in order.
  abbrev pub Numbered : ℕ → Assoc ℕ V → Type 0
  Numbered lo [] = Unit
  Numbered lo ((k, v) ∷ m) = (k ≡ lo) × Numbered (suc lo) m

  fresh_key : (lo n : ℕ) (m : Assoc ℕ V) → Numbered lo m → lo + length m ≤ n → lookup n m ≡ none
  unfolding lookup
  fresh_key lo n [] h far = refl
  fresh_key lo n ((k, v) ∷ m) h far =
      let rest = fresh_key (suc lo) n m h.1 (omega arith) in ground arith

  Numbered-push :
      (lo n : ℕ) (v : V) (m : Assoc ℕ V)
      → Numbered lo m
      → n ≡ lo + length m
      → Numbered lo (m ++ (n, v) ∷ [])
  Numbered-push lo n v [] h e = (omega arith, tt)
  Numbered-push lo n v ((k, w) ∷ m) h e = (h.0, Numbered-push (suc lo) n v m h.1 (omega arith))

  -- Every number below the next one is a key.
  pub Numbered-lookup :
      (lo n : ℕ) (m : Assoc ℕ V)
      → Numbered lo m
      → lo ≤ n
      → n < lo + length m
      → (v : V) × (lookup n m ≡ some v)
  unfolding lookup
  Numbered-lookup lo n [] h from below = absurd (omega arith)
  Numbered-lookup lo n ((k, v) ∷ m) h from below = elim (Bool-cases (k == n)) [
    | inl e ↦ (v, rw e refl)
    | inr e ↦
        let (w, found) = Numbered-lookup (suc lo) n m h.1 (ground arith) (omega arith) in
        (w, rw e found)
  ]

  -- The next id is the number of updates: it is new, so the write goes to the end.
  insert_next :
      (v : V) (m : Assoc ℕ V) → Numbered 0 m → insert (length m) v m ≡ m ++ (length m, v) ∷ []
  insert_next v m h = insert_new (length m) v m (fresh_key 0 (length m) m h (omega arith))

-- The updates are numbered from 0, and the stream of each account ascends.
pub record IsOrdered (b : Store) : Type 0 where
  pub dense : Numbered 0 b.updates
  pub streams : AllValues (λ acc. Ascends 0 (length b.updates) acc.update_ids) b.accounts

pub pushed_updates :
    (b : Store) (e : Update)
    → IsOrdered b
    → insert (length b.updates) e b.updates ≡ b.updates ++ (length b.updates, e) ∷ []
pushed_updates b e h = insert_next e b.updates h.dense

length-pushed :
    (b : Store) (e : Update)
    → IsOrdered b
    → length (insert (length b.updates) e b.updates) ≡ suc (length b.updates)
length-pushed b e h = rw (pushed_updates b e h, length-append) (omega arith)

-- A write to an account that leaves its stream alone.
pub set_acc-IsOrdered :
    (p : String) (f : Account → Account)
    → ((acc : Account) → (f acc).update_ids ≡ acc.update_ids)
    → Keeps IsOrdered (set_acc p f)
unfolding set_acc
set_acc-IsOrdered p f same = Keeps-modify _ λ b h. record {
  dense = h.dense;
  streams =
      AllValues-adjust _ p f b.accounts
        (λ acc a. subst (Ascends 0 (length b.updates)) (sym (same acc)) a) h.streams;
}

-- The state after a new update, with any accounts whose streams ascend below the new count.
pub updated-IsOrdered :
    (b : Store) (e : Update) (accs : Assoc String Account)
    → IsOrdered b
    → AllValues (λ acc. Ascends 0 (suc (length b.updates)) acc.update_ids) accs
    → IsOrdered (record b { accounts = accs; updates = insert (length b.updates) e b.updates })
updated-IsOrdered b e accs h s = record {
  dense =
      subst (Numbered 0) (sym (pushed_updates b e h))
        (Numbered-push 0 (length b.updates) e b.updates h.dense (omega arith));
  streams =
      subst (λ n. AllValues (λ acc. Ascends 0 n acc.update_ids) accs) (sym (length-pushed b e h)) s;
}

-- The streams still ascend below the new count.
pub streams_mono :
    (b : Store)
    → IsOrdered b
    → AllValues (λ acc. Ascends 0 (suc (length b.updates)) acc.update_ids) b.accounts
streams_mono b h =
    AllValues-mono b.accounts
      (λ acc a. Ascends-mono {hi = length b.updates} 0 acc.update_ids (omega arith) a) h.streams

pub post-IsOrdered : (p : String) (e : Update) → Keeps IsOrdered (post p e)
unfolding post
post-IsOrdered p e = record {
  at = λ b h. updated-IsOrdered b e _ h (
      AllValues-adjust_to (λ acc. Ascends 0 (length b.updates) acc.update_ids) _ p _ b.accounts
        (λ acc a. Ascends-mono {hi = length b.updates} 0 acc.update_ids (omega arith) a)
        (λ acc a. Ascends-push 0 (length b.updates) acc.update_ids a) h.streams);
}
