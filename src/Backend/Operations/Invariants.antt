-- ===== src/Backend/Operations/Invariants.antt =====
-- The properties of the event streams that the operations keep: the streams are in order, and a
-- stream still begins with the ids that it had.
use go_proton_api.Base.{
  ℕ, true, String, string_eq, nat_eq, Option, none, some, List, [], ◌∷◌, ◌++◌, ◌==◌, length, ◌≡◌,
  refl, sym, ap, ◌∙◌, subst, arith, Bool-cases, inl, inr,
}
use mathlib.Core.List.{append_assoc, append-nil}
use go_proton_api.Base.Assoc.{Assoc, AllValues, lookup, adjust, lookup-adjust, option_map}
use go_proton_api.Backend.Types.{Account}
use go_proton_api.Backend.Updates.{Update}
use go_proton_api.Backend.Store.{Store, post, set_acc}
use go_proton_api.Backend.Store.Ordered.{
  Ascends, Numbered, IsOrdered, post-IsOrdered, set_acc-IsOrdered,
}
use go_proton_api.Backend.Operations.Streams.{IsStreamInvariant, streams_of}

AllValues-streams :
    (Q : List ℕ → Type 0) (m m' : Assoc String Account)
    → streams_of m ≡ streams_of m'
    → AllValues (λ acc. Q acc.update_ids) m'
    → AllValues (λ acc. Q acc.update_ids) m
AllValues-streams Q m m' same h = of_streams m (subst (AllValues Q) (sym same) (to_streams m' h))
  where
    to_streams :
        (m : Assoc String Account)
        → AllValues (λ acc. Q acc.update_ids) m
        → AllValues Q (streams_of m)
    to_streams [] h = tt
    to_streams ((k, acc) ∷ m) h = (h.0, to_streams m h.1)

    of_streams :
        (m : Assoc String Account)
        → AllValues Q (streams_of m)
        → AllValues (λ acc. Q acc.update_ids) m
    of_streams [] h = tt
    of_streams ((k, acc) ∷ m) h = (h.0, of_streams m h.1)

-- An account that one of the maps has stands in the other with the same stream.
lookup-streams :
    (p : String) (m : Assoc String Account)
    → lookup p (streams_of m) ≡ option_map (λ acc. acc.update_ids) (lookup p m)
unfolding lookup
lookup-streams p [] = refl
lookup-streams p ((k, acc) ∷ m) = elim (Bool-cases (k == p)) [
  | inl e ↦ rw e refl
  | inr e ↦ rw e (lookup-streams p m)
]

with_stream :
    (ids : List ℕ) (found : Option Account)
    → option_map (λ acc. acc.update_ids) found ≡ some ids
    → (acc : Account) × (found ≡ some acc) × (acc.update_ids ≡ ids)
with_stream ids none h = absurd (ground arith)
with_stream ids (some acc) h = (acc, refl, ground arith)

pub IsOrdered-invariant : IsStreamInvariant IsOrdered
IsOrdered-invariant = record {
  frame = λ b b' same_accounts same_updates h. record {
    dense = subst (Numbered 0) (sym same_updates) h.dense;
    streams =
        subst (AllValues (λ acc. Ascends 0 (length b'.updates) acc.update_ids)) (sym same_accounts)
          (subst
            (λ (m : Assoc ℕ Update).
              AllValues (λ acc. Ascends 0 (length m) acc.update_ids) b.accounts)
            (sym same_updates) h.streams);
  };
  same_streams = λ b m same h. record {
    dense = h.dense;
    streams = AllValues-streams (Ascends 0 (length b.updates)) m b.accounts same h.streams;
  };
  edits = set_acc-IsOrdered;
  posts = post-IsOrdered;
}

-- The account under the key `p` has a stream that begins with `ids`.
pub record HasStream (p : String) (ids : List ℕ) (b : Store) : Type 0 where
  pub acc : Account
  pub found : lookup p b.accounts ≡ some acc
  pub later : List ℕ
  pub stream : acc.update_ids ≡ ids ++ later

-- A write that puts ids at the end of a stream.
pub Grows : (Account → Account) → Type 0
Grows f = (acc : Account) → (more : List ℕ) × ((f acc).update_ids ≡ acc.update_ids ++ more)

-- Only a write to the account of `p` has to let its stream grow.
pub HasStream-adjust :
    (p q : String) (ids : List ℕ) (f : Account → Account) (m : Assoc ℕ Update) (b : Store)
    → ((q == p) ≡ true → Grows f)
    → HasStream p ids b
    → HasStream p ids (record b { accounts = adjust q f b.accounts; updates = m })
unfolding Grows
HasStream-adjust p q ids f m b grows h = elim (Bool-cases (q == p)) [
  | inl e ↦
      let (more, grown) = grows e h.acc in
      record {
        acc = f h.acc;
        found = lookup-adjust q p f b.accounts ∙ rw e (ap (option_map f) h.found);
        later = h.later ++ more;
        stream = grown ∙ ap (λ t. t ++ more) h.stream ∙ append_assoc ids h.later more;
      }
  | inr e ↦ record {
    acc = h.acc;
    found = lookup-adjust q p f b.accounts ∙ rw e h.found;
    later = h.later;
    stream = h.stream;
  }
]

pub stream_invariant : (p : String) (ids : List ℕ) → IsStreamInvariant (HasStream p ids)
stream_invariant p ids = record {
  frame = λ b b' same_accounts same_updates h. record {
    acc = h.acc;
    found = ap (λ t. lookup p t) same_accounts ∙ h.found;
    later = h.later;
    stream = h.stream;
  };
  same_streams = λ b m same h.
      let moved : lookup p (streams_of m) ≡ some h.acc.update_ids =
        ap (λ t. lookup p t) same
        ∙ lookup-streams p b.accounts
        ∙ ap (option_map (λ acc. acc.update_ids)) h.found in
      let (acc, found, stays) =
        with_stream h.acc.update_ids (lookup p m) (sym (lookup-streams p m) ∙ moved) in
      record { acc = acc; found = found; later = h.later; stream = stays ∙ h.stream };
  edits = λ q f same. record {
    at =
        unfold set_acc Grows in
        λ b h.
          HasStream-adjust p q ids f b.updates b
            (λ _ acc. ([], same acc ∙ sym (append-nil acc.update_ids))) h;
  };
  posts = λ q e. record {
    at =
        unfold post Grows in
        λ b h. HasStream-adjust p q ids _ _ b (λ _ acc. (length b.updates ∷ [], refl)) h;
  };
}
