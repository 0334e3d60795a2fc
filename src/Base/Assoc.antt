-- ===== src/Base/Assoc.antt =====
-- A Go map as an association list. A `range` over the map visits the entries in the list's order.
use go_proton_api.Base.Tests.{if◌then◌else◌, Bool-cases}
use go_proton_api.Base.Eq.{Eq, ◌==◌}
use mathlib.Core.Path.{◌≡◌, refl}
use mathlib.Core.Option.{Option, none, some}
use mathlib.Core.List.{List, [], ◌∷◌, ◌++◌}
use mathlib.Core.Bool.{Bool}
use mathlib.Core.Logic.{inl, inr}
use native.Mathlib.Omega.{arith}

abbrev pub Assoc {ℓ κ} : Type ℓ → Type κ → Type (ℓ ⊔ κ)
Assoc K V = List (K × V)

abbrev pub option_map {ℓ κ} : {A : Type ℓ} {B : Type κ} → (A → B) → Option A → Option B
option_map f none = none
option_map f (some a) = some (f a)

module _ {ℓ κ} {K : Type ℓ} {V : Type κ} where
  -- Every value of the map has the property.
  abbrev pub AllValues {μ} : (V → Type μ) → Assoc K V → Type μ
  AllValues P [] = Unit
  AllValues P ((k, v) ∷ m) = P v × AllValues P m

  abbrev pub AllKeys {μ} : (K → Type μ) → Assoc K V → Type μ
  AllKeys P [] = Unit
  AllKeys P ((k, v) ∷ m) = P k × AllKeys P m

  pub AllValues-mono {μ ν} :
      {P : V → Type μ} {Q : V → Type ν} (m : Assoc K V)
      → ((v : V) → P v → Q v)
      → AllValues P m
      → AllValues Q m
  AllValues-mono [] f h = tt
  AllValues-mono ((k, v) ∷ m) f h = (f v h.0, AllValues-mono m f h.1)

  -- The first key whose value passes the test: a `range` that returns from its body.
  unfoldable pub find_key : (V → Bool) → Assoc K V → Option K
  find_key p [] = none
  find_key p ((k, v) ∷ m) = if p v then some k else find_key p m

  unfoldable pub values : Assoc K V → List V
  values [] = []
  values ((k, v) ∷ m) = v ∷ values m

module _ {ℓ κ} {K : Type ℓ} {V : Type κ} ⦃e : Eq K⦄ where
  unfoldable pub lookup : K → Assoc K V → Option V
  lookup k [] = none
  lookup k (entry ∷ m) = if entry.0 == k then some entry.1 else lookup k m

  unfoldable pub insert : K → V → Assoc K V → Assoc K V
  insert k v [] = (k, v) ∷ []
  insert k v (entry ∷ m) = if entry.0 == k then (k, v) ∷ m else entry ∷ insert k v m

  unfoldable pub delete : K → Assoc K V → Assoc K V
  delete k [] = []
  delete k ((j, w) ∷ m) = let rest = delete k m in if j == k then rest else (j, w) ∷ rest

  -- A write through the pointer that the map holds under the key.
  unfoldable pub adjust : K → (V → V) → Assoc K V → Assoc K V
  adjust k f [] = []
  adjust k f ((j, w) ∷ m) = if j == k then (j, f w) ∷ m else (j, w) ∷ adjust k f m

  pub lookup-insert :
      (k sought : K) (v : V) (m : Assoc K V)
      → lookup sought (insert k v m) ≡ (if k == sought then some v else lookup sought m)
  unfolding insert lookup
  lookup-insert k sought v [] = refl
  lookup-insert k sought v ((i, w) ∷ m) =
      let rest = lookup-insert k sought v m in
      ground (arith, e.same_iff k sought, e.same_iff i k, e.same_iff i sought, rest)

  pub lookup-delete :
      (k j : K) (m : Assoc K V) → lookup j (delete k m) ≡ (if k == j then none else lookup j m)
  unfolding lookup delete
  lookup-delete k j [] = ground arith
  lookup-delete k j ((i, w) ∷ m) =
      ground (arith, e.same_iff k j, e.same_iff i k, e.same_iff i j, lookup-delete k j m)

  pub lookup-adjust :
      (k j : K) (f : V → V) (m : Assoc K V)
      → lookup j (adjust k f m) ≡ (if k == j then option_map f (lookup j m) else lookup j m)
  unfolding lookup adjust
  lookup-adjust k j f [] = ground arith
  lookup-adjust k j f ((i, w) ∷ m) =
      ground (arith, e.same_iff k j, e.same_iff i k, e.same_iff i j, lookup-adjust k j f m)

  -- A new key is written at the end.
  pub insert_new :
      (k : K) (v : V) (m : Assoc K V) → lookup k m ≡ none → insert k v m ≡ m ++ (k, v) ∷ []
  unfolding lookup insert
  insert_new k v [] h = refl
  insert_new k v ((j, w) ∷ m) h = ground (arith, insert_new k v m)

  -- The entry that is written may meet the new property in another way than the rest.
  pub AllValues-adjust_to {μ ν} :
      (P : V → Type μ) (Q : V → Type ν) (k : K) (f : V → V) (m : Assoc K V)
      → ((v : V) → P v → Q v)
      → ((v : V) → P v → Q (f v))
      → AllValues P m
      → AllValues Q (adjust k f m)
  unfolding adjust
  AllValues-adjust_to P Q k f [] stay step h = tt
  AllValues-adjust_to P Q k f ((j, w) ∷ m) stay step h = elim (Bool-cases (j == k)) [
    | inl e ↦ rw e (step w h.0, AllValues-mono m stay h.1)
    | inr e ↦ rw e (stay w h.0, AllValues-adjust_to P Q k f m stay step h.1)
  ]

  pub AllValues-adjust {μ} :
      (P : V → Type μ) (k : K) (f : V → V) (m : Assoc K V)
      → ((v : V) → P v → P (f v))
      → AllValues P m
      → AllValues P (adjust k f m)
  AllValues-adjust P k f m step h = AllValues-adjust_to P P k f m (λ v p. p) step h

  pub AllValues-insert {μ} :
      (P : V → Type μ) (k : K) (v : V) (m : Assoc K V)
      → P v
      → AllValues P m
      → AllValues P (insert k v m)
  unfolding insert
  AllValues-insert P k v [] p h = (p, tt)
  AllValues-insert P k v ((j, w) ∷ m) p h = elim (Bool-cases (j == k)) [
    | inl e ↦ rw e (p, h.1)
    | inr e ↦ rw e (h.0, AllValues-insert P k v m p h.1)
  ]

  pub AllValues-delete {μ} :
      (P : V → Type μ) (k : K) (m : Assoc K V) → AllValues P m → AllValues P (delete k m)
  unfolding delete
  AllValues-delete P k [] h = tt
  AllValues-delete P k ((j, w) ∷ m) h = elim (Bool-cases (j == k)) [
    | inl e ↦ rw e (AllValues-delete P k m h.1)
    | inr e ↦ rw e (h.0, AllValues-delete P k m h.1)
  ]

  pub insert-AllKeys {μ} :
      (P : K → Type μ) (k : K) (v : V) (m : Assoc K V)
      → P k
      → AllKeys P m
      → AllKeys P (insert k v m)
  unfolding insert
  insert-AllKeys P k v [] p h = (p, tt)
  insert-AllKeys P k v ((j, w) ∷ m) p h = elim (Bool-cases (j == k)) [
    | inl e ↦ rw e (p, h.1)
    | inr e ↦ rw e (h.0, insert-AllKeys P k v m p h.1)
  ]

  pub delete-AllKeys {μ} :
      (P : K → Type μ) (k : K) (m : Assoc K V) → AllKeys P m → AllKeys P (delete k m)
  unfolding delete
  delete-AllKeys P k [] h = tt
  delete-AllKeys P k ((j, w) ∷ m) h = elim (Bool-cases (j == k)) [
    | inl e ↦ rw e (delete-AllKeys P k m h.1)
    | inr e ↦ rw e (h.0, delete-AllKeys P k m h.1)
  ]

  pub lookup-AllValues {μ} :
      (P : V → Type μ) (k : K) (m : Assoc K V) {v : V} → AllValues P m → lookup k m ≡ some v → P v
  unfolding lookup
  lookup-AllValues P k [] h q = absurd (cc)
  lookup-AllValues P k ((j, w) ∷ m) {v} h q = elim (Bool-cases (j == k)) [
    | inl e ↦ let p : w ≡ v = ground arith in rw (← p) h.0
    | inr e ↦ lookup-AllValues P k m h.1 (ground arith)
  ]
