-- ===== src/Backend/Store/Keeps.antt =====
-- Invariants of the backend's methods: one rule for each way in which a method is built.
use go_proton_api.Base.{
  string_eq, String, Bool, true, false, Option, none, some, List, [], ◌∷◌, if◌then◌else◌,
}
use go_proton_api.Base.Assoc.{lookup, find_key}
use go_proton_api.Backend.Exec.{
  Error, pure, fail, panic, reads, or_fail, or_panic, skip, fail_if, modify, for_each, Outcome,
  returned, failed, panicked, stuck, lift, or_stuck, resume, ◌>>=◌,
}
use go_proton_api.Backend.Store.{Store, M, with_acc, with_acc_ret, get_acc}

-- The method keeps `P`, whether it returns, fails or panics.
pub record Keeps {A : Type 0} (P : Store → Type 0) (m : M A) : Type 0 where
  pub at : (b : Store) → P b → P (m b).1

module _ {P : Store → Type 0} where
  pub Keeps-pure : {A : Type 0} (a : A) → Keeps P (pure a)
  unfolding pure
  Keeps-pure a = record { at = λ b h. h }

  pub Keeps-fail : {A : Type 0} (e : Error) → Keeps {A = A} P (fail e)
  unfolding fail
  Keeps-fail e = record { at = λ b h. h }

  pub Keeps-panic : {A : Type 0} → Keeps {A = A} P panic
  unfolding panic
  Keeps-panic = record { at = λ b h. h }

  pub Keeps-reads : {A : Type 0} (f : Store → A) → Keeps P (reads f)
  unfolding reads
  Keeps-reads f = record { at = λ b h. h }

  pub Keeps-or_fail : {A : Type 0} (e : Error) (o : Option A) → Keeps P (or_fail e o)
  unfolding or_fail
  Keeps-or_fail e none = record { at = λ b h. h }
  Keeps-or_fail e (some a) = record { at = λ b h. h }

  pub Keeps-or_panic : {A : Type 0} (o : Option A) → Keeps P (or_panic o)
  unfolding or_panic
  Keeps-or_panic none = record { at = λ b h. h }
  Keeps-or_panic (some a) = record { at = λ b h. h }

  pub Keeps-lift : {A : Type 0} (r : Outcome A) → Keeps P (lift r)
  unfolding lift
  Keeps-lift r = record { at = λ b h. h }

  pub Keeps-or_stuck : {A : Type 0} (o : Option A) → Keeps P (or_stuck o)
  unfolding or_stuck
  Keeps-or_stuck none = record { at = λ b h. h }
  Keeps-or_stuck (some a) = record { at = λ b h. h }

  pub Keeps-skip : Keeps P skip
  unfolding skip
  Keeps-skip = record { at = λ b h. h }

  pub Keeps-fail_if : (t : Bool) (e : Error) → Keeps P (fail_if t e)
  unfolding fail_if
  Keeps-fail_if true e = record { at = λ b h. h }
  Keeps-fail_if false e = record { at = λ b h. h }

  pub Keeps-modify : (f : Store → Store) → ((b : Store) → P b → P (f b)) → Keeps P (modify f)
  unfolding modify
  Keeps-modify f h = record { at = h }

  pub Keeps-if :
      {A : Type 0} (t : Bool) (m n : M A) → Keeps P m → Keeps P n → Keeps P (if t then m else n)
  Keeps-if true m n km kn = km
  Keeps-if false m n km kn = kn

  pub Keeps-option :
      {A B : Type 0} (o : Option B) (m : M A) (f : B → M A)
      → Keeps P m
      → ((x : B) → Keeps P (f x))
      → Keeps P (elim o as (λ _. M A) [ none ↦ m | some x ↦ f x ])
  Keeps-option none m f km kf = km
  Keeps-option (some x) m f km kf = kf x

  resume_keeps :
      {A B : Type 0} (r : Outcome A) (f : A → M B)
      → ((a : A) → Keeps P (f a))
      → (b : Store) → P b
      → P (resume r f b).1
  resume_keeps (returned a) f kf b h = (kf a).at b h
  resume_keeps (failed e) f kf b h = h
  resume_keeps panicked f kf b h = h
  resume_keeps stuck f kf b h = h

  pub Keeps-bind :
      {A B : Type 0} (m : M A) (f : A → M B)
      → Keeps P m
      → ((a : A) → Keeps P (f a))
      → Keeps P (m >>= f)
  unfolding ◌>>=◌
  Keeps-bind m f km kf = record {
    at = λ b h. let (r, b') = m b in resume_keeps r f kf b' (km.at b h);
  }

  pub Keeps-for_each :
      {X : Type 0} (xs : List X) (body : X → M Unit)
      → ((x : X) → Keeps P (body x))
      → Keeps P (for_each xs body)
  unfolding for_each
  Keeps-for_each [] body k = Keeps-skip
  Keeps-for_each (x ∷ xs) body k =
      Keeps-bind (body x) (λ _. for_each xs body) (k x) (λ _. Keeps-for_each xs body k)

  looked_up_keeps :
      {A B : Type 0} (o : Option B) (e : Error) (f : B → M A)
      → ((a : B) → Keeps P (f a))
      → (b : Store) → P b
      → P (elim o as (λ _. Outcome A × Store) [ none ↦ (failed e, b) | some a ↦ f a b ]).1
  looked_up_keeps none e f k b h = h
  looked_up_keeps (some a) e f k b h = (k a).at b h

  -- The function gets the key that was asked for.
  pub Keeps-with_acc_at :
      {A : Type 0} (user : String) (fn : String → M A)
      → Keeps P (fn user)
      → Keeps P (with_acc user fn)
  unfolding with_acc
  Keeps-with_acc_at user fn k = record {
    at = λ b h. looked_up_keeps (lookup user b.accounts) _ (λ _. fn user) (λ _. k) b h;
  }

  pub Keeps-with_acc :
      {A : Type 0} (user : String) (fn : String → M A)
      → ((p : String) → Keeps P (fn p))
      → Keeps P (with_acc user fn)
  Keeps-with_acc user fn k = Keeps-with_acc_at user fn (k user)

  pub Keeps-with_acc_ret :
      {A : Type 0} (user : String) (fn : String → M A)
      → ((p : String) → Keeps P (fn p))
      → Keeps P (with_acc_ret user fn)
  unfolding with_acc_ret
  Keeps-with_acc_ret user fn k = record {
    at = λ b h. looked_up_keeps (find_key _ b.accounts) _ fn k b h;
  }

  pub Keeps-get_acc : (p : String) → Keeps P (get_acc p)
  unfolding get_acc
  Keeps-get_acc p = Keeps-bind _ _ (Keeps-reads _) (λ o. Keeps-or_panic o)

pub ruleset keeps_rules = (
  Keeps-pure, Keeps-fail, Keeps-panic, Keeps-reads, Keeps-or_fail, Keeps-or_panic, Keeps-or_stuck,
  Keeps-lift, Keeps-skip, Keeps-fail_if, Keeps-if, Keeps-bind, Keeps-for_each, Keeps-with_acc,
  Keeps-with_acc_ret, Keeps-get_acc,
)
