-- ===== src/Client/EventStream/Windows.antt =====
-- Windows of an event stream that meet, joined to one.
use go_proton_api.Base.{
  ℕ, zero, suc, ◌+◌, ◌-◌, ◌≤◌, ◌<◌, nat_eq, List, [], ◌∷◌, ◌++◌, take, drop, ◌≡◌, refl, sym, ap,
  ◌∙◌, arith, string_eq,
}
use go_proton_api.Backend.Events.{Window}
use go_proton_api.Backend.Events.Paging.{Covers}

drop-nil {ℓ} : {A : Type ℓ} (n : ℕ) → drop {A = A} n [] ≡ []
drop-nil zero = refl
drop-nil (suc n) = refl

take-nil {ℓ} : {A : Type ℓ} (n : ℕ) → take {A = A} n [] ≡ []
take-nil zero = refl
take-nil (suc n) = refl

take_drop-drop {ℓ} : {A : Type ℓ} (f a : ℕ) (xs : List A) → drop a (drop f xs) ≡ drop (f + a) xs
take_drop-drop zero a xs = ap (λ n. drop n xs) (omega arith)
take_drop-drop (suc f) a [] = drop-nil a ∙ sym (drop-nil (suc f + a))
take_drop-drop (suc f) a (x ∷ xs) =
    let e : suc (f + a) ≡ suc f + a = omega arith in
    take_drop-drop f a xs ∙ ap (λ n. drop n (x ∷ xs)) e

take_join {ℓ} :
    {A : Type ℓ} (a b : ℕ) (xs : List A) → take a xs ++ take b (drop a xs) ≡ take (a + b) xs
take_join zero b xs = ap (λ n. take n xs) (omega arith)
take_join (suc a) b [] = take-nil b ∙ sym (take-nil (suc a + b))
take_join (suc a) b (x ∷ xs) =
    let e : suc (a + b) ≡ suc a + b = omega arith in
    ap (λ t. x ∷ t) (take_join a b xs) ∙ ap (λ n. take n (x ∷ xs)) e

slices_join {ℓ} :
    {A : Type ℓ} (f e g : ℕ) (xs : List A)
    → f ≤ e
    → e ≤ g
    → take (e - f) (drop f xs) ++ take (g - e) (drop e xs) ≡ take (g - f) (drop f xs)
slices_join f e g xs h k =
    ap (λ (t : List _). take (e - f) (drop f xs) ++ take (g - e) t)
      (ap (λ n. drop n xs) (omega arith) ∙ sym (take_drop-drop f (e - f) xs))
    ∙ take_join (e - f) (g - e) (drop f xs)
    ∙ ap (λ n. take n (drop f xs)) (omega arith)

-- The updates of several events, in the order of delivery.
unfoldable pub delivered : List Window → List ℕ
delivered [] = []
delivered (w ∷ ws) = w.ids ++ delivered ws

-- Two windows that meet are one.
abbrev pub join : Window → Window → Window
join v w = record { ids = v.ids ++ w.ids; last = w.last; more = w.more }

pub Covers-join :
    (ids : List ℕ) (first : ℕ) (v w : Window) (c : Covers ids first v)
    → Covers ids c.end w
    → Covers ids first (join v w)
Covers-join ids first v w c d = record {
  end = d.end;
  from = omega (arith, c.from, d.from);
  to = d.to;
  holds =
      ap (λ t. t ++ w.ids) c.holds
      ∙ ap (λ t. take (c.end - first) (drop first ids) ++ t) d.holds
      ∙ slices_join first c.end d.end ids c.from d.from;
  names = d.names;
  moves = λ h. omega (arith, c.moves h, d.from);
  goes_on = d.goes_on;
}

pub window_end :
    (first end total : ℕ)
    → end - 1 < total
    → first ≤ end
    → (first < total → first < end)
    → suc (end - 1) ≡ end
window_end first zero total h k m = absurd (omega (arith, m (omega arith)))
window_end first (suc n) total h k m = omega arith
