-- ===== src/Contacts/Settings/Written.antt =====
-- What the writes of `SetSettings` leave in the group.
use go_proton_api.Base.{
  nat_eq, true, false, Bool-cases, beq_refl, String, string_eq, ◌==◌, Option, none, some,
  Option-cases, List, [], ◌∷◌, ◌≡◌, refl, sym, ap, subst, ◌∙◌, inl, inr, arith, if◌then◌else◌,
}
use go_proton_api.Contacts.Card.{CardTools, value}
use go_proton_api.Contacts.Card.Codec.{CardLaws}
use go_proton_api.Contacts.Group.{CardGroup, find_group, get, set}
use go_proton_api.Contacts.Group.Texts.{set_head}
use go_proton_api.Contacts.Group.Refines.{sets, run_op-effect}
use go_proton_api.Contacts.Group.Finds.{find_group-run_op, run_op-group, run_op-card_type}
use go_proton_api.Contacts.Settings.{set_all, first}

abbrev pub over : Option String → List String → List String
over none ts = ts
over (some t) ts = set_head t ts

abbrev pub or_old {ℓ} : {A : Type ℓ} → Option A → Option A → Option A
or_old none old = old
or_old (some a) old = some a

pub first-over : (o : Option String) (ts : List String) → first (over o ts) ≡ or_old o (first ts)
first-over none ts = refl
first-over (some t) [] = refl
first-over (some t) (u ∷ ts) = refl

-- The texts of a key after the writes.
abbrev pub written : List (String × Option String) → String → List String → List String
written [] key ts = ts
written ((k, o) ∷ writes) key ts = written writes key (if k == key then over o ts else ts)

abbrev pub Spares : String → List (String × Option String) → Type 0
Spares key [] = Unit
Spares key ((k, o) ∷ writes) = ((k == key) ≡ false) × Spares key writes

-- The text that is written, if there is one.
abbrev pub OptionIs : (String → Type 0) → Option String → Type 0
OptionIs P none = Unit
OptionIs P (some t) = P t

-- The keys and the texts that are written.
abbrev pub Writes : (String → Type 0) → (String → Type 0) → List (String × Option String) → Type 0
Writes P Q [] = Unit
Writes P Q ((k, o) ∷ writes) = P k × OptionIs Q o × Writes P Q writes

one_write :
    (tools : CardTools) (k t : String) (writes : List (String × Option String)) (g g' : CardGroup)
    → set_all tools ((k, some t) ∷ writes) g ≡ (none, g')
    → (mid : CardGroup) × (set tools k t [] g ≡ (none, mid))
      × (set_all tools writes mid ≡ (none, g'))
unfolding set_all
one_write tools k t writes g g' h = elim (Option-cases (set tools k t [] g).0) [
  | inl e ↦ ((set tools k t [] g).1, ground arith, ground arith)
  | inr (failure, e) ↦ absurd (ground arith)
]

module _ (tools : CardTools) {IsUpper IsPlain : String → Type 0}
    (laws : CardLaws tools IsUpper IsPlain) where
  pub group-set_all :
      (writes : List (String × Option String)) (g g' : CardGroup)
      → Writes IsUpper IsPlain writes
      → IsPlain g.group
      → set_all tools writes g ≡ (none, g')
      → (g'.group ≡ g.group) × (g'.card.card_type ≡ g.card.card_type)
  unfolding set_all
  group-set_all [] g g' own in_plain h = ground arith
  group-set_all ((k, none) ∷ writes) g g' own in_plain h =
      group-set_all writes g g' own.2 in_plain h
  group-set_all ((k, some t) ∷ writes) g g' own in_plain h =
      let (mid, ran, rest) = one_write tools k t writes g g' h in
      let stays = run_op-group tools laws (sets k t []) g mid ran in
      let later = group-set_all writes mid g' own.2 (subst IsPlain (sym stays) in_plain) rest in
      (
        later.0 ∙ run_op-group tools laws (sets k t []) g mid ran,
        later.1 ∙ run_op-card_type tools laws (sets k t []) g mid own.0 (own.1, in_plain) ran,
      )

  -- The order of the writes matters for a key that is written twice.
  pub get-set_all :
      (writes : List (String × Option String)) (g g' : CardGroup) (key : String) (ts : List String)
      → IsUpper key
      → get tools key g ≡ value ts
      → Writes IsUpper IsPlain writes
      → IsPlain g.group
      → set_all tools writes g ≡ (none, g')
      → get tools key g' ≡ value (written writes key ts)
  unfolding set_all
  get-set_all [] g g' key ts upper before own in_plain h =
      let same : g ≡ g' = ap (λ r. r.1) h in rw (← same) before
  get-set_all ((k, none) ∷ writes) g g' key ts upper before own in_plain h =
      elim (Bool-cases (k == key)) [
        | inl e ↦ rw e (get-set_all writes g g' key ts upper before own.2 in_plain h)
        | inr e ↦ rw e (get-set_all writes g g' key ts upper before own.2 in_plain h)
      ]
  get-set_all ((k, some t) ∷ writes) g g' key ts upper before own in_plain h =
      let (mid, ran, rest) = one_write tools k t writes g g' h in
      let stays = run_op-group tools laws (sets k t []) g mid ran in
      let same : (g.group == g.group) ≡ true = beq_refl g.group in
      let after =
        run_op-effect tools laws (sets k t []) g mid key g.group ts own.0 (own.1, in_plain) upper
          before ran in
      let here : get tools key (record mid { group = g.group })
          ≡ value (if k == key then set_head t ts else ts) =
        ground arith in
      let now =
        subst
          (λ group.
            get tools key (record mid { group = group })
            ≡ value (if k == key then set_head t ts else ts))
          (sym stays) here in
      get-set_all writes mid g' key (if k == key then set_head t ts else ts) upper now own.2
        (subst IsPlain (sym stays) in_plain) rest

  pub find_group-set_all :
      (writes : List (String × Option String)) (g g' : CardGroup) (key text : String)
      → IsUpper key
      → Spares key writes
      → Writes IsUpper IsPlain writes
      → IsPlain g.group
      → set_all tools writes g ≡ (none, g')
      → find_group tools key text g'.card ≡ find_group tools key text g.card
  unfolding set_all
  find_group-set_all [] g g' key text upper spares own in_plain h =
      ap (λ r. find_group tools key text r.1.card) (sym h)
  find_group-set_all ((k, none) ∷ writes) g g' key text upper spares own in_plain h =
      find_group-set_all writes g g' key text upper spares.1 own.2 in_plain h
  find_group-set_all ((k, some t) ∷ writes) g g' key text upper spares own in_plain h =
      let (mid, ran, rest) = one_write tools k t writes g g' h in
      let stays = run_op-group tools laws (sets k t []) g mid ran in
      find_group-set_all writes mid g' key text upper spares.1 own.2
        (subst IsPlain (sym stays) in_plain) rest
      ∙ find_group-run_op tools laws (sets k t []) g mid key text own.0 (own.1, in_plain) upper
          spares.0 ran
