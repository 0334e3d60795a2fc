-- ===== src/Backend/Events/Answers.antt =====
-- What `GetEvent` of server/backend/api.go answers, as a function of the store and the account.
use go_proton_api.Base.{
  ℕ, String, string_eq, ◌==◌, Bool, some, Option-cases, List, [], ◌∷◌, ◌∙◌, inl, inr, ◌≡◌, refl,
  arith,
}
use go_proton_api.Base.Assoc.{find_key, lookup}
use go_proton_api.Backend.Types.{Account}
use go_proton_api.Backend.Updates.{Update, merge, user_refreshed}
use go_proton_api.Backend.Metadata.{UserView, to_user}
use go_proton_api.Backend.Exec.{
  Outcome, returned, failed, panicked, stuck, and_then, checked, lift, pure, ◌>>=◌,
}
use go_proton_api.Backend.Store.{Store, with_acc_ret, get_acc}
use go_proton_api.Backend.Events.{
  Event, Sources, Window, build_event, empty_event, event_window, event_step, get_event, updates_at,
}

pub and_then-eq-returned :
    {A B : Type 0} (o : Outcome A) (f : A → Outcome B) {x : B}
    → and_then o f ≡ returned x
    → (a : A) × (o ≡ returned a) × (f a ≡ returned x)
and_then-eq-returned (returned a) f h = (a, refl, h)
and_then-eq-returned (failed e) f h = absurd (cc)
and_then-eq-returned panicked f h = absurd (cc)
and_then-eq-returned stuck f h = absurd (cc)

-- The event of a window: its updates, merged, shown with what the store holds.
abbrev pub window_event : ℕ → Store → Account → Window → Outcome Event
window_event fuel b acc w = and_then (checked (updates_at b.updates w.ids)) λ known.
    and_then (checked (merge known)) λ merged. and_then (checked (to_user acc)) λ user.
      build_event
        (record {
          addresses_of = acc.addresses;
          messages_of = b.messages;
          labels_of = b.labels;
          att_data_of = b.att_data;
          attachments_of = b.attachments;
          user_of = user;
          fuel = fuel;
        })
        (empty_event w.last) merged

abbrev pub answer : ℕ → Store → Account → ℕ → Outcome (Event × Bool)
answer fuel b acc id =
    and_then (checked (event_window acc.update_ids b.max_updates_per_event id))
      λ w. and_then (window_event fuel b acc w) λ e. returned (e, w.more)

abbrev sources : ℕ → Store → Account → UserView → Sources
sources fuel b acc user = record {
  addresses_of = acc.addresses;
  messages_of = b.messages;
  labels_of = b.labels;
  att_data_of = b.att_data;
  attachments_of = b.attachments;
  user_of = user;
  fuel = fuel;
}

built :
    (w : Window) (b : Store) (o : Outcome Event)
    → ◌>>=◌ {B = Event × Bool} (lift o) (λ e. pure (e, w.more)) b
      ≡ (and_then o (λ e. returned (e, w.more)), b)
unfolding ◌>>=◌
built w b (returned e) = refl
built w b (failed e) = refl
built w b panicked = refl
built w b stuck = refl

module _ (fuel : ℕ) (user p : String) (id : ℕ) (b : Store) (acc : Account)
    (named : find_key (λ acc. acc.user_id == user) b.accounts ≡ some p)
    (found : lookup p b.accounts ≡ some acc) where
  pub get_event-answer : get_event fuel user id b ≡ (answer fuel b acc id, b)
  unfolding get_event with_acc_ret get_acc
  get_event-answer = elim (Option-cases (event_window acc.update_ids b.max_updates_per_event id)) [
    | inl e ↦ rw (get_event, with_acc_ret, named, found, e) refl
    | inr (w, e) ↦ elim (Option-cases (updates_at b.updates w.ids)) [
      | inl f ↦ rw (get_event, with_acc_ret, named, found, e, f) refl
      | inr (us, f) ↦ elim (Option-cases (merge us)) [
        | inl g ↦ rw (get_event, with_acc_ret, named, found, e, f, g) refl
        | inr (ms, g) ↦ elim (Option-cases (to_user acc)) [
          | inl h ↦ rw (get_event, with_acc_ret, named, found, e, f, g, h) refl
          | inr (u, h) ↦
              rw (get_event, with_acc_ret, named, found, e, f, g, h)
                (built w b (build_event (sources fuel b acc u) (empty_event w.last) ms))
        ]
      ]
    ]
  ]

event_step-event_id :
    (s : Sources) (e : Event) (u : Update) (e' : Event)
    → event_step s e u ≡ returned e'
    → e'.event_id ≡ e.event_id
unfolding event_step
event_step-event_id s e (user_refreshed flag) e' h = ground arith
event_step-event_id s e _ e' h = ground arith

-- An event has the id of the last update of its window.
pub build_event-event_id :
    (s : Sources) (e : Event) (us : List Update) (e' : Event)
    → build_event s e us ≡ returned e'
    → e'.event_id ≡ e.event_id
unfolding build_event
build_event-event_id s e [] e' h = ground arith
build_event-event_id s e (u ∷ us) e' h =
    let (next, step, rest) = and_then-eq-returned (event_step s e u) _ h in
    build_event-event_id s next us e' rest ∙ event_step-event_id s e u next step
