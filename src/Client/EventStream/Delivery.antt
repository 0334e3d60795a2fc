-- ===== src/Client/EventStream/Delivery.antt =====
-- The client's loop against the server's windows: what one call of `GetEvent` delivers.
use go_proton_api.Base.{
  ℕ, zero, suc, ◌-◌, ◌≤◌, nat_eq, Bool, true, Option, some, List, [], ◌∷◌, ◌++◌, length, get_elem?,
  ◌≡◌, refl, sym, ap, ◌∙◌, arith, Bool-cases, string_eq, ◌==◌, ◌≢◌, ◌⊎◌, none, String, false, inl,
  inr, subst,
}
use mathlib.Core.List.{append-nil}
use go_proton_api.Base.Assoc.{find_key, lookup, option_map}
use go_proton_api.Backend.Store.Ordered.{Ascends}
use go_proton_api.Backend.Events.{Event, Window, event_window, updates_at}
use go_proton_api.Backend.Events.Paging.{Covers, IsSmall, event_window-Covers, get_elem?-lt}
use go_proton_api.Backend.Events.Answers.{
  window_event, get_event-answer, and_then-eq-returned, build_event-event_id,
}
use go_proton_api.Backend.Types.{Account}
use go_proton_api.Backend.Updates.{merge}
use go_proton_api.Backend.Metadata.{to_user}
use go_proton_api.Backend.Exec.{Outcome, returned, failed, panicked, stuck, checked}
use go_proton_api.Backend.Store.{Store}
use go_proton_api.Backend.Events
use go_proton_api.Client.EventStream.Windows.{delivered, join, Covers-join, window_end}
use go_proton_api.Client.EventStream.{collect, get_event, prepend}

-- The backend's answer to a request, while its store stays as it is. An error or a panic, which the
-- server answers with 500, is an error of the request.
abbrev answered : Outcome (Event × Bool) → Option (Event × Bool)
answered (returned r) = some r
answered _ = none

abbrev pub serve : ℕ → String → Store → ℕ → Option (Event × Bool)
serve fuel user b id = answered (Events.get_event fuel user id b).0

abbrev pub event_key : Event → ℕ
event_key e = e.event_id

-- The events are those that the backend builds for the windows, one for each.
abbrev pub Shows : (Window → Outcome Event) → List Window → List Event → Type 0
Shows build [] [] = Unit
Shows build (w ∷ ws) (e ∷ es) = (build w ≡ returned e) × Shows build ws es
Shows build _ _ = ⊥

module _ (build : Window → Outcome Event) (ids : List ℕ) where
  -- At most `n` events, for windows that make one window from the place `first`, with the `more` flag
  -- of the last; they are `n` if that flag is set.
  pub record Delivers (first n : ℕ) (result : Option (List Event × Bool)) : Type 0 where
    pub windows : List Window
    pub events : List Event
    pub more : Bool
    pub total : Window
    pub returns : result ≡ some (events, more)
    pub shown : Shows build windows events
    pub items : total.ids ≡ delivered windows
    pub covers : Covers ids first total
    pub flag : total.more ≡ more
    pub few : length events ≤ n
    pub full : more ≡ true → length events ≡ n

  -- The request failed, on a window from the place `first` or later for which no event can be built.
  pub record Stops (first : ℕ) (result : Option (List Event × Bool)) : Type 0 where
    pub start : ℕ
    pub window : Window
    pub returns : result ≡ none
    pub later : first ≤ start
    pub covers : Covers ids start window
    pub unshown : (e : Event) → build window ≢ returned e

module _ (fuel : ℕ) (user p : String) (b : Store) (acc : Account) (hi : ℕ)
    (named : find_key (λ acc. acc.user_id == user) b.accounts ≡ some p)
    (found : lookup p b.accounts ≡ some acc) (ascends : Ascends 0 hi acc.update_ids)
    (small : IsSmall b.max_updates_per_event (length acc.update_ids)) where
  abbrev build : Window → Outcome Event
  build w = window_event fuel b acc w

  next_window :
      (first : ℕ) (w : Window) (c : Covers acc.update_ids first w)
      → (v : Window) × (event_window acc.update_ids b.max_updates_per_event w.last ≡ some v)
        × Covers acc.update_ids c.end v
  next_window first w c =
      let ids = acc.update_ids in
      let (v, q, d) =
        event_window-Covers ids hi b.max_updates_per_event (c.end - 1) w.last ascends c.names
          small in
      let e : suc (c.end - 1) ≡ c.end =
        window_end first c.end (length ids) (get_elem?-lt ids (c.end - 1) c.names) c.from c.moves in
      (v, q, subst (λ n. Covers ids n v) e d)

  Outcome-cases :
      (o : Outcome Event) → ((e : Event) × (o ≡ returned e)) ⊎ ((e : Event) → o ≢ returned e)
  Outcome-cases (returned e) = inl (e, refl)
  Outcome-cases (failed f) = inr (λ e h. absurd (cc))
  Outcome-cases panicked = inr (λ e h. absurd (cc))
  Outcome-cases stuck = inr (λ e h. absurd (cc))

  -- A request is answered with the event of its window, if that can be built.
  serve_shown :
      (x : ℕ) (w : Window) (e : Event)
      → event_window acc.update_ids b.max_updates_per_event x ≡ some w
      → build w ≡ returned e
      → serve fuel user b x ≡ some (e, w.more)
  serve_shown x w e q h = rw (get_event-answer fuel user p x b acc named found, q, h)

  serve_unshown :
      (x : ℕ) (w : Window) (o : Outcome Event)
      → event_window acc.update_ids b.max_updates_per_event x ≡ some w
      → build w ≡ o
      → ((e : Event) → o ≢ returned e)
      → serve fuel user b x ≡ none
  serve_unshown x w (returned e) q h un = absurd (un e refl)
  serve_unshown x w (failed f) q h un = rw (get_event-answer fuel user p x b acc named found, q, h)
  serve_unshown x w panicked q h un = rw (get_event-answer fuel user p x b acc named found, q, h)
  serve_unshown x w stuck q h un = rw (get_event-answer fuel user p x b acc named found, q, h)

  window_event-event_id : (w : Window) (e : Event) → build w ≡ returned e → e.event_id ≡ w.last
  window_event-event_id w e h =
      let (us, known, h1) = and_then-eq-returned (checked (updates_at b.updates w.ids)) _ h in
      let (ms, merged, h2) = and_then-eq-returned (checked (merge us)) _ h1 in
      let (u, view, h3) = and_then-eq-returned (checked (to_user acc)) _ h2 in
      build_event-event_id _ _ ms e h3

  abbrev ask : ℕ → Option (Event × Bool)
  ask = serve fuel user b

  abbrev from_event : ℕ → Event → Bool → Option (List Event × Bool)
  from_event n e more = option_map (prepend e) (collect ask event_key n e more)

  collect_stops : (n : ℕ) (e : Event) → collect ask event_key n e false ≡ some ([], false)
  unfolding collect
  collect_stops zero e = refl
  collect_stops (suc n) e = refl

  collect_fails :
      (n : ℕ) (e : Event) (x : ℕ)
      → e.event_id ≡ x
      → ask x ≡ none
      → collect ask event_key (suc n) e true ≡ none
  unfolding collect
  collect_fails n e x key h = rw (collect, key, h) refl

  collect_goes_on :
      (n : ℕ) (e next : Event) (x : ℕ) (more : Bool)
      → e.event_id ≡ x
      → ask x ≡ some (next, more)
      → collect ask event_key (suc n) e true ≡ from_event n next more
  unfolding collect
  collect_goes_on n e next x more key h = rw (collect, key, h) refl

  one_event :
      (first n : ℕ) (w : Window) (e : Event)
      → Covers acc.update_ids first w
      → build w ≡ returned e
      → (w.more ≡ true → 1 ≡ suc n)
      → Delivers build acc.update_ids first (suc n) (some (e ∷ [], w.more))
  unfolding delivered
  one_event first n w e c h last = record {
    windows = w ∷ [];
    events = e ∷ [];
    more = w.more;
    total = w;
    returns = refl;
    shown = (h, tt);
    items = sym (append-nil w.ids);
    covers = c;
    flag = refl;
    few = omega arith;
    full = last;
  }

  Delivers-cons :
      (first n : ℕ) (w : Window) (e : Event) (c : Covers acc.update_ids first w)
      (result : Option (List Event × Bool))
      → build w ≡ returned e
      → Delivers build acc.update_ids c.end n result
      → Delivers build acc.update_ids first (suc n) (option_map (prepend e) result)
  unfolding delivered
  Delivers-cons first n w e c result h d = record {
    windows = w ∷ d.windows;
    events = e ∷ d.events;
    more = d.more;
    total = join w d.total;
    returns = rw d.returns refl;
    shown = (h, d.shown);
    items = ap (λ t. w.ids ++ t) d.items;
    covers = Covers-join acc.update_ids first w d.total c d.covers;
    flag = d.flag;
    few = omega (arith, d.few);
    full = λ m. omega (arith, d.full m);
  }

  -- What holds from the end of the window on holds from its start, with its event in front.
  extend :
      (first n : ℕ) (w : Window) (e : Event) (c : Covers acc.update_ids first w)
      (result : Option (List Event × Bool))
      → build w ≡ returned e
      → Delivers build acc.update_ids c.end n result ⊎ Stops build acc.update_ids c.end result
      → Delivers build acc.update_ids first (suc n) (option_map (prepend e) result)
        ⊎ Stops build acc.update_ids first (option_map (prepend e) result)
  extend first n w e c result h (inl d) = inl (Delivers-cons first n w e c result h d)
  extend first n w e c result h (inr s) = inr (record {
    start = s.start;
    window = s.window;
    returns = rw s.returns refl;
    later = omega (arith, c.from, s.later);
    covers = s.covers;
    unshown = s.unshown;
  })

  from_event-Delivers :
      (n first : ℕ) (w : Window) (e : Event)
      → Covers acc.update_ids first w
      → build w ≡ returned e
      → Delivers build acc.update_ids first (suc n) (from_event n e w.more)
        ⊎ Stops build acc.update_ids first (from_event n e w.more)
  unfolding collect
  from_event-Delivers zero first w e c h = inl (one_event first 0 w e c h (λ m. refl))
  from_event-Delivers (suc n) first w e c h = elim (Bool-cases w.more) [
    | inr done ↦ inl (
        subst (λ r. Delivers build acc.update_ids first (suc (suc n)) (option_map (prepend e) r))
          (sym (ap (collect ask event_key (suc n) e) done ∙ collect_stops (suc n) e))
          (subst (λ m. Delivers build acc.update_ids first (suc (suc n)) (some (e ∷ [], m))) done
            (one_event first (suc n) w e c h (λ m. absurd (cc (m, done))))))
    | inl going ↦
        let (v, q, d) = next_window first w c in
        let key = window_event-event_id w e h in
        elim (Outcome-cases (build v)) [
          | inl (next, shown) ↦
              let goes =
                ap (collect ask event_key (suc n) e) going
                ∙ collect_goes_on n e next w.last v.more key (serve_shown w.last v next q shown) in
              subst
                (λ r.
                  Delivers build acc.update_ids first (suc (suc n)) (option_map (prepend e) r)
                  ⊎ Stops build acc.update_ids first (option_map (prepend e) r))
                (sym goes)
                (extend first (suc n) w e c (from_event n next v.more) h
                  (from_event-Delivers n c.end v next d shown))
          | inr unshown ↦
              let fails =
                ap (collect ask event_key (suc n) e) going
                ∙ collect_fails n e w.last key (serve_unshown w.last v (build v) q refl unshown) in
              inr (record {
                start = c.end;
                window = v;
                returns = rw fails refl;
                later = c.from;
                covers = d;
                unshown = unshown;
              })
        ]
  ]

  -- One call of the client's `GetEvent`, for the event id at place `i` of an ascending stream of the
  -- account, while the store of the backend stays as it is. Either it succeeds: its events, at most 50,
  -- are the events that the backend builds, with its merge and its views, for windows that follow one
  -- another and make up the updates after that id up to the last event's, with none left out or
  -- repeated; the flag tells whether updates are left, and if so all 50 requests were made. Or it
  -- fails: then the backend can build no event for some window after that id, because a merge, a
  -- view or a lookup panics or does not end.
  pub get_event-Delivers :
      (i x : ℕ)
      → get_elem? acc.update_ids i ≡ some x
      → Delivers
          (window_event fuel b acc)
          acc.update_ids
          (suc i)
          50
          (get_event (serve fuel user b) event_key x)
        ⊎ Stops
            (window_event fuel b acc)
            acc.update_ids
            (suc i)
            (get_event (serve fuel user b) event_key x)
  unfolding get_event
  get_event-Delivers i x h =
      let (w, q, c) =
        event_window-Covers acc.update_ids hi b.max_updates_per_event i x ascends h small in
      elim (Outcome-cases (build w)) [
        | inl (e, shown) ↦
            rw (get_event, serve_shown x w e q shown) (from_event-Delivers 49 (suc i) w e c shown)
        | inr unshown ↦ inr (record {
          start = suc i;
          window = w;
          returns = rw (get_event, serve_unshown x w (build w) q refl unshown) refl;
          later = omega arith;
          covers = c;
          unshown = unshown;
        })
      ]
