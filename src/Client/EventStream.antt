-- ===== src/Client/EventStream.antt =====
-- event.go: `GetEvent` of the client, which follows the `more` flag of the server.
pub mod Windows
pub mod Delivery
use go_proton_api.Base.{ℕ, zero, suc, Bool, true, false, Option, none, some, List, [], ◌∷◌}
use go_proton_api.Base.Assoc.{option_map}

-- `maxCollectedEvents` is 50: the loop makes at most 49 further requests.
abbrev pub further_requests : ℕ
further_requests = 49

abbrev prepend {ℓ} : {A : Type ℓ} → A → List A × Bool → List A × Bool
prepend a (rest, more) = (a ∷ rest, more)

-- The server, as the client sees it: `get` is the request `getEvent`, `none` its error.
module _ {EventKey Event : Type 0} (get : EventKey → Option (Event × Bool))
    (event_id : Event → EventKey) where
  -- The loop, with the number of requests that are left.
  unfoldable pub collect : ℕ → Event → Bool → Option (List Event × Bool)
  collect zero event more = some ([], more)
  collect (suc n) event false = some ([], false)
  collect (suc n) event true = elim (get (event_id event)) [
    | none ↦ none
    | some (next, more) ↦ option_map (prepend next) (collect n next more)
  ]

  unfoldable pub get_event : EventKey → Option (List Event × Bool)
  unfolding collect
  get_event id = elim (get id) [
    | none ↦ none
    | some (event, more) ↦ option_map (prepend event) (collect further_requests event more)
  ]
