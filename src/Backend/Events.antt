-- ===== src/Backend/Events.antt =====
-- The event stream of an account: `GetEvent`, `GetLatestEventID` and `buildEvent` of
-- server/backend/api.go. An event id is the number that the source encodes as base64.
pub mod Paging
pub mod Answers
use go_proton_api.Base.{
  ℕ, zero, suc, ◌+◌, ◌-◌, String, string_eq, nat_eq, Bool, true, false, not, ◌&&◌, ◌||◌, Option,
  none, some, List, [], ◌∷◌, ◌++◌, if◌then◌else◌, ◌==◌, ltb, leb, length, get_elem?, take, drop,
  index_plus_one,
}
use go_proton_api.Base.Int.{ℤ, pos, negsuc, add_len}
use go_proton_api.Base.Assoc.{Assoc, lookup}
use go_proton_api.Backend.Types.{Account, Address, Label, Message, Attachment, UserSettings}
use go_proton_api.Backend.Updates.{
  Update, user_refreshed, message_created, message_updated, message_deleted, label_created,
  label_updated, label_deleted, address_created, address_updated, address_deleted,
  user_settings_update, user_info_update, merge,
}
use go_proton_api.Backend.Metadata.{Metadata, UserView, to_metadata, to_user}
use go_proton_api.Backend.Labels.{Labels, LabelView, path_to_root}
use go_proton_api.Backend.Exec.{
  Outcome, returned, panicked, stuck, and_then, checked, reads, or_panic, lift, pure, ◌>>=◌, ◌>>◌,
}
use go_proton_api.Backend.Store.{Store, M, with_acc_ret, get_acc}

abbrev exceeds : ℤ → ℕ → Bool
exceeds (pos n) total = ltb total n
exceeds (negsuc n) total = false

unfoldable pub get_last_update_index : ℕ → ℕ → ℤ → ℤ
unfolding add_len
get_last_update_index total first (negsuc m) = pos total
get_last_update_index total first (pos m) =
    if m == 0 || exceeds (add_len first m) total then pos total else add_len first m

-- The slice expression `xs[lo:hi]`; `none` is its panic.
unfoldable pub slice {ℓ} : {A : Type ℓ} → List A → ℕ → ℤ → Option (List A)
slice xs lo (negsuc n) = none
slice xs lo (pos hi) =
    if leb lo hi && leb hi (length xs) then some (take (hi - lo) (drop lo xs)) else none

-- What one call of `GetEvent` covers: the update ids, the new event id, and whether more follow.
pub record Window : Type 0 where
  pub ids : List ℕ
  pub last : ℕ
  pub more : Bool

abbrev window_to : List ℕ → ℤ → List ℕ → Option Window
window_to all (negsuc n) ids = none
window_to all (pos hi) ids = elim (get_elem? all (hi - 1)) [
  | none ↦ none
  | some last ↦
      if hi == 0
      then none
      else some (record { ids = ids; last = last; more = not (hi == length all) })
]

unfoldable pub event_window : List ℕ → ℤ → ℕ → Option Window
unfolding slice
event_window update_ids max_updates event_id =
    let first = index_plus_one update_ids event_id in
    let last = get_last_update_index (length update_ids) first max_updates in
    elim (slice update_ids first last) [ none ↦ none | some ids ↦ window_to update_ids last ids ]

pub data Action : Type 0 where
  event_delete event_create event_update event_update_flags : Action

-- An item of an event; a deletion carries no item.
pub record Item (A : Type 0) : Type 0 where
  pub id : String
  pub action : Action
  pub item : Option A

pub record Event : Type 0 where
  pub event_id : ℕ
  pub refresh : ℕ
  pub user : Option UserView
  pub user_settings : Option UserSettings
  pub messages : List (Item Metadata)
  pub labels : List (Item LabelView)
  pub addresses : List (Item Address)

abbrev pub empty_event : ℕ → Event
empty_event id = record {
  event_id = id;
  refresh = 0;
  user = none;
  user_settings = none;
  messages = [];
  labels = [];
  addresses = [];
}

-- The maps that `buildEvent` looks items up in.
pub record Sources : Type 0 where
  pub addresses_of : Assoc String Address
  pub messages_of : Assoc String Message
  pub labels_of : Labels
  pub att_data_of : Assoc String (List ℕ)
  pub attachments_of : Assoc String Attachment
  pub user_of : UserView
  pub fuel : ℕ

abbrev show_message : Sources → String → Outcome Metadata
show_message s id =
    and_then (checked (lookup id s.messages_of))
      λ m. checked (to_metadata s.att_data_of s.attachments_of m)

abbrev show_label : Sources → String → Outcome LabelView
show_label s id = and_then (checked (lookup id s.labels_of)) λ l.
    and_then (path_to_root s.fuel s.labels_of l.label_id [])
      λ path. returned (record { label = l; path = path })

abbrev show_address : Sources → String → Outcome Address
show_address s id = checked (lookup id s.addresses_of)

abbrev add_message : Event → String → Action → Option Metadata → Event
add_message e id action m = record e {
  messages = e.messages ++ record { id = id; action = action; item = m } ∷ [];
}

abbrev add_label_item : Event → String → Action → Option LabelView → Event
add_label_item e id action l = record e {
  labels = e.labels ++ record { id = id; action = action; item = l } ∷ [];
}

abbrev add_address : Event → String → Action → Option Address → Event
add_address e id action a = record e {
  addresses = e.addresses ++ record { id = id; action = action; item = a } ∷ [];
}

-- One round of the loop of `buildEvent`.
unfoldable pub event_step : Sources → Event → Update → Outcome Event
event_step s e (user_refreshed flag) = returned (record e { refresh = flag })
event_step s e (message_created id) =
    and_then (show_message s id) λ m. returned (add_message e id event_create (some m))
event_step s e (message_updated id) =
    and_then (show_message s id) λ m. returned (add_message e id event_update (some m))
event_step s e (message_deleted id) = returned (add_message e id event_delete none)
event_step s e (label_created id) =
    and_then (show_label s id) λ l. returned (add_label_item e id event_create (some l))
event_step s e (label_updated id) =
    and_then (show_label s id) λ l. returned (add_label_item e id event_update (some l))
event_step s e (label_deleted id) = returned (add_label_item e id event_delete none)
event_step s e (address_created id) =
    and_then (show_address s id) λ a. returned (add_address e id event_create (some a))
event_step s e (address_updated id) =
    and_then (show_address s id) λ a. returned (add_address e id event_update (some a))
event_step s e (address_deleted id) = returned (add_address e id event_delete none)
event_step s e (user_settings_update settings) =
    returned (record e { user_settings = some settings })
event_step s e user_info_update = returned (record e { user = some s.user_of })

unfoldable pub build_event : Sources → Event → List Update → Outcome Event
unfolding event_step
build_event s e [] = returned e
build_event s e (u ∷ us) = and_then (event_step s e u) λ e'. build_event s e' us

-- The updates under the ids; an id that the map does not hold gives a nil update.
unfoldable pub updates_at : Assoc ℕ Update → List ℕ → Option (List Update)
updates_at m [] = some []
updates_at m (id ∷ ids) =
    let rest = updates_at m ids in
    elim (lookup id m) [
      | none ↦ none
      | some u ↦ elim rest [ none ↦ none | some us ↦ some (u ∷ us) ]
    ]

unfoldable pub get_event : ℕ → String → ℕ → M (Event × Bool)
unfolding ◌>>=◌
get_event fuel user_id event_id = with_acc_ret user_id λ p. do
  acc ← get_acc p
  max_updates ← reads (λ b. b.max_updates_per_event)
  window ← or_panic (event_window acc.update_ids max_updates event_id)
  updates ← reads (λ b. updates_at b.updates window.ids)
  known ← or_panic updates
  merged ← or_panic (merge known)
  user ← or_panic (to_user acc)
  event ← reads (λ b.
      build_event
        (record {
          addresses_of = acc.addresses;
          messages_of = b.messages;
          labels_of = b.labels;
          att_data_of = b.att_data;
          attachments_of = b.attachments;
          user_of = user;
          fuel = fuel;
        })
        (empty_event window.last) merged)
  built ← lift event
  pure (built, window.more)

unfoldable pub get_latest_event_id : String → M ℕ
unfolding ◌>>=◌
get_latest_event_id user_id = with_acc_ret user_id λ p. do
  acc ← get_acc p
  or_panic (
      if length acc.update_ids == 0
      then none
      else get_elem? acc.update_ids (length acc.update_ids - 1))
