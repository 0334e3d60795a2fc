-- ===== src/Client/MessageList.antt =====
-- message.go: `GetAllMessageIDs`, which asks for pages of ids until one is empty.
pub mod Collected
use go_proton_api.Base.{ℕ, zero, suc, String, Option, none, some, List, [], ◌∷◌, ◌++◌}
use go_proton_api.Backend.Exec.{Outcome, returned, stuck, and_then}

-- `maxMessageIDs`.
abbrev pub max_message_ids : ℕ
max_message_ids = 1000

-- `messageIDs[len(messageIDs)-1]`, of a page that is not empty.
abbrev pub last_id : String → List String → String
last_id x [] = x
last_id x (y ∷ ys) = last_id y ys

-- `get` is the request `GetMessageIDs` for a page of at most `max_message_ids`. The loop has no bound
-- of its own: running out of fuel is `stuck`.
module _ (get : String → Outcome (List String)) where
  unfoldable pub collect_ids : ℕ → String → List String → Outcome (List String)
  collect_ids zero after_id ids = stuck
  collect_ids (suc fuel) after_id ids = and_then (get after_id) λ page. elim page [
    | [] ↦ returned ids
    | x ∷ xs ↦ collect_ids fuel (last_id x xs) (ids ++ x ∷ xs)
  ]

  unfoldable pub get_all_message_ids : ℕ → String → Outcome (List String)
  unfolding collect_ids
  get_all_message_ids fuel after_id = collect_ids fuel after_id []
