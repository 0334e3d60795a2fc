-- ===== src/Backend/Users/Refresh.antt =====
-- `RefreshUser` with `RefreshAll`: the stream begins anew.
use go_proton_api.Base.{
  ℕ, zero, suc, ◌≤◌, ◌<◌, String, string_eq, ◌==◌, nat_eq, Bool, false, Option, none, some, [], ◌∷◌,
  length, ◌≡◌, refl, sym, ap, ◌∙◌, subst, arith, beq_refl, index_plus_one, Option-cases, inl, inr,
}
use go_proton_api.Base.Int.{ℤ, pos, negsuc, max_int, add_len_small}
use go_proton_api.Base.Assoc.{
  adjust, find_key, insert, lookup, lookup-adjust, lookup-insert, option_map,
}
use go_proton_api.Backend.Types.{Account}
use go_proton_api.Backend.Exec.{Outcome, returned, panicked}
use go_proton_api.Backend.Metadata.{UserView, to_user}
use go_proton_api.Backend.Updates.{user_refreshed, merge}
use go_proton_api.Backend.Store.{Store, new_update, set_acc, with_acc}
use go_proton_api.Backend.Delivery.Duplicates.{find_key-adjust}
use go_proton_api.Backend.Events.{
  Event, Window, build_event, empty_event, event_window, get_event, get_last_update_index,
  updates_at,
}
use go_proton_api.Backend.Events.Answers.{answer, get_event-answer}
use go_proton_api.Backend.Users.{refresh_all, refresh_user}

abbrev restart : ℕ → Account → Account
restart n acc = record acc { update_ids = n ∷ [] }

refreshed :
    (user_id : String) (b : Store) (acc : Account)
    → lookup user_id b.accounts ≡ some acc
    → (refresh_user user_id refresh_all b).1 ≡ record b {
      updates = insert (length b.updates) (user_refreshed refresh_all) b.updates;
      accounts = adjust user_id (restart (length b.updates)) b.accounts;
    }
unfolding refresh_user with_acc new_update set_acc
refreshed user_id b acc e = rw (with_acc, e) refl

-- A limit that fits in an int; a negative one does.
abbrev pub FitsInt : ℤ → Type 0
FitsInt (pos n) = n ≤ max_int
FitsInt (negsuc n) = Unit

last_of_one : (max : ℤ) → FitsInt max → get_last_update_index 1 0 max ≡ pos 1
unfolding get_last_update_index
last_of_one (negsuc n) h = refl
last_of_one (pos zero) h = refl
last_of_one (pos (suc n)) h = ground (arith, add_len_small 0 (suc n))

unknown_index : (n x : ℕ) → x < n → index_plus_one (n ∷ []) x ≡ 0
unfolding index_plus_one
unknown_index n x h = ground arith

abbrev only : ℕ → Window
only n = record { ids = n ∷ []; last = n; more = false }

window_of_one :
    (n x : ℕ) (max : ℤ) → x < n → FitsInt max → event_window (n ∷ []) max x ≡ some (only n)
unfolding event_window
window_of_one n x max h small =
    let first = unknown_index n x h in let last = last_of_one max small in ground arith

-- The event of a refresh; without the view of the user `GetEvent` panics.
abbrev pub shown_refresh : ℕ → Option UserView → Outcome (Event × Bool)
shown_refresh n none = panicked
shown_refresh n (some user) = returned (record (empty_event n) { refresh = refresh_all }, false)

to_user-restart : (n : ℕ) (acc : Account) → to_user (restart n acc) ≡ to_user acc
unfolding to_user
to_user-restart n acc = refl

answer-restart :
    (fuel n x : ℕ) (b : Store) (acc : Account)
    → x < n
    → FitsInt b.max_updates_per_event
    → lookup n b.updates ≡ some (user_refreshed refresh_all)
    → answer fuel b (restart n acc) x ≡ shown_refresh n (to_user acc)
unfolding updates_at merge build_event
answer-restart fuel n x b acc old small known = elim (Option-cases (to_user acc)) [
  | inl e ↦
      rw
        (window_of_one n x b.max_updates_per_event old small, updates_at, known, to_user-restart, e)
        refl
  | inr (u, e) ↦
      rw
        (window_of_one n x b.max_updates_per_event old small, updates_at, known, to_user-restart, e)
        refl
]

-- After `RefreshUser` with `RefreshAll`, a request from any earlier event gets one event, which carries
-- the refresh and nothing else, and is told that no more is to come, whatever the limit on the updates
-- of an event. Only where no address of the user has the order 1, which makes it primary, `GetEvent`
-- panics.
pub refresh_user_restarts :
    (fuel : ℕ) (user : String) (b : Store) (acc : Account) (x : ℕ)
    → find_key (λ acc. acc.user_id == user) b.accounts ≡ some user
    → lookup user b.accounts ≡ some acc
    → x < length b.updates
    → FitsInt b.max_updates_per_event
    → get_event fuel user x (refresh_user user refresh_all b).1
      ≡ (shown_refresh (length b.updates) (to_user acc), (refresh_user user refresh_all b).1)
refresh_user_restarts fuel user b acc x named found old small =
    let n = length b.updates in
    let b' = record b {
      updates = insert n (user_refreshed refresh_all) b.updates;
      accounts = adjust user (restart n) b.accounts;
    } in
    let found' : lookup user (adjust user (restart n) b.accounts) ≡ some (restart n acc) =
      lookup-adjust user user (restart n) b.accounts
      ∙ rw (beq_refl user) (ap (option_map (restart n)) found) in
    let known : lookup n (insert n (user_refreshed refresh_all) b.updates)
        ≡ some (user_refreshed refresh_all) =
      lookup-insert n n (user_refreshed refresh_all) b.updates ∙ rw (beq_refl n) refl in
    subst (λ (s : Store). get_event fuel user x s ≡ (shown_refresh n (to_user acc), s))
      (sym (refreshed user b acc found))
      (get_event-answer fuel user user x b' (restart n acc)
          (find_key-adjust user user (restart n) b.accounts (λ acc. refl) ∙ named) found'
        ∙ ap (λ r. (r, b')) (answer-restart fuel n x b' acc old small known))
