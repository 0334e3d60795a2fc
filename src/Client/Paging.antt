-- ===== src/Client/Paging.antt =====
-- paging.go, and the methods of message.go that read metadata in pages.
pub mod Whole
pub mod Served
use go_proton_api.Base.{
  ℕ, zero, suc, ◌+◌, ◌/◌, Bool, true, false, nat_eq, List, ◌==◌, if◌then◌else◌,
}
use go_proton_api.Backend.Exec.{Outcome, returned, panicked, stuck, and_then}

-- `maxPageSize`.
abbrev pub max_page_size : ℕ
max_page_size = 150

-- `collect n` stands for the stream of juniper: the results of a function at 0 to n - 1, put together.
-- A division by zero is a panic; `total` is a length and not negative.
module _ {T : Type 0} (collect : ℕ → (ℕ → Outcome (List T)) → Outcome (List T)) where
  unfoldable pub fetch_paged : ℕ → ℕ → (ℕ → ℕ → Outcome (List T)) → Outcome (List T)
  fetch_paged total page_size fn =
      if page_size == 0
      then panicked
      else collect (total / page_size + 1) (λ page. fn page page_size)

  -- `GetMessageMetadata`, with its two requests.
  unfoldable pub get_message_metadata : Outcome ℕ → (ℕ → ℕ → Outcome (List T)) → Outcome (List T)
  unfolding fetch_paged
  get_message_metadata count get_page =
      and_then count λ total. fetch_paged total max_page_size get_page

-- The loop of `GetMessageMetadataPage`: `ask k` is the answer to the request made for the k-th time, with
-- its flag Stale. Running out of fuel is `stuck`.
unfoldable pub ask_until_fresh :
    {T : Type 0} → ℕ → ℕ → (ℕ → Outcome (List T × Bool)) → Outcome (List T)
ask_until_fresh zero k ask = stuck
ask_until_fresh (suc fuel) k ask =
    and_then (ask k)
      λ r. elim r.1 [ true ↦ ask_until_fresh fuel (suc k) ask | false ↦ returned r.0 ]
