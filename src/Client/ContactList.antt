-- ===== src/Client/ContactList.antt =====
-- `GetAllContactsPaged` and `GetAllContactEmailsPaged` of contact.go, which read one page after the other.
pub mod Served
use go_proton_api.Base.{
  ℕ, zero, suc, ◌+◌, ◌/◌, nat_eq, leb, ltb, List, [], ◌∷◌, ◌++◌, ◌==◌, if◌then◌else◌,
}
use go_proton_api.Backend.Exec.{Outcome, returned, panicked, and_then}
use go_proton_api.Client.Paging.{max_page_size}

module _ {T : Type 0} (ask : ℕ → ℕ → Outcome (ℕ × List T)) where
  -- The rounds of the loop that are left, and the next page.
  unfoldable pub more_pages : ℕ → ℕ → ℕ → List T → Outcome (List T)
  more_pages zero page page_size found = returned found
  more_pages (suc n) page page_size found =
      and_then (ask page page_size) λ r. more_pages n (suc page) page_size (found ++ r.1)

  -- A page size of zero is a division by zero.
  unfoldable pub get_all_paged : ℕ → Outcome (List T)
  unfolding more_pages
  get_all_paged page_size =
      let size = if ltb max_page_size page_size then max_page_size else page_size in
      and_then (ask 0 size) λ r.
        if leb r.0 size
        then returned r.1
        else if size == 0
        then panicked
        else more_pages (r.0 / size) 1 size r.1

  -- `GetAllContacts` and `GetAllContactEmails`.
  unfoldable pub get_all : Outcome (List T)
  unfolding get_all_paged
  get_all = get_all_paged max_page_size
