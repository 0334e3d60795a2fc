-- ===== src/Client/ContactList/Served.antt =====
-- The contacts that a client lists, against the backend that answers its requests.
use go_proton_api.Base.{
  ℕ, suc, ◌+◌, ◌*◌, ◌/◌, ◌%◌, ◌≤◌, nat_eq, leb, String, string_eq, Option, none, some, Option-cases,
  List, [], ◌∷◌, ◌++◌, ◌==◌, get_elem?, length, length-append, ◌≡◌, refl, sym, ap, ◌∙◌, subst,
  arith, ◌&&◌, ◌||◌, not, Bool-cases, inl, inr, if◌then◌else◌,
}
use mathlib.Core.List.{append-nil, append_assoc}
use go_proton_api.Base.Assoc.{Assoc, find_key, lookup, values}
use go_proton_api.Backend.Types.{Account, Contact}
use go_proton_api.Backend.Exec.{Outcome, returned, panicked}
use go_proton_api.Backend.Store.{Store, get_acc, with_acc_ret}
use go_proton_api.Backend.Contacts.{get_user_contacts, insert_by, sort_by}
use go_proton_api.Client.Paging.Whole.{AreChunks, concat, count_chunks}
use go_proton_api.Client.ContactList.{get_all, get_all_paged, more_pages}

module _ {T : Type 0} where
  -- The answer with a page, which is out of range past the last.
  abbrev pub page_at : ℕ → Option (List T) → Outcome (ℕ × List T)
  page_at total none = panicked
  page_at total (some page) = returned (total, page)

  chunks_hold : (cs : List (List T)) → AreChunks 150 cs → length (concat cs) ≤ length cs * 150
  chunks_hold [] h = omega arith
  chunks_hold (c ∷ []) h = omega (arith, length-append c [])
  chunks_hold (c ∷ d ∷ cs) h =
      omega (arith, length-append c (concat (d ∷ cs)), chunks_hold (d ∷ cs) h.1)

  module _ (ask : ℕ → ℕ → Outcome (ℕ × List T)) (total : ℕ) where
    shifted :
        (page : ℕ) (c : List T) (cs : List (List T))
        → ((j : ℕ) → ask (page + j) 150 ≡ page_at total (get_elem? (c ∷ cs) j))
        → (j : ℕ) → ask (suc page + j) 150 ≡ page_at total (get_elem? cs j)
    shifted page c cs pages j =
        subst (λ k. ask k 150 ≡ page_at total (get_elem? cs j)) (omega arith) (pages (suc j))

    more_pages-here :
        (page : ℕ) (cs : List (List T))
        → ((j : ℕ) → ask (page + j) 150 ≡ page_at total (get_elem? cs j))
        → ask page 150 ≡ page_at total (get_elem? cs 0)
    more_pages-here page cs pages =
        subst (λ k. ask k 150 ≡ page_at total (get_elem? cs 0)) (omega arith) (pages 0)

    more_pages-all :
        (cs : List (List T)) (page : ℕ) (found : List T)
        → ((j : ℕ) → ask (page + j) 150 ≡ page_at total (get_elem? cs j))
        → more_pages ask (length cs) page 150 found ≡ returned (found ++ concat cs)
    unfolding more_pages
    more_pages-all [] page found pages = ap returned (sym (append-nil found))
    more_pages-all (c ∷ cs) page found pages = rw (more_pages-here page (c ∷ cs) pages) (
        more_pages-all cs (suc page) (found ++ c) (shifted page c cs pages)
        ∙ ap returned (append_assoc found c (concat cs)))

    more_pages-past :
        (cs : List (List T)) (page extra : ℕ) (found : List T)
        → ((j : ℕ) → ask (page + j) 150 ≡ page_at total (get_elem? cs j))
        → more_pages ask (suc (extra + length cs)) page 150 found ≡ panicked
    unfolding more_pages
    more_pages-past [] page extra found pages = rw (more_pages-here page [] pages) refl
    more_pages-past (c ∷ cs) page extra found pages =
        let n : suc (extra + length cs) ≡ extra + length (c ∷ cs) = omega arith in
        rw (more_pages-here page (c ∷ cs) pages)
          (rw (← n) (more_pages-past cs (suc page) extra (found ++ c) (shifted page c cs pages)))

  first_page :
      (ask : ℕ → ℕ → Outcome (ℕ × List T)) (n : ℕ) (c : List T)
      → ask 0 150 ≡ returned (n, c)
      → get_all ask ≡ (if leb n 150 then returned c else more_pages ask (n / 150) 1 150 c)
  unfolding get_all get_all_paged
  first_page ask n c h = rw (get_all, get_all_paged, h) refl

  not_empty :
      (c : List T) (cs : List (List T)) → AreChunks 150 (c ∷ cs) → 1 ≤ length (concat (c ∷ cs))
  not_empty c [] h = omega (arith, length-append c [])
  not_empty c (d ∷ cs) h = omega (arith, length-append c (concat (d ∷ cs)))

  after_first :
      (ask : ℕ → ℕ → Outcome (ℕ × List T)) (n : ℕ) (cs : List (List T))
      → ((j : ℕ) → ask j 150 ≡ page_at n (get_elem? cs j))
      → (j : ℕ) → ask (1 + j) 150 ≡ page_at n (get_elem? cs (suc j))
  after_first ask n cs pages j =
      let next : suc j ≡ 1 + j = omega arith in
      subst (λ k. ask k 150 ≡ page_at n (get_elem? cs (suc j))) next (pages (suc j))

  only_page :
      (c : List T) (cs : List (List T))
      → AreChunks 150 (c ∷ cs)
      → length (concat (c ∷ cs)) ≤ 150
      → concat (c ∷ cs) ≡ c
  only_page c [] h few = append-nil c
  only_page c (d ∷ cs) h few =
      absurd (omega (arith, length-append c (concat (d ∷ cs)), not_empty d cs h.1))

  pub get_all-pages :
      (ask : ℕ → ℕ → Outcome (ℕ × List T)) (cs : List (List T))
      → AreChunks 150 cs
      → ((j : ℕ) → ask j 150 ≡ page_at (length (concat cs)) (get_elem? cs j))
      → get_all ask ≡ (
          if length (concat cs) == 0
            || (not (leb (length (concat cs)) 150) && length (concat cs) % 150 == 0)
          then panicked
          else returned (concat cs))
  unfolding get_all get_all_paged
  get_all-pages ask [] chunks pages = rw (pages 0) refl
  get_all-pages ask (c ∷ cs) chunks pages =
      let n = length (concat (c ∷ cs)) in
      let some_page = not_empty c cs chunks in
      let few = count_chunks (c ∷ cs) chunks in
      let enough = chunks_hold (c ∷ cs) chunks in
      let rest = after_first ask n (c ∷ cs) pages in
      first_page ask n c (pages 0) ∙ elim (Bool-cases (leb n 150)) [
        | inl e ↦ let only = only_page c cs chunks (ground arith) in ground arith
        | inr e ↦ elim (Bool-cases (n % 150 == 0)) [
          | inl z ↦
              let count : n / 150 ≡ suc (0 + length cs) = ground arith in
              rw (e, z, count) (more_pages-past ask n cs 1 0 c rest ∙ ground arith)
          | inr z ↦
              let count : n / 150 ≡ length cs = ground arith in
              rw (e, z, count) (more_pages-all ask n cs 1 c rest ∙ ground arith)
        ]
      ]

length-values : {K V : Type 0} (m : Assoc K V) → length (values m) ≡ length m
unfolding values
length-values [] = refl
length-values ((k, v) ∷ m) = ap suc (length-values m)

length-insert_by :
    {A : Type 0} (key : A → String) (x : A) (xs : List A)
    → length (insert_by key x xs) ≡ suc (length xs)
unfolding insert_by
length-insert_by key x [] = refl
length-insert_by key x (y ∷ ys) = let rest = length-insert_by key x ys in ground arith

length-sort_by : {A : Type 0} (key : A → String) (xs : List A) → length (sort_by key xs) ≡ length xs
unfolding sort_by
length-sort_by key [] = refl
length-sort_by key (x ∷ xs) =
    length-insert_by key x (sort_by key xs) ∙ ap suc (length-sort_by key xs)

abbrev pub served_contacts :
    (ℕ → List Contact → List (List Contact)) → String → Store → ℕ → ℕ → Outcome (ℕ × List Contact)
served_contacts chunk user_id b page size = (get_user_contacts chunk user_id page size b).0

abbrev pub by_id : Account → List Contact
by_id acc = sort_by (λ c. c.id) (values acc.contacts)

module _ (chunk : ℕ → List Contact → List (List Contact)) (user_id p : String) (b : Store)
    (acc : Account) (found : find_key (λ acc. acc.user_id == user_id) b.accounts ≡ some p)
    (held : lookup p b.accounts ≡ some acc) where
  served_page :
      (j : ℕ)
      → get_user_contacts chunk user_id j 150 b
        ≡ (page_at (length acc.contacts) (get_elem? (chunk 150 (by_id acc)) j), b)
  unfolding get_user_contacts with_acc_ret get_acc
  served_page j = elim (Option-cases (get_elem? (chunk 150 (by_id acc)) j)) [
    | inl e ↦ rw (get_user_contacts, with_acc_ret, get_acc, found, held, e) refl
    | inr (c, e) ↦ rw (get_user_contacts, with_acc_ret, get_acc, found, held, e) refl
  ]

  -- A client that lists all contacts from the backend gets them in the order of their ids, except where a request makes the backend index past its pages and panic: there are no contacts, or more than one page of 150 and the last is full. The account is found, and chunks put together give the list, each of them full but the last.
  pub get_all_contacts_served :
      AreChunks 150 (chunk 150 (by_id acc))
      → concat (chunk 150 (by_id acc)) ≡ (by_id acc)
      → get_all (served_contacts chunk user_id b) ≡ (
          if length acc.contacts == 0
            || (not (leb (length acc.contacts) 150) && length acc.contacts % 150 == 0)
          then panicked
          else returned (by_id acc))
  get_all_contacts_served chunks whole =
      let count : length (concat (chunk 150 (by_id acc))) ≡ length acc.contacts =
        ap length whole
        ∙ length-sort_by (λ c. c.id) (values acc.contacts)
        ∙ length-values acc.contacts in
      let answers =
        get_all-pages (served_contacts chunk user_id b) (chunk 150 (by_id acc)) chunks (λ j.
          ap (λ r. r.0) (served_page j)
          ∙ ap (λ n. page_at n (get_elem? (chunk 150 (by_id acc)) j)) (sym count)) in
      answers
      ∙ ap
          (λ n.
            if n == 0 || (not (leb n 150) && n % 150 == 0)
            then panicked
            else returned (concat (chunk 150 (by_id acc))))
          count
      ∙ ap
          (λ cs.
            if length acc.contacts == 0
              || (not (leb (length acc.contacts) 150) && length acc.contacts % 150 == 0)
            then panicked
            else returned cs)
          whole
