-- ===== src/Client/MessageList/Collected.antt =====
-- The client's loop over the server's pages.
use go_proton_api.Base.{
  ℕ, zero, suc, ◌+◌, ◌≤◌, ◌<◌, String, List, [], ◌∷◌, ◌++◌, length, take, length-drop, drop, ◌≡◌,
  refl, sym, ap, ◌∙◌, subst, arith,
}
use mathlib.Core.List.{append_assoc, append-nil}
use go_proton_api.Base.Int.{pos, max_int}
use go_proton_api.Backend.Exec.{Outcome, returned, checked}
use go_proton_api.Backend.Mailbox.{message_page}
use go_proton_api.Backend.Mailbox.Pages.{IsIdList, message_page_first, message_page_next}
use go_proton_api.Client.MessageList.{collect_ids, get_all_message_ids, last_id, max_message_ids}

-- The server's answer to a request for the ids after `after_id`.
abbrev pub serve_page : List String → String → Outcome (List String)
serve_page ids after_id = checked (message_page ids after_id (pos max_message_ids))

-- The client asks after the last of the ids that it has.
data Asks : List String → String → Type 0 where
  from_start : Asks [] ""
  after : (ps : List String) (x : String) → Asks (ps ++ x ∷ []) x

Asks-last : (ids xs : List String) (x : String) → Asks (ids ++ x ∷ xs) (last_id x xs)
Asks-last ids [] x = after ids x
Asks-last ids (y ∷ ys) x =
    subst (λ t. Asks t (last_id y ys)) (append_assoc ids (x ∷ []) (y ∷ ys))
      (Asks-last (ids ++ x ∷ []) ys y)

serve_page_rest :
    (have rest : List String) (after_id : String)
    → Asks have after_id
    → IsIdList (have ++ rest)
    → length (have ++ rest) + max_message_ids ≤ max_int
    → serve_page (have ++ rest) after_id ≡ returned (take max_message_ids rest)
serve_page_rest have rest after_id from_start ids small =
    ap checked (message_page_first rest 999 small)
serve_page_rest have rest after_id (after ps x) ids small =
    subst
      (λ t.
        IsIdList t
        → length t + max_message_ids ≤ max_int
        → serve_page t x ≡ returned (take max_message_ids rest))
      (sym (append_assoc ps (x ∷ []) rest))
      (λ i s. ap checked (message_page_next ps rest x 999 i s)) ids small

take_and_drop : (n : ℕ) (xs : List String) → take n xs ++ drop n xs ≡ xs
take_and_drop zero xs = refl
take_and_drop (suc n) [] = refl
take_and_drop (suc n) (x ∷ xs) = ap (λ t. x ∷ t) (take_and_drop n xs)

collect_ids-rest :
    (fuel : ℕ) (have rest : List String) (after_id : String)
    → Asks have after_id
    → IsIdList (have ++ rest)
    → length (have ++ rest) + max_message_ids ≤ max_int
    → length rest < fuel
    → collect_ids (serve_page (have ++ rest)) fuel after_id have ≡ returned (have ++ rest)
unfolding collect_ids
collect_ids-rest zero have rest after_id asks ids small enough = absurd (omega arith)
collect_ids-rest (suc fuel) have [] after_id asks ids small enough =
    rw (serve_page_rest have [] after_id asks ids small) (ap returned (sym (append-nil have)))
collect_ids-rest (suc fuel) have (x ∷ xs) after_id asks ids small enough =
    let page : List String = take 999 xs in
    let left : List String = drop 999 xs in
    let joined : (have ++ x ∷ page) ++ left ≡ have ++ x ∷ xs =
      append_assoc have (x ∷ page) left ∙ ap (λ t. have ++ x ∷ t) (take_and_drop 999 xs) in
    rw (serve_page_rest have (x ∷ xs) after_id asks ids small) (
      subst
        (λ t.
          IsIdList t
          → length t + max_message_ids ≤ max_int
          → collect_ids (serve_page t) fuel (last_id x page) (have ++ x ∷ page) ≡ returned t)
        joined
        (λ i s.
          collect_ids-rest fuel (have ++ x ∷ page) left (last_id x page) (Asks-last have page x) i s
            (omega (arith, length-drop 999 xs)))
        ids small)

-- On a list of ids without repetitions, shorter than the largest int by a page, the client's loop
-- ends and returns the whole list, whatever the number of pages. One round for each id, and one
-- more, are enough.
pub get_all_message_ids_complete :
    (ids : List String) (fuel : ℕ)
    → IsIdList ids
    → length ids + max_message_ids ≤ max_int
    → length ids < fuel
    → get_all_message_ids (serve_page ids) fuel "" ≡ returned ids
unfolding get_all_message_ids
get_all_message_ids_complete ids fuel wf small enough =
    collect_ids-rest fuel [] ids "" from_start wf small enough
