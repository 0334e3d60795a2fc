-- ===== src/Backend/Events/Paging.antt =====
-- The windows of `GetEvent`: where each begins and ends, and that following them covers the stream.
use go_proton_api.Base.{
  ℕ, zero, suc, ◌+◌, ◌-◌, ◌≤◌, ◌<◌, nat_eq, not, some, List, [], ◌∷◌, ◌==◌, ltb, length, get_elem?,
  take, drop, index_plus_one, ◌≡◌, refl, arith, inl, inr, Bool-cases,
}
use go_proton_api.Base.Int.{ℤ, pos, negsuc, add_len_small, max_int}
use go_proton_api.Backend.Store.Ordered.{Ascends}
use go_proton_api.Backend.Events.{get_last_update_index, Window, event_window}

-- The window of at most `max` updates ends inside the stream and, unless the stream is used up, after
-- at least one update.
pub get_last_update_index_bounds :
    (total first max : ℕ)
    → first ≤ total
    → total + max ≤ max_int
    → (last : ℕ) × (get_last_update_index total first (pos max) ≡ pos last)
      × (first ≤ last)
      × (last ≤ total)
      × (first < total → first < last)
unfolding get_last_update_index
get_last_update_index_bounds total first zero h small =
    (total, refl, omega arith, omega arith, omega arith)
get_last_update_index_bounds total first (suc m) h small =
    elim (Bool-cases (ltb total (first + suc m))) [
      | inl e ↦ (
        total,
        ground (arith, add_len_small first (suc m)),
        omega arith,
        omega arith,
        omega arith,
      )
      | inr e ↦ (
        first + suc m,
        ground (arith, add_len_small first (suc m)),
        omega arith,
        ground arith,
        omega arith,
      )
    ]

get_elem?_bounds {ℓ} :
    {A : Type ℓ} (xs : List A) (i : ℕ) → i < length xs → (x : A) × (get_elem? xs i ≡ some x)
get_elem?_bounds [] i h = elim h [ ]
get_elem?_bounds (x ∷ xs) zero h = (x, refl)
get_elem?_bounds (x ∷ xs) (suc i) h = get_elem?_bounds xs i (omega arith)

Ascends-le :
    (lo hi : ℕ) (xs : List ℕ) (i x : ℕ) → Ascends lo hi xs → get_elem? xs i ≡ some x → lo ≤ x
Ascends-le lo hi [] i x a h = absurd (cc)
Ascends-le lo hi (y ∷ ys) zero x a h = ground arith
Ascends-le lo hi (y ∷ ys) (suc i) x a h = omega (arith, Ascends-le (suc y) hi ys i x a.1 h)

-- In an ascending stream an id is found where it stands.
pub index-get_elem? :
    (lo hi : ℕ) (xs : List ℕ) (i x : ℕ)
    → Ascends lo hi xs
    → get_elem? xs i ≡ some x
    → index_plus_one xs x ≡ suc i
unfolding index_plus_one
index-get_elem? lo hi [] i x a h = absurd (cc)
index-get_elem? lo hi (y ∷ ys) zero x a h = ground arith
index-get_elem? lo hi (y ∷ ys) (suc i) x a h =
    ground (arith, Ascends-le (suc y) hi ys i x a.1 h, index-get_elem? (suc y) hi ys i x a.1 h)

-- The window that starts after the first `first` updates.
pub record Covers (ids : List ℕ) (first : ℕ) (w : Window) : Type 0 where
  pub end : ℕ
  pub from : first ≤ end
  pub to : end ≤ length ids
  pub holds : w.ids ≡ take (end - first) (drop first ids)
  pub names : get_elem? ids (end - 1) ≡ some w.last
  pub moves : first < length ids → first < end
  pub goes_on : w.more ≡ not (end == length ids)

-- The limit, added to the length of the stream, does not overflow.
abbrev pub IsSmall : ℤ → ℕ → Type 0
IsSmall (pos m) total = total + m ≤ max_int
IsSmall (negsuc m) total = Unit

last_update_bounds :
    (total first : ℕ) (max : ℤ)
    → first ≤ total
    → IsSmall max total
    → (last : ℕ) × (get_last_update_index total first max ≡ pos last)
      × (first ≤ last)
      × (last ≤ total)
      × (first < total → first < last)
last_update_bounds total first (pos m) h small = get_last_update_index_bounds total first m h small
last_update_bounds total first (negsuc m) h small =
    (total, unfold get_last_update_index in refl, h, omega arith, omega arith)

pub get_elem?-lt {ℓ} :
    {A : Type ℓ} (xs : List A) (i : ℕ) {x : A} → get_elem? xs i ≡ some x → i < length xs
get_elem?-lt [] i h = absurd (cc)
get_elem?-lt (y ∷ ys) zero h = omega arith
get_elem?-lt (y ∷ ys) (suc i) h = omega (arith, get_elem?-lt ys i h)

abbrev window_at : List ℕ → ℕ → ℕ → ℕ → Window
window_at ids first end last = record {
  ids = take (end - first) (drop first ids);
  last = last;
  more = not (end == length ids);
}

event_window_lem :
    (ids : List ℕ) (max : ℤ) (x first end last : ℕ)
    → index_plus_one ids x ≡ first
    → get_last_update_index (length ids) first max ≡ pos end
    → first ≤ end
    → end ≤ length ids
    → 0 < end
    → get_elem? ids (end - 1) ≡ some last
    → event_window ids max x ≡ some (window_at ids first end last)
unfolding event_window
event_window_lem ids max x first end last at e lo up some_end q = ground arith

-- After any id of an ascending stream `GetEvent` finds its window: it begins with the next update.
pub event_window-Covers :
    (ids : List ℕ) (hi : ℕ) (max : ℤ) (i x : ℕ)
    → Ascends 0 hi ids
    → get_elem? ids i ≡ some x
    → IsSmall max (length ids)
    → (w : Window) × (event_window ids max x ≡ some w) × Covers ids (suc i) w
event_window-Covers ids hi max i x a h small =
    let at : index_plus_one ids x ≡ suc i = index-get_elem? 0 hi ids i x a h in
    let inside = get_elem?-lt ids i h in
    let (last, e, lo, up, goes) = last_update_bounds (length ids) (suc i) max (omega arith) small in
    let (y, q) = get_elem?_bounds ids (last - 1) (omega arith) in
    (
      window_at ids (suc i) last y,
      event_window_lem ids max x (suc i) last y at e lo up (omega arith) q,
      record {
        end = last;
        from = lo;
        to = up;
        holds = refl;
        names = q;
        moves = goes;
        goes_on = refl;
      },
    )
