-- ===== src/Backend/Tests/EventsTest.antt =====
-- A stream of five updates, read in windows of two.
use go_proton_api.Base.{ℕ, nat_eq, some, List, [], ◌∷◌, ◌≡◌, refl, arith}
use go_proton_api.Base.Int.{pos}
use go_proton_api.Backend.Events.{Window, event_window}
use go_proton_api.Backend.Events.Paging.{Covers, event_window-Covers}

abbrev pub stream : List ℕ
stream = 0 ∷ 2 ∷ 3 ∷ 7 ∷ 9 ∷ []

event_window-Covers_example :
    (w : Window) × (event_window stream (pos 2) 0 ≡ some w) × Covers stream 1 w
event_window-Covers_example =
    event_window-Covers stream 10 (pos 2) 0 0 (omega arith) refl (omega arith)
