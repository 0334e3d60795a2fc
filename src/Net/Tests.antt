-- ===== src/Net/Tests.antt =====
-- Two reads of three bytes and a write of two, under limits of four and one.
use go_proton_api.Base.{
  ℕ, ◌≤◌, Bool, true, List, [], ◌∷◌, length, length-take, take, arith, ◌≡◌, refl,
}
use go_proton_api.Net.Control.{new_net_ctl, set_read_limit, set_write_limit}
use go_proton_api.Net.Control.Limits.{Reader, limits_hold, read_all, write_all}

abbrev stream : Reader
stream n = (take n (1 ∷ 2 ∷ 3 ∷ []), true)

stream-IsReader : (n : ℕ) → length (stream n).0 ≤ n
stream-IsReader n = omega (arith, length-take {A = ℕ} n (1 ∷ 2 ∷ 3 ∷ []))

abbrev sink : List ℕ → ℕ × Bool
sink bytes = (length bytes, true)

sink-IsWriter : (bytes : List ℕ) → (sink bytes).0 ≤ length bytes
sink-IsWriter bytes = omega arith

limits_hold_example :
    (length (read_all ((stream, 3) ∷ (stream, 3) ∷ []) (set_read_limit 4 new_net_ctl)).0 ≤ 4)
    × (length (write_all ((sink, 7 ∷ 8 ∷ []) ∷ []) (set_write_limit 1 new_net_ctl)).0 ≤ 1)
limits_hold_example =
    limits_hold ((stream, 3) ∷ (stream, 3) ∷ []) ((sink, 7 ∷ 8 ∷ []) ∷ []) 4 1 new_net_ctl
      (omega arith) (omega arith) (omega arith) (omega arith)
      (stream-IsReader, (stream-IsReader, tt)) (sink-IsWriter, tt)

read_four :
    (read_all ((stream, 3) ∷ (stream, 3) ∷ []) (set_read_limit 4 new_net_ctl)).0
    ≡ 1 ∷ 2 ∷ 3 ∷ 1 ∷ []
unfolding read_all set_read_limit new_net_ctl
read_four = refl
