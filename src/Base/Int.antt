-- ===== src/Base/Int.antt =====
-- Go's `int`: a signed integer of 64 bits. `negsuc n` is -(n + 1).
use Prim.Native.Nat.{ℕ, ◌+◌, ◌-◌, ◌^◌, ◌≤◌}
use mathlib.Core.Path.{◌≡◌}
use native.Mathlib.Omega.{arith}
use go_proton_api.Base.Tests.{leb, if◌then◌else◌}

pub data ℤ : Type 0 where
  pos : ℕ → ℤ
  negsuc : ℕ → ℤ

abbrev pub max_int : ℕ
max_int = 2 ^ 63 - 1

-- The sum of a length and a number that is not negative, with the wrap-around of 64 bits.
unfoldable pub add_len : ℕ → ℕ → ℤ
add_len a b = let n = a + b in if leb n max_int then pos n else negsuc (2 ^ 64 - 1 - n)

pub add_len_small : (a b : ℕ) → a + b ≤ max_int → add_len a b ≡ pos (a + b)
unfolding add_len
add_len_small a b h = ground arith
