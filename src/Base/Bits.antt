-- ===== src/Base/Bits.antt =====
-- Laws of `&` and `|` on words of any width, from the recursion on binary digits.
use Prim.Native.Nat.{
  ℕ, zero, suc, ◌+◌, ◌-◌, ◌*◌, ◌/◌, ◌%◌, ◌≤◌, min, max, bit_and, bit_or, digits, bitwise,
  bit_and-bitwise, bit_or-bitwise,
}
use mathlib.Core.Path.{◌≡◌, refl, ap}
use native.Mathlib.Omega.{arith}

-- More fuel than the number has digits changes nothing.
module _ (rest : ℕ → ℕ) (op : ℕ → ℕ → ℕ) where
  spare_fuel :
      (least fuel x y : ℕ)
      → x ≤ least
      → least ≤ fuel
      → digits rest op fuel x y ≡ digits rest op least x y
  spare_fuel zero zero x y enough spare = refl
  spare_fuel zero (suc fuel) zero y enough spare = refl
  spare_fuel zero (suc fuel) (suc x) y enough spare = absurd (omega arith)
  spare_fuel (suc least) zero x y enough spare = absurd (omega arith)
  spare_fuel (suc least) (suc fuel) zero y enough spare = refl
  spare_fuel (suc least) (suc fuel) (suc x) y enough spare =
      rw (spare_fuel least fuel (suc x / 2) (y / 2) (omega arith) (omega arith))

  lowest_digit :
      (x y : ℕ)
      → bitwise rest op (suc x) y ≡ op (suc x % 2) (y % 2) + 2 * bitwise rest op (suc x / 2) (y / 2)
  lowest_digit x y =
      omega (arith, spare_fuel (suc x / 2) x (suc x / 2) (y / 2) (omega arith) (omega arith))

pub bit_and_step : (x y : ℕ) → bit_and x y ≡ min (x % 2) (y % 2) + 2 * bit_and (x / 2) (y / 2)
bit_and_step zero y = omega (arith, bit_and-bitwise zero y, bit_and-bitwise zero (y / 2))
bit_and_step (suc x) y = omega (
  arith,
  bit_and-bitwise (suc x) y,
  bit_and-bitwise (suc x / 2) (y / 2),
  lowest_digit (λ _. 0) min x y,
)

pub bit_or_step : (x y : ℕ) → bit_or x y ≡ max (x % 2) (y % 2) + 2 * bit_or (x / 2) (y / 2)
bit_or_step zero y = omega (arith, bit_or-bitwise zero y, bit_or-bitwise zero (y / 2))
bit_or_step (suc x) y = omega (
  arith,
  bit_or-bitwise (suc x) y,
  bit_or-bitwise (suc x / 2) (y / 2),
  lowest_digit (λ rest. rest) max x y,
)

-- The flag is there after it was set.
absorb_fuel : (n f m : ℕ) → f + m ≤ n → bit_and (bit_or f m) m ≡ m
absorb_fuel zero zero zero h = refl
absorb_fuel zero zero (suc m) h = absurd (omega arith)
absorb_fuel zero (suc f) m h = absurd (omega arith)
absorb_fuel (suc n) zero zero h = refl
absorb_fuel (suc n) zero (suc m) h = omega (
  arith,
  bit_and_step (bit_or 0 (suc m)) (suc m),
  bit_or_step 0 (suc m),
  ap (λ t. bit_and t (suc m / 2)) (half 0 (suc m)),
  absorb_fuel n 0 (suc m / 2) (omega arith),
)
  where
    half : (a b : ℕ) → bit_or a b / 2 ≡ bit_or (a / 2) (b / 2)
    half a b = omega (arith, bit_or_step a b)
absorb_fuel (suc n) (suc f) m h = omega (
  arith,
  bit_and_step (bit_or (suc f) m) m,
  bit_or_step (suc f) m,
  ap (λ t. bit_and t (m / 2)) (half (suc f) m),
  absorb_fuel n (suc f / 2) (m / 2) (omega arith),
)
  where
    half : (a b : ℕ) → bit_or a b / 2 ≡ bit_or (a / 2) (b / 2)
    half a b = omega (arith, bit_or_step a b)

pub bit_and-bit_or_self : (f m : ℕ) → bit_and (bit_or f m) m ≡ m
bit_and-bit_or_self f m = absorb_fuel (f + m) f m (omega arith)

bit_and-le_fuel : (n f m : ℕ) → f ≤ n → bit_and f m ≤ f
bit_and-le_fuel n zero m h = omega (arith, bit_and-bitwise 0 m)
bit_and-le_fuel zero (suc f) m h = absurd (omega arith)
bit_and-le_fuel (suc n) (suc f) m h =
    omega (arith, bit_and_step (suc f) m, bit_and-le_fuel n (suc f / 2) (m / 2) (omega arith))

pub bit_and-le : (f m : ℕ) → bit_and f m ≤ f
bit_and-le f m = bit_and-le_fuel f f m (omega arith)

-- `f &^ m`, as a difference: the flag is gone after it was cleared.
cleared_fuel : (n f m : ℕ) → f ≤ n → bit_and (f - bit_and f m) m ≡ 0
cleared_fuel n zero m h =
    let none_left : 0 - bit_and 0 m ≡ 0 = omega arith in
    omega (arith, ap (λ t. bit_and t m) none_left, bit_and-bitwise 0 m)
cleared_fuel zero (suc f) m h = absurd (omega arith)
cleared_fuel (suc n) (suc f) m h = omega (
  arith,
  bit_and_step (suc f - bit_and (suc f) m) m,
  ap (λ t. bit_and t (m / 2)) half,
  bit_and_step (suc f) m,
  bit_and-le (suc f / 2) (m / 2),
  cleared_fuel n (suc f / 2) (m / 2) (omega arith),
)
  where
    half : (suc f - bit_and (suc f) m) / 2 ≡ suc f / 2 - bit_and (suc f / 2) (m / 2)
    half = omega (arith, bit_and_step (suc f) m, bit_and-le (suc f / 2) (m / 2))

pub bit_and-cleared : (f m : ℕ) → bit_and (f - bit_and f m) m ≡ 0
bit_and-cleared f m = cleared_fuel f f m (omega arith)
