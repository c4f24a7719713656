-- ===== src/Prelude/Bits.antt =====
-- Facts about `bit_and` and `bit_or` at variables, from the digit recursion that they stand for.
use Prim.Native.Nat.{
  ℕ, zero, suc, ◌+◌, ◌*◌, ◌/◌, ◌%◌, ◌^◌, ◌≤◌, ◌<◌, min, max, bit_and, bit_or, digits,
  bit_and-bitwise, bit_or-bitwise,
}
use mathlib.Core.Path.{◌≡◌, refl, ap}
use native.Mathlib.Nat.{pow-suc}
use native.Mathlib.Omega.{arith}

-- The fuel of `digits` does not matter once it reaches the first number.
module _ (rest : ℕ → ℕ) (op : ℕ → ℕ → ℕ) where
  digits_any_fuel : (n m a b : ℕ) → a ≤ n → a ≤ m → digits rest op n a b ≡ digits rest op m a b
  digits_any_fuel zero zero a b p q = refl
  digits_any_fuel (suc n) zero zero b p q = refl
  digits_any_fuel (suc n) zero (suc a) b p q = absurd (omega arith)
  digits_any_fuel zero (suc m) zero b p q = refl
  digits_any_fuel zero (suc m) (suc a) b p q = absurd (omega arith)
  digits_any_fuel (suc n) (suc m) zero b p q = refl
  digits_any_fuel (suc n) (suc m) (suc a) b p q =
      rw (digits_any_fuel n m (suc a / 2) (b / 2) (omega arith) (omega arith))

pub and_lowest : (a b : ℕ) → bit_and a b ≡ bit_and (a / 2) (b / 2) * 2 + min (a % 2) (b % 2)
and_lowest zero b = omega (arith, bit_and-bitwise 0 b, bit_and-bitwise 0 (b / 2))
and_lowest (suc a) b = omega (
  arith,
  bit_and-bitwise (suc a) b,
  bit_and-bitwise (suc a / 2) (b / 2),
  digits_any_fuel (λ b. zero) min a (suc a / 2) (suc a / 2) (b / 2) (omega arith) (omega arith),
)

or_lowest : (a b : ℕ) → bit_or a b ≡ bit_or (a / 2) (b / 2) * 2 + max (a % 2) (b % 2)
or_lowest zero b = omega (arith, bit_or-bitwise 0 b, bit_or-bitwise 0 (b / 2))
or_lowest (suc a) b = omega (
  arith,
  bit_or-bitwise (suc a) b,
  bit_or-bitwise (suc a / 2) (b / 2),
  digits_any_fuel (λ b. b) max a (suc a / 2) (suc a / 2) (b / 2) (omega arith) (omega arith),
)

or-zero_below : (n a : ℕ) → a ≤ n → bit_or a 0 ≡ a
or-zero_below n zero h = refl
or-zero_below zero (suc a) h = absurd (omega arith)
or-zero_below (suc n) (suc a) h =
    omega (arith, or_lowest (suc a) 0, or-zero_below n (suc a / 2) (omega arith))

and-zero_below : (n a : ℕ) → a ≤ n → bit_and a 0 ≡ 0
and-zero_below n zero h = refl
and-zero_below zero (suc a) h = absurd (omega arith)
and-zero_below (suc n) (suc a) h =
    omega (arith, and_lowest (suc a) 0, and-zero_below n (suc a / 2) (omega arith))

pub and-zero : (a : ℕ) → bit_and a 0 ≡ 0
and-zero a = and-zero_below a a (omega arith)

-- A field above `k` bits and one within them do not overlap.
pub or_disjoint : (k q r : ℕ) → r < 2 ^ k → bit_or (q * 2 ^ k) r ≡ q * 2 ^ k + r
or_disjoint zero q zero h = omega (arith, or-zero_below (q * 1) (q * 1) (omega arith))
or_disjoint zero q (suc r) h = absurd (omega arith)
or_disjoint (suc k) q r h = ground (
  arith,
  or_lowest (q * 2 ^ suc k) r,
  twice,
  or_disjoint k q (r / 2) (omega (arith, pow-suc 2 k)),
)
  where
    twice : q * 2 ^ suc k ≡ q * 2 ^ k * 2
    twice = omega (arith, ap (λ (t : ℕ). q * t) (pow-suc 2 k))

and_one : (a : ℕ) → bit_and a 1 ≡ a % 2
and_one a = omega (arith, and_lowest a 1, and-zero (a / 2))

and_7 : (a : ℕ) → bit_and a 0x7 ≡ a % 0x8
and_7 a = omega (arith, and_lowest a 7, and_lowest (a / 2) 3, and_one (a / 2 / 2))

and_3f : (a : ℕ) → bit_and a 0x3f ≡ a % 0x40
and_3f a = omega (
  arith,
  and_lowest a 0x3f,
  and_lowest (a / 2) 0x1f,
  and_lowest (a / 2 / 2) 0xf,
  and_7 (a / 2 / 2 / 2),
)

and_1ff : (a : ℕ) → bit_and a 0x1ff ≡ a % 0x200
and_1ff a = omega (
  arith,
  and_lowest a 0x1ff,
  and_lowest (a / 2) 0xff,
  and_lowest (a / 2 / 2) 0x7f,
  and_3f (a / 2 / 2 / 2),
)

-- The masks of ten and of twelve ones.
pub and_ten_ones : (a : ℕ) → bit_and a 1023 ≡ a % 1024
and_ten_ones a = omega (arith, and_lowest a 1023, and_1ff (a / 2))

pub and_twelve_ones : (a : ℕ) → bit_and a 4095 ≡ a % 4096
and_twelve_ones a =
    omega (arith, and_lowest a 4095, and_lowest (a / 2) 2047, and_ten_ones (a / 2 / 2))

-- Bits 0 and 3 of both operations.
or-bit0 : (a b : ℕ) → bit_or a b % 2 ≡ max (a % 2) (b % 2)
or-bit0 a b = omega (arith, or_lowest a b)

and-bit0 : (a b : ℕ) → bit_and a b % 2 ≡ min (a % 2) (b % 2)
and-bit0 a b = omega (arith, and_lowest a b)

or-halves : (a b : ℕ) → bit_or a b / 2 ≡ bit_or (a / 2) (b / 2)
or-halves a b = omega (arith, or_lowest a b)

and-halves : (a b : ℕ) → bit_and a b / 2 ≡ bit_and (a / 2) (b / 2)
and-halves a b = omega (arith, and_lowest a b)

pub or-bit3 : (a b : ℕ) → bit_or a b / 8 % 2 ≡ max (a / 8 % 2) (b / 8 % 2)
or-bit3 a b = omega (
  arith,
  or-halves a b,
  or-halves (a / 2) (b / 2),
  or-halves (a / 2 / 2) (b / 2 / 2),
  or-bit0 (a / 2 / 2 / 2) (b / 2 / 2 / 2),
)

pub and-bit3 : (a b : ℕ) → bit_and a b / 8 % 2 ≡ min (a / 8 % 2) (b / 8 % 2)
and-bit3 a b = omega (
  arith,
  and-halves a b,
  and-halves (a / 2) (b / 2),
  and-halves (a / 2 / 2) (b / 2 / 2),
  and-bit0 (a / 2 / 2 / 2) (b / 2 / 2 / 2),
)

-- A mask reads at least as much from a number after bits were set in it.
and-or_left_below : (n a b c : ℕ) → a ≤ n → bit_and a c ≤ bit_and (bit_or a b) c
and-or_left_below n zero b c h = omega (arith, bit_and-bitwise 0 c)
and-or_left_below zero (suc a) b c h = absurd (omega arith)
and-or_left_below (suc n) (suc a) b c h = omega (
  arith,
  and_lowest (suc a) c,
  and_lowest (bit_or (suc a) b) c,
  or-bit0 (suc a) b,
  ap (λ (x : ℕ). bit_and x (c / 2)) (or-halves (suc a) b),
  and-or_left_below n (suc a / 2) (b / 2) (c / 2) (omega arith),
)

pub and-or_left : (a b c : ℕ) → bit_and a c ≤ bit_and (bit_or a b) c
and-or_left a b c = and-or_left_below a a b c (omega arith)

-- A mask finds the bits that were set by it.
and-or_self_below : (n a m : ℕ) → m ≤ n → m ≤ bit_and (bit_or a m) m
and-or_self_below n a zero h = omega arith
and-or_self_below zero a (suc m) h = absurd (omega arith)
and-or_self_below (suc n) a (suc m) h = omega (
  arith,
  and_lowest (bit_or a (suc m)) (suc m),
  or-bit0 a (suc m),
  ap (λ (x : ℕ). bit_and x (suc m / 2)) (or-halves a (suc m)),
  and-or_self_below n (a / 2) (suc m / 2) (omega arith),
)

pub and-or_self : (a m : ℕ) → m ≤ bit_and (bit_or a m) m
and-or_self a m = and-or_self_below m a m (omega arith)

pub power_positive : (j : ℕ) → 0 < 2 ^ j
power_positive zero = omega arith
power_positive (suc j) = omega (arith, pow-suc 2 j, power_positive j)
