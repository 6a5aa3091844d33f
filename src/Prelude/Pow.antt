-- ===== src/Prelude/Pow.antt =====
-- Powers of two, and `|` of bits that do not overlap, at every width.
use Prim.Native.Nat.{
  ℕ, zero, suc, ◌+◌, ◌-◌, ◌*◌, ◌/◌, ◌%◌, ◌^◌, ◌≤◌, ◌<◌, max, bit_or, digits, bit_or-bitwise,
}
use native.Mathlib.Nat.{pow-suc}
use mathlib.Core.Path.{◌≡◌, refl, ap, sym, ◌∙◌}
use native.Mathlib.Omega.{arith}

pub two_pow-suc : (n : ℕ) → 2 ^ suc n ≡ 2 * 2 ^ n
two_pow-suc n = omega (arith, pow-suc 2 n)

pub two_pow-pos : (n : ℕ) → 0 < 2 ^ n
two_pow-pos zero = omega arith
two_pow-pos (suc n) = omega (arith, two_pow-suc n, two_pow-pos n)

pub two_pow-add : (m n : ℕ) → 2 ^ (m + n) ≡ 2 ^ m * 2 ^ n
two_pow-add zero n = let e : 0 + n ≡ n = omega arith in rw e (omega arith)
two_pow-add (suc m) n =
    let e : suc m + n ≡ suc (m + n) = omega arith in
    rw (e, two_pow-suc (m + n), two_pow-suc m, two_pow-add m n) (grind arith)

-- One more unit of fuel than the number needs changes nothing.
or_fuel : (n a b : ℕ) → a ≤ n → digits (λ b. b) max (suc n) a b ≡ digits (λ b. b) max n a b
or_fuel zero zero b h = refl
or_fuel zero (suc a) b h = absurd (omega arith)
or_fuel (suc n) zero b h = refl
or_fuel (suc n) (suc a) b h = omega (arith, or_fuel n (suc a / 2) (b / 2) (omega arith))

or_enough : (k a b : ℕ) → digits (λ b. b) max (a + k) a b ≡ bit_or a b
or_enough zero a b = let e : a + 0 ≡ a = omega arith in rw e (sym (bit_or-bitwise a b))
or_enough (suc k) a b =
    let e : a + suc k ≡ suc (a + k) = omega arith in
    rw e (or_fuel (a + k) a b (omega arith) ∙ or_enough k a b)

-- The lowest bits, and the others.
pub or-step : (a b : ℕ) → bit_or a b ≡ bit_or (a / 2) (b / 2) * 2 + max (a % 2) (b % 2)
or-step zero b = omega (arith, bit_or-bitwise 0 b, bit_or-bitwise 0 (b / 2))
or-step (suc a) b =
    let e : a ≡ suc a / 2 + (a - suc a / 2) = omega arith in
    omega (
      arith,
      bit_or-bitwise (suc a) b,
      ap (λ n. digits (λ b. b) max n (suc a / 2) (b / 2)) e,
      or_enough (a - suc a / 2) (suc a / 2) (b / 2),
    )

or-zero_below : (n a : ℕ) → a < n → bit_or a 0 ≡ a
or-zero_below zero a h = absurd (omega arith)
or-zero_below (suc n) zero h = refl
or-zero_below (suc n) (suc a) h =
    omega (arith, or-step (suc a) 0, or-zero_below n (suc a / 2) (omega arith))

-- `x << c | y`, where `y` has `c` bits.
pub or-shift : (c x y : ℕ) → y < 2 ^ c → bit_or (x * 2 ^ c) y ≡ x * 2 ^ c + y
or-shift zero x y h =
    let e : y ≡ 0 = omega arith in
    let e' : x * 2 ^ 0 ≡ x = omega arith in
    rw (e, e') (omega (arith, or-zero_below (suc x) x (omega arith)))
or-shift (suc c) x y h =
    let e : x * 2 ^ suc c ≡ 2 * (x * 2 ^ c) = omega (arith, ap (λ t. x * t) (two_pow-suc c)) in
    let half : x * 2 ^ suc c / 2 ≡ x * 2 ^ c = omega arith in
    let rest : bit_or (x * 2 ^ suc c / 2) (y / 2) ≡ x * 2 ^ c + y / 2 =
      rw half (or-shift c x (y / 2) (omega (arith, two_pow-suc c))) in
    omega (arith, or-step (x * 2 ^ suc c) y)
