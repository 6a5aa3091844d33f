-- ===== src/Prelude/Bits.antt =====
-- Bit operations on small numbers, from tables of all their values.
use Prim.Native.Nat.{ℕ, zero, suc, ◌+◌, ◌*◌, ◌<◌, bit_or}
use mathlib.Core.Path.{◌≡◌, refl}
use mathlib.Core.Bool.{Bool, true, ◌&&◌}
use native.Mathlib.Omega.{arith}
use foundation_lib.Prelude.Tests.{◌==◌, ==_iff}

-- A test of every number below `n`.
unfoldable pub all_below : ℕ → (ℕ → Bool) → Bool
all_below zero p = true
all_below (suc n) p = p n && all_below n p

pub all_below-true : (n : ℕ) (p : ℕ → Bool) (x : ℕ) → all_below n p ≡ true → x < n → p x ≡ true
unfolding all_below
all_below-true zero p x h lt = absurd (omega arith)
all_below-true (suc n) p x h lt = ground (arith, all_below-true n p x)

or_table16 : all_below 64 (λ x. all_below 16 (λ y. bit_or (x * 16) y == x * 16 + y)) ≡ true
unfolding all_below
or_table16 = refl

-- `|` of a number shifted by four bits and one of four bits.
pub or-16 : (x y : ℕ) → x < 64 → y < 16 → bit_or (x * 16) y ≡ x * 16 + y
or-16 x y p q = (==_iff _ _).0 (
    all_below-true 16 (λ y. bit_or (x * 16) y == x * 16 + y) y
      (all_below-true 64 (λ x. all_below 16 (λ y. bit_or (x * 16) y == x * 16 + y)) x or_table16 p)
      q)

or_table4 : all_below 64 (λ x. all_below 4 (λ y. bit_or (x * 4) y == x * 4 + y)) ≡ true
unfolding all_below
or_table4 = refl

pub or-4 : (x y : ℕ) → x < 64 → y < 4 → bit_or (x * 4) y ≡ x * 4 + y
or-4 x y p q = (==_iff _ _).0 (
    all_below-true 4 (λ y. bit_or (x * 4) y == x * 4 + y) y
      (all_below-true 64 (λ x. all_below 4 (λ y. bit_or (x * 4) y == x * 4 + y)) x or_table4 p) q)

or_table64 : all_below 4 (λ x. all_below 64 (λ y. bit_or (x * 64) y == x * 64 + y)) ≡ true
unfolding all_below
or_table64 = refl

pub or-64 : (x y : ℕ) → x < 4 → y < 64 → bit_or (x * 64) y ≡ x * 64 + y
or-64 x y p q = (==_iff _ _).0 (
    all_below-true 64 (λ y. bit_or (x * 64) y == x * 64 + y) y
      (all_below-true 4 (λ x. all_below 64 (λ y. bit_or (x * 64) y == x * 64 + y)) x or_table64 p)
      q)
