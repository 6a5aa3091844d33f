-- ===== src/Prelude/Bitwise.antt =====
-- Functions on words that act on each bit by itself, and rotations.
use Prim.Native.Nat.{
  ℕ, zero, suc, ◌+◌, ◌-◌, ◌*◌, ◌/◌, ◌%◌, ◌^◌, ◌≤◌, ◌<◌, min, max, bit_and, bit_or, bit_xor, digits,
  differ, bit_and-bitwise,
}
use mathlib.Core.Path.{◌≡◌, refl, ap, sym, subst, ◌∙◌}
use mathlib.Core.Bool.{true}
use native.Mathlib.Omega.{arith}
use native.Mathlib.Nat.{
  mod-lt, mod-eq_of_lt, div-add-mod', mul-add-mod_self_right, mul-lt-mul_of_pos_right,
  div-lt_iff_lt-mul,
}
use foundation_lib.Prelude.Tests.{◌==◌, ==_iff}
use foundation_lib.Prelude.Bits.{all_below, all_below-true}
use foundation_lib.Prelude.Pow.{or-step, or-shift, two_pow-suc, two_pow-pos, two_pow-add}
use foundation_lib.Prelude.Xor.{xor-step, differ-lt}

-- The number whose bits, `w` of them, are `f` of the bits of three numbers.
unfoldable pub bits : (w : ℕ) → (f : ℕ → ℕ → ℕ → ℕ) → (x y z : ℕ) → ℕ
bits zero f x y z = 0
bits (suc w) f x y z = bits w f (x / 2) (y / 2) (z / 2) * 2 + f (x % 2) (y % 2) (z % 2)

and_more : (k n a b : ℕ) → a ≤ n → digits (λ b. 0) min (n + k) a b ≡ digits (λ b. 0) min n a b
and_more k zero zero b h =
    ap (λ n. digits (λ b. 0) min n 0 b) {x = 0 + k} {y = k} (omega arith) ∙ none_left k
  where
    none_left : (k : ℕ) → digits (λ b. 0) min k 0 b ≡ 0
    none_left zero = refl
    none_left (suc k) = refl
and_more k zero (suc a) b h = absurd (omega arith)
and_more k (suc n) zero b h =
    ap (λ n. digits (λ b. 0) min n 0 b) {x = suc n + k} {y = suc (n + k)} (omega arith)
and_more k (suc n) (suc a) b h =
    ap (λ n. digits (λ b. 0) min n (suc a) b) {x = suc n + k} {y = suc (n + k)} (omega arith)
    ∙ ap (λ t. t * 2 + min (suc a % 2) (b % 2)) (and_more k n (suc a / 2) (b / 2) (omega arith))

-- The lowest bits, and the others.
pub and-step : (a b : ℕ) → bit_and a b ≡ bit_and (a / 2) (b / 2) * 2 + min (a % 2) (b % 2)
and-step zero b = omega (arith, bit_and-bitwise 0 b, bit_and-bitwise 0 (b / 2))
and-step (suc a) b =
    let half = suc a / 2 in
    let e : a ≡ half + (a - half) = omega arith in
    bit_and-bitwise (suc a) b
    ∙ ap (λ t. t * 2 + min (suc a % 2) (b % 2))
        (ap (λ n. digits (λ b. 0) min n half (b / 2)) e
          ∙ and_more (a - half) half half (b / 2) (omega arith)
          ∙ sym (bit_and-bitwise half (b / 2)))

pub and-half : (a b : ℕ) → bit_and a b / 2 ≡ bit_and (a / 2) (b / 2)
and-half a b = omega (arith, and-step a b)

pub and-low : (a b : ℕ) → bit_and a b % 2 ≡ min (a % 2) (b % 2)
and-low a b = omega (arith, and-step a b)

pub or-half : (a b : ℕ) → bit_or a b / 2 ≡ bit_or (a / 2) (b / 2)
or-half a b = omega (arith, or-step a b)

pub or-low : (a b : ℕ) → bit_or a b % 2 ≡ max (a % 2) (b % 2)
or-low a b = omega (arith, or-step a b)

pub xor-half : (a b : ℕ) → bit_xor a b / 2 ≡ bit_xor (a / 2) (b / 2)
xor-half a b = omega (arith, xor-step a b, differ-lt a b)

pub xor-low : (a b : ℕ) → bit_xor a b % 2 ≡ differ (a % 2) (b % 2)
xor-low a b = omega (arith, xor-step a b, differ-lt a b)

-- Two functions of three bits that agree in a table.
pub bit_table :
    (f g : ℕ → ℕ → ℕ → ℕ)
    → all_below 2 (λ x. all_below 2 (λ y. all_below 2 (λ z. f x y z == g x y z))) ≡ true
    → (x y z : ℕ) → f (x % 2) (y % 2) (z % 2) ≡ g (x % 2) (y % 2) (z % 2)
bit_table f g table x y z =
    let a =
      all_below-true 2 (λ x. all_below 2 (λ y. all_below 2 (λ z. f x y z == g x y z))) (x % 2) table
        (omega arith) in
    let b =
      all_below-true 2 (λ y. all_below 2 (λ z. f (x % 2) y z == g (x % 2) y z)) (y % 2) a
        (omega arith) in
    (==_iff _ _).0
      (all_below-true 2 (λ z. f (x % 2) (y % 2) z == g (x % 2) (y % 2) z) (z % 2) b (omega arith))

-- A function on words of each width whose lowest bit is `f` of the lowest bits, and whose other bits are
-- the function of the others.
pub bits_of :
    (g : (w : ℕ) → ℕ → ℕ → ℕ → ℕ) (f : ℕ → ℕ → ℕ → ℕ)
    → g 0 0 0 0 ≡ 0
    → ((w x y z : ℕ) → g (suc w) x y z / 2 ≡ g w (x / 2) (y / 2) (z / 2))
    → ((w x y z : ℕ) → g (suc w) x y z % 2 ≡ f (x % 2) (y % 2) (z % 2))
    → (w x y z : ℕ) → x < 2 ^ w
    → y < 2 ^ w
    → z < 2 ^ w
    → g w x y z ≡ bits w f x y z
unfolding bits
bits_of g f none half low zero x y z p q r =
    let a : x ≡ 0 = omega arith in
    let b : y ≡ 0 = omega arith in let c : z ≡ 0 = omega arith in rw (a, b, c) none
bits_of g f none half low (suc w) x y z p q r =
    let s = two_pow-suc w in
    let rest =
      bits_of g f none half low w (x / 2) (y / 2) (z / 2) (omega arith) (omega arith)
        (omega arith) in
    omega (arith, half w x y z, low w x y z, rest)

pub or_comm : (a b : ℕ) → bit_or a b ≡ bit_or b a
or_comm a b = below (suc (a + b)) a b (omega arith)
  where
    below : (n a b : ℕ) → a + b < n → bit_or a b ≡ bit_or b a
    below zero a b h = absurd (omega arith)
    below (suc n) zero zero h = refl
    below (suc n) a b h =
        omega (arith, or-step a b, or-step b a, below n (a / 2) (b / 2) (omega arith))

-- The word with its `s` highest bits behind the others.
abbrev pub rotated_left : (w s x : ℕ) → ℕ
rotated_left w s x = x % 2 ^ (w - s) * 2 ^ s + x / 2 ^ (w - s)

mod_shift : (x p q : ℕ) → 0 < p → 0 < q → x * p % (q * p) ≡ x % q * p
mod_shift x p q pos pos' =
    let parts : x * p ≡ x / q * (q * p) + x % q * p =
      ap (λ n. n * p) (sym (div-add-mod' x q)) ∙ omega arith in
    ap (λ n. n % (q * p)) parts
    ∙ mul-add-mod_self_right (x / q) (q * p) (x % q * p)
    ∙ mod-eq_of_lt (mul-lt-mul_of_pos_right (mod-lt x pos') pos)

pub rotate_lem :
    (w s x : ℕ)
    → s ≤ w
    → x < 2 ^ w
    → bit_or (x * 2 ^ s % 2 ^ w) (x / 2 ^ (w - s)) ≡ rotated_left w s x
rotate_lem w s x le small =
    let p = 2 ^ s in
    let q = 2 ^ (w - s) in
    let power : 2 ^ w ≡ q * p =
      ap (λ n. 2 ^ n) {x = w} {y = w - s + s} (omega arith) ∙ two_pow-add (w - s) s in
    let high : x / q < p =
      (div-lt_iff_lt-mul {x = x} {y = p} (two_pow-pos (w - s))).1
        (subst (λ n. x < n) (power ∙ omega arith) small) in
    ap (λ n. bit_or n (x / q))
      (ap (λ n. x * p % n) power ∙ mod_shift x p q (two_pow-pos s) (two_pow-pos (w - s)))
    ∙ or-shift s (x % q) (x / q) high
