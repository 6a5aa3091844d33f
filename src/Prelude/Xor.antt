-- ===== src/Prelude/Xor.antt =====
-- Exclusive or of numbers, by their binary digits.
use Prim.Native.Nat.{
  ℕ, zero, suc, ◌+◌, ◌-◌, ◌*◌, ◌/◌, ◌%◌, ◌^◌, ◌≤◌, ◌<◌, bit_xor, digits, differ, bit_xor-bitwise,
}
use mathlib.Core.Path.{◌≡◌, refl, ap, sym, ◌∙◌}
use mathlib.Core.Logic.{◌⊎◌, inl, inr}
use native.Mathlib.Omega.{arith}
use foundation_lib.Prelude.Pow.{two_pow-suc}

-- One more unit of fuel than the number needs changes nothing.
xor_fuel : (n a b : ℕ) → a ≤ n → digits (λ b. b) differ (suc n) a b ≡ digits (λ b. b) differ n a b
xor_fuel zero zero b h = refl
xor_fuel zero (suc a) b h = absurd (omega arith)
xor_fuel (suc n) zero b h = refl
xor_fuel (suc n) (suc a) b h =
    ap (λ t. t * 2 + differ (suc a % 2) (b % 2)) (xor_fuel n (suc a / 2) (b / 2) (omega arith))

xor_enough : (k a b : ℕ) → digits (λ b. b) differ (a + k) a b ≡ bit_xor a b
xor_enough zero a b = let e : a + 0 ≡ a = omega arith in rw e (sym (bit_xor-bitwise a b))
xor_enough (suc k) a b =
    let e : a + suc k ≡ suc (a + k) = omega arith in
    rw e (xor_fuel (a + k) a b (omega arith) ∙ xor_enough k a b)

xor_zero : (b : ℕ) → bit_xor 0 b ≡ b
xor_zero b = bit_xor-bitwise 0 b

digit_cases : (x : ℕ) → (x % 2 ≡ 0) ⊎ (x % 2 ≡ 1)
digit_cases x = ground arith

differ_zero : (x : ℕ) → differ 0 x ≡ x
differ_zero x = refl

-- The lowest bits, and the others.
pub xor-step : (a b : ℕ) → bit_xor a b ≡ bit_xor (a / 2) (b / 2) * 2 + differ (a % 2) (b % 2)
xor-step zero b = xor_zero b ∙ sym (ap (λ t. t * 2 + b % 2) (xor_zero (b / 2)) ∙ omega arith)
xor-step (suc a) b =
    let e : a ≡ suc a / 2 + (a - suc a / 2) = omega arith in
    bit_xor-bitwise (suc a) b
    ∙ ap (λ t. t * 2 + differ (suc a % 2) (b % 2))
        (ap (λ n. digits (λ b. b) differ n (suc a / 2) (b / 2)) e
          ∙ xor_enough (a - suc a / 2) (suc a / 2) (b / 2))

pub differ-lt : (x y : ℕ) → differ (x % 2) (y % 2) < 2
differ-lt x y = elim (digit_cases x) [
  | inl a ↦ elim (digit_cases y) [
    | inl b ↦ rw (a, b) (omega arith)
    | inr b ↦ rw (a, b) (omega arith)
  ]
  | inr a ↦ elim (digit_cases y) [
    | inl b ↦ rw (a, b) (omega arith)
    | inr b ↦ rw (a, b) (omega arith)
  ]
]

differ-differ : (x y : ℕ) → differ (differ (x % 2) (y % 2)) (y % 2) ≡ x % 2
differ-differ x y = elim (digit_cases x) [
  | inl a ↦ elim (digit_cases y) [ inl b ↦ rw (a, b) refl | inr b ↦ rw (a, b) refl ]
  | inr a ↦ elim (digit_cases y) [ inl b ↦ rw (a, b) refl | inr b ↦ rw (a, b) refl ]
]

-- Below a power of two.
pub bit_xor-lt : (n a b : ℕ) → a < 2 ^ n → b < 2 ^ n → bit_xor a b < 2 ^ n
bit_xor-lt zero a b p q =
    let a0 : a ≡ 0 = omega arith in let b0 : b ≡ 0 = omega arith in rw (a0, b0) (omega arith)
bit_xor-lt (suc n) a b p q =
    let s = two_pow-suc n in
    omega (
      arith,
      s,
      xor-step a b,
      differ-lt a b,
      bit_xor-lt n (a / 2) (b / 2) (omega arith) (omega arith),
    )

undo_step :
    (a b : ℕ) → bit_xor (bit_xor (a / 2) (b / 2)) (b / 2) ≡ a / 2 → bit_xor (bit_xor a b) b ≡ a
undo_step a b e =
    let lt = differ-lt a b in
    let s = xor-step a b in
    let half : bit_xor a b / 2 ≡ bit_xor (a / 2) (b / 2) = omega arith in
    let low : bit_xor a b % 2 ≡ differ (a % 2) (b % 2) = omega arith in
    xor-step (bit_xor a b) b
    ∙ ap (λ t. bit_xor t (b / 2) * 2 + differ (bit_xor a b % 2) (b % 2)) half
    ∙ ap (λ t. bit_xor (bit_xor (a / 2) (b / 2)) (b / 2) * 2 + differ t (b % 2)) low
    ∙ ap (λ t. t * 2 + differ (differ (a % 2) (b % 2)) (b % 2)) e
    ∙ ap (λ t. a / 2 * 2 + t) (differ-differ a b)
    ∙ omega arith

undo_below : (n a b : ℕ) → a + b < n → bit_xor (bit_xor a b) b ≡ a
undo_below zero a b h = absurd (omega arith)
undo_below (suc n) zero zero h = refl
undo_below (suc n) a b h = undo_step a b (undo_below n (a / 2) (b / 2) (omega arith))

-- The same mask twice.
pub bit_xor-bit_xor : (a b : ℕ) → bit_xor (bit_xor a b) b ≡ a
bit_xor-bit_xor a b = undo_below (suc (a + b)) a b (omega arith)
