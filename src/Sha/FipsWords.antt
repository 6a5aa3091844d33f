-- ===== src/Sha/FipsWords.antt =====
-- The functions on words in foundation/sha.c are those of FIPS 180-4.
use Prim.Native.Nat.{bit_and, bit_or, bit_xor, differ}
use native.Mathlib.Nat.{mod-eq_of_lt}
use foundation_lib.Prelude.{
  ℕ, ◌+◌, ◌-◌, ◌*◌, ◌/◌, ◌%◌, ◌^◌, ◌<◌, min, max, ◌≡◌, refl, sym, ap, ap₂, ◌∙◌, true, arith, ◌==◌,
}
use foundation_lib.Prelude.Bits.{all_below}
use foundation_lib.Prelude.Bitwise.{
  bits, bits_of, bit_table, and-half, and-low, or-half, or-low, xor-half, xor-low, or_comm,
  rotate_lem,
}
use foundation_lib.Sha.Compress.{choise, majority, rotate, sigma, gamma}
use foundation_lib.Sha.Fips.{choice_bit, majority_bit, rotated_right, three, two_shift}

choise_half : (x y z : ℕ) → choise x y z / 2 ≡ choise (x / 2) (y / 2) (z / 2)
unfolding choise
choise_half x y z =
    xor-half z (bit_and x (bit_xor y z))
    ∙ ap (bit_xor (z / 2)) (and-half x (bit_xor y z) ∙ ap (bit_and (x / 2)) (xor-half y z))

choise_table :
    all_below 2
      (λ x. all_below 2 (λ y. all_below 2 (λ z. differ z (min x (differ y z)) == choice_bit x y z)))
    ≡ true
unfolding all_below
choise_table = refl

pub choise-bits :
    (w x y z : ℕ) → x < 2 ^ w → y < 2 ^ w → z < 2 ^ w → choise x y z ≡ bits w choice_bit x y z
unfolding choise
choise-bits w x y z p q r =
    bits_of (λ w. choise) choice_bit refl (λ w. choise_half)
      (λ w x y z.
        xor-low z (bit_and x (bit_xor y z))
        ∙ ap (differ (z % 2)) (and-low x (bit_xor y z) ∙ ap (min (x % 2)) (xor-low y z))
        ∙ bit_table (λ x y z. differ z (min x (differ y z))) choice_bit choise_table x y z)
      w x y z p q r

majority_table :
    all_below 2 (λ x.
      all_below 2 (λ y. all_below 2 (λ z. max (min (max x y) z) (min x y) == majority_bit x y z)))
    ≡ true
unfolding all_below
majority_table = refl

pub majority-bits :
    (w x y z : ℕ) → x < 2 ^ w → y < 2 ^ w → z < 2 ^ w → majority x y z ≡ bits w majority_bit x y z
unfolding majority
majority-bits w x y z p q r =
    bits_of (λ w. majority) majority_bit refl
      (λ w x y z.
        or-half (bit_and (bit_or x y) z) (bit_and x y)
        ∙ ap₂ bit_or (and-half (bit_or x y) z ∙ ap (λ t. bit_and t (z / 2)) (or-half x y))
            (and-half x y))
      (λ w x y z.
        or-low (bit_and (bit_or x y) z) (bit_and x y)
        ∙ ap₂ max (and-low (bit_or x y) z ∙ ap (λ t. min t (z % 2)) (or-low x y)) (and-low x y)
        ∙ bit_table (λ x y z. max (min (max x y) z) (min x y)) majority_bit majority_table x y z)
      w x y z p q r

rotate-right : (w n x : ℕ) → n < w → x < 2 ^ w → rotate w x n ≡ rotated_right w n x
unfolding rotate
rotate-right w n x lt small =
    let whole : n % w ≡ n = mod-eq_of_lt lt in
    let back : w - (w - n) ≡ n = omega arith in
    rw whole (
      or_comm (x / 2 ^ n) (x * 2 ^ (w - n) % 2 ^ w)
      ∙ ap (λ k. bit_or (x * 2 ^ (w - n) % 2 ^ w) (x / 2 ^ k)) (sym back)
      ∙ rotate_lem w (w - n) x (omega arith) small
      ∙ ap (λ k. x % 2 ^ k * 2 ^ (w - n) + x / 2 ^ k) back)

pub sigma-three :
    (w r s t x : ℕ) → r < w → s < w → t < w → x < 2 ^ w → sigma w r s t x ≡ three w r s t x
unfolding sigma
sigma-three w r s t x a b c small =
    ap₂ bit_xor (ap₂ bit_xor (rotate-right w r x a small) (rotate-right w s x b small))
      (rotate-right w t x c small)

pub gamma-two_shift :
    (w r s t x : ℕ) → r < w → s < w → x < 2 ^ w → gamma w r s t x ≡ two_shift w r s t x
unfolding gamma
gamma-two_shift w r s t x a b small =
    ap (λ v. bit_xor v (x / 2 ^ t))
      (ap₂ bit_xor (rotate-right w r x a small) (rotate-right w s x b small))
