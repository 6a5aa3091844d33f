-- ===== src/BitBuffer/Bits.antt =====
-- The bits of a word, lowest first.
use foundation_lib.Prelude.{
  ℕ, zero, suc, ◌+◌, ◌-◌, ◌*◌, ◌/◌, ◌%◌, ◌^◌, ◌≤◌, ◌<◌, ◌≡◌, refl, sym, ap, ap₂, ◌∙◌, List, [], ◌∷◌,
  ◌++◌, append-nil, arith, length, take, drop, drop-append_ge,
}
use foundation_lib.Prelude.Pow.{two_pow-suc, two_pow-pos}

unfoldable pub to_bits : ℕ → ℕ → List ℕ
to_bits zero w = []
to_bits (suc n) w = (w % 2) ∷ to_bits n (w / 2)

pub length-to_bits : (n w : ℕ) → length (to_bits n w) ≡ n
unfolding to_bits
length-to_bits zero w = refl
length-to_bits (suc n) w = ap suc (length-to_bits n (w / 2))

-- Fields side by side.
pub to_bits-add :
    (m n x y : ℕ) → x < 2 ^ m → to_bits (m + n) (x + y * 2 ^ m) ≡ to_bits m x ++ to_bits n y
unfolding to_bits
to_bits-add zero n x y h =
    let e : 0 + n ≡ n = omega arith in let e' : x + y * 2 ^ 0 ≡ y = omega arith in rw (e, e')
to_bits-add (suc m) n x y h =
    let e : suc m + n ≡ suc (m + n) = omega arith in
    let d : y * 2 ^ suc m ≡ 2 * (y * 2 ^ m) = omega (arith, ap (λ t. y * t) (two_pow-suc m)) in
    let low : (x + y * 2 ^ suc m) % 2 ≡ x % 2 = omega arith in
    let high : (x + y * 2 ^ suc m) / 2 ≡ x / 2 + y * 2 ^ m = omega arith in
    rw (e, low, high)
      (ap (λ t. (x % 2) ∷ t) (to_bits-add m n (x / 2) y (omega (arith, two_pow-suc m))))

split : (m w : ℕ) → w ≡ w % 2 ^ m + w / 2 ^ m * 2 ^ m
split m w = omega arith

pub to_bits-mod : (n w : ℕ) → to_bits n (w % 2 ^ n) ≡ to_bits n w
unfolding to_bits
to_bits-mod n w =
    let small : w % 2 ^ n < 2 ^ n = omega (arith, two_pow-pos n) in
    let joined = to_bits-add n 0 (w % 2 ^ n) (w / 2 ^ n) small in
    let e : n + 0 ≡ n = omega arith in
    sym (append-nil (to_bits n (w % 2 ^ n))) ∙ sym joined ∙ ap₂ to_bits e (sym (split n w))

-- A word split into its lower and its higher bits.
pub to_bits-split : (m n w : ℕ) → to_bits (m + n) w ≡ to_bits m w ++ to_bits n (w / 2 ^ m)
to_bits-split m n w =
    let small : w % 2 ^ m < 2 ^ m = omega (arith, two_pow-pos m) in
    ap (to_bits (m + n)) (split m w)
    ∙ to_bits-add m n (w % 2 ^ m) (w / 2 ^ m) small
    ∙ ap (λ t. t ++ to_bits n (w / 2 ^ m)) (to_bits-mod m w)

pub to_bits-injective : (n v w : ℕ) → v < 2 ^ n → w < 2 ^ n → to_bits n v ≡ to_bits n w → v ≡ w
unfolding to_bits
to_bits-injective zero v w hv hw e = omega arith
to_bits-injective (suc n) v w hv hw e =
    let h : v % 2 ≡ w % 2 = cc in
    let t : to_bits n (v / 2) ≡ to_bits n (w / 2) = cc in
    let p = two_pow-suc n in
    omega (arith, to_bits-injective n (v / 2) (w / 2) (omega arith) (omega arith) t)

pub take-to_bits : (n m w : ℕ) → n ≤ m → take n (to_bits m w) ≡ to_bits n w
unfolding to_bits
take-to_bits zero m w h = refl
take-to_bits (suc n) zero w h = absurd (omega arith)
take-to_bits (suc n) (suc m) w h = ap (λ t. (w % 2) ∷ t) (take-to_bits n m (w / 2) (omega arith))

pub drop-to_bits : (n m w : ℕ) → n ≤ m → drop n (to_bits m w) ≡ to_bits (m - n) (w / 2 ^ n)
drop-to_bits n m w h =
    let e : m ≡ n + (m - n) = omega arith in
    let none_left : n - length (to_bits n w) ≡ 0 = omega (arith, length-to_bits n w) in
    ap (λ k. drop n (to_bits k w)) e
    ∙ ap (drop n) (to_bits-split n (m - n) w)
    ∙ drop-append_ge n (to_bits n w) (to_bits (m - n) (w / 2 ^ n))
        (omega (arith, length-to_bits n w))
    ∙ ap (λ k. drop k (to_bits (m - n) (w / 2 ^ n))) none_left
