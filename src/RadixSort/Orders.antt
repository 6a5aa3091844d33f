-- ===== src/RadixSort/Orders.antt =====
-- The orders of the types of foundation/radixsort.c, byte by byte.
use mathlib.Core.Bool.{true≢false}
use native.Mathlib.Nat.{mul-le-mul_left, mul-suc}
use foundation_lib.Prelude.{
  ℕ, zero, suc, ◌+◌, ◌-◌, ◌*◌, ◌/◌, ◌%◌, ◌≤◌, ◌<◌, ◌≡◌, sym, ap, ◌∙◌, Bool, true, false, arith,
  dec_lt, ltb, leb, lt→ltb,
}
use foundation_lib.RadixSort.{byte, signed_order, float_order, order}
use foundation_lib.RadixSort.Histograms.{byte-lt}
use foundation_lib.RadixSort.Places.{plain, signed_rank, float_rank}

-- The weight of a byte, and the number that the bytes below it make.
unfoldable pub scale : ℕ → ℕ
scale zero = 1
scale (suc p) = 256 * scale p

unfoldable pub low : (p v : ℕ) → ℕ
low zero v = 0
low (suc p) v = v % 256 + 256 * low p (v / 256)

pub low-lt : (p v : ℕ) → low p v < scale p
unfolding low scale
low-lt zero v = omega arith
low-lt (suc p) v = omega (arith, low-lt p (v / 256))

times : (a b : ℕ) → 256 * (a * b) ≡ 256 * a * b
times a b = grind arith

-- A byte goes before those below it.
pub low-suc : (p v : ℕ) → low (suc p) v ≡ low p v + scale p * byte p v
unfolding low scale byte
low-suc zero v = omega arith
low-suc (suc p) v = omega (arith, low-suc p (v / 256), times (scale p) (byte p (v / 256)))

pub low_all : (p v : ℕ) → v < scale p → low p v ≡ v
unfolding low scale
low_all zero v lt = omega arith
low_all (suc p) v lt = omega (arith, low_all p (v / 256) (omega arith))

lexicographic : (m a b x y : ℕ) → a < b → x < m → x + m * a ≤ y + m * b
lexicographic m a b x y lt less = omega (arith, mul-le-mul_left m lt, mul-suc m a)

pub low_mono : (p u v : ℕ) → byte p u < byte p v → low (suc p) u ≤ low (suc p) v
low_mono p u v lt = omega (
  arith,
  low-suc p u,
  low-suc p v,
  lexicographic (scale p) (byte p u) (byte p v) (low p u) (low p v) lt (low-lt p u),
)

pub low-same : (p u v : ℕ) → byte p u ≡ byte p v → low p u ≤ low p v → low (suc p) u ≤ low (suc p) v
low-same p u v e le = omega (arith, low-suc p u, low-suc p v, ap (λ b. scale p * b) e)

-- A value whose highest byte is byte `p`.
parts : (p v : ℕ) → v < scale (suc p) → v ≡ low p v + scale p * byte p v
parts p v lt = sym (low_all (suc p) v lt) ∙ low-suc p v

ltb_ge : (a b : ℕ) → b ≤ a → ltb a b ≡ false
ltb_ge a b le = ground arith

-- The order of a signed value by its sign and the rest: `m` is the weight of the highest byte.
signed_split : (m x b : ℕ) → x < m → signed_order (128 * m) (x + m * b) ≡ x + m * signed_rank b
signed_split m x b lt = elim (dec_lt b 128) [
  | yes p ↦
      let le = mul-le-mul_left m p in
      let t : ltb b 128 ≡ true = ground arith in
      let t' : ltb (x + m * b) (128 * m) ≡ true = lt→ltb _ _ (omega (arith, le, mul-suc m b)) in
      rw (t, t') (grind arith)
  | no np ↦
      let k = b - 128 in
      let b' : b ≡ k + 128 = omega arith in
      let t : ltb b 128 ≡ false = ground arith in
      let e : m * b ≡ m * k + 128 * m = ap (λ b. m * b) b' ∙ grind arith in
      let t' : ltb (x + m * b) (128 * m) ≡ false = ltb_ge _ _ (omega (arith, e)) in
      rw (t, t') (omega (arith, e))
]

-- The order of a floating point value: that of negative ones falls with the rest.
float_positive :
    (m x b : ℕ) → x < m → b < 128 → float_order (128 * m) (x + m * b) ≡ x + m * float_rank b
float_positive m x b lt p =
    let le = mul-le-mul_left m p in
    let t : ltb b 128 ≡ true = ground arith in
    let t' : ltb (x + m * b) (128 * m) ≡ true = lt→ltb _ _ (omega (arith, le, mul-suc m b)) in
    rw (t, t') (grind arith)

whole : (m r k : ℕ) → m * (r + k + 1) ≡ m * r + m * k + m
whole m r k = grind arith

float_negative :
    (m x b : ℕ)
    → x < m
    → 128 ≤ b
    → b < 256
    → float_order (128 * m) (x + m * b) ≡ m - x + m * float_rank b
float_negative m x b lt le less =
    let k = b - 128 in
    let r = 255 - b in
    let t : ltb b 128 ≡ false = ltb_ge _ _ le in
    let b' : b ≡ k + 128 = omega arith in
    let e : m * b ≡ m * k + 128 * m = ap (λ b. m * b) b' ∙ grind arith in
    let k' : r + k + 1 ≡ 128 = omega arith in
    let e' : m * r + m * k + m ≡ 128 * m = sym (whole m r k) ∙ ap (λ n. m * n) k' ∙ grind arith in
    let t' : ltb (x + m * b) (128 * m) ≡ false = ltb_ge _ _ (omega (arith, e)) in
    rw (t, t') (omega (arith, e, e'))

-- What the last pass needs of the order of a type: it goes by the rank of the highest byte, then up or
-- down by the bytes below it.
pub record LastPass (order : ℕ → ℕ) (p : ℕ) (rank : ℕ → ℕ) (down : ℕ → Bool) : Type 0 where
  pub apart :
      (u v : ℕ)
      → u < scale (suc p)
      → v < scale (suc p)
      → rank (byte p u) < rank (byte p v)
      → order u ≤ order v
  pub up :
      (u v : ℕ)
      → u < scale (suc p)
      → v < scale (suc p)
      → rank (byte p u) ≡ rank (byte p v)
      → down (byte p u) ≡ false
      → low p u ≤ low p v
      → order u ≤ order v
  pub turned :
      (u v : ℕ)
      → u < scale (suc p)
      → v < scale (suc p)
      → rank (byte p u) ≡ rank (byte p v)
      → down (byte p u) ≡ true
      → low p u ≤ low p v
      → order v ≤ order u

-- An order that is a weight of the rank and the bytes below.
rising :
    (order : ℕ → ℕ) (p : ℕ) (rank : ℕ → ℕ)
    → ((v : ℕ) → v < scale (suc p) → order v ≡ low p v + scale p * rank (byte p v))
    → LastPass order p rank (λ b. false)
rising order p rank e = record {
  apart = λ u v lt lt' less.
      omega
        (arith, e u lt, e v lt', lexicographic (scale p) _ _ (low p u) (low p v) less (low-lt p u));
  up = λ u v lt lt' same t le. omega (arith, e u lt, e v lt', ap (λ r. scale p * r) same);
  turned = λ u v lt lt' same t le. absurd (true≢false (sym t));
}

pub plain-LastPass : (p : ℕ) → LastPass (λ v. v) p plain (λ b. false)
plain-LastPass p = rising (λ v. v) p plain (parts p)

pub signed-LastPass : (p : ℕ) → LastPass (signed_order (128 * scale p)) p signed_rank (λ b. false)
signed-LastPass p = rising (signed_order (128 * scale p)) p signed_rank (λ v lt.
    ap (signed_order (128 * scale p)) (parts p v lt)
    ∙ signed_split (scale p) (low p v) (byte p v) (low-lt p v))

float_between :
    (p v : ℕ)
    → v < scale (suc p)
    → let o = float_order (128 * scale p) v in
      (scale p * float_rank (byte p v) ≤ o) × (o ≤ scale p * float_rank (byte p v) + scale p)
float_between p v lt =
    let e = ap (float_order (128 * scale p)) (parts p v lt) in
    elim (dec_lt (byte p v) 128) [
      | yes q ↦
          let f = float_positive (scale p) (low p v) (byte p v) (low-lt p v) q in
          (omega (arith, e, f), omega (arith, e, f, low-lt p v))
      | no nq ↦
          let f =
            float_negative (scale p) (low p v) (byte p v) (low-lt p v) (omega arith)
              (byte-lt p v) in
          (omega (arith, e, f), omega (arith, e, f, low-lt p v))
    ]

rank_sign : (b c : ℕ) → b < 256 → c < 256 → float_rank b ≡ float_rank c → b < 128 → c < 128
rank_sign b c lt lt' e less = ground arith

positive_byte : (b : ℕ) → leb 128 b ≡ false → b < 128
positive_byte b t = ground arith

negative_byte : (b : ℕ) → leb 128 b ≡ true → 128 ≤ b
negative_byte b t = ground arith

pub float-LastPass : (p : ℕ) → LastPass (float_order (128 * scale p)) p float_rank (leb 128)
float-LastPass p = record {
  apart = λ u v lt lt' less. omega (
    arith,
    (float_between p u lt).1,
    (float_between p v lt').0,
    mul-le-mul_left (scale p) less,
    mul-suc (scale p) (float_rank (byte p u)),
  );
  up = λ u v lt lt' same t le.
      let q = positive_byte (byte p u) t in
      let q' = rank_sign (byte p u) (byte p v) (byte-lt p u) (byte-lt p v) same q in
      omega (
        arith,
        ap (float_order (128 * scale p)) (parts p u lt),
        ap (float_order (128 * scale p)) (parts p v lt'),
        float_positive (scale p) (low p u) (byte p u) (low-lt p u) q,
        float_positive (scale p) (low p v) (byte p v) (low-lt p v) q',
        ap (λ r. scale p * r) same,
      );
  turned = λ u v lt lt' same t le.
      let q = negative_byte (byte p u) t in
      let q' : 128 ≤ byte p v = elim (dec_lt (byte p v) 128) [
        | yes r ↦ absurd (
            omega (arith, rank_sign (byte p v) (byte p u) (byte-lt p v) (byte-lt p u) (sym same) r))
        | no nr ↦ omega arith
      ] in
      omega (
        arith,
        ap (float_order (128 * scale p)) (parts p u lt),
        ap (float_order (128 * scale p)) (parts p v lt'),
        float_negative (scale p) (low p u) (byte p u) (low-lt p u) q (byte-lt p u),
        float_negative (scale p) (low p v) (byte p v) (low-lt p v) q' (byte-lt p v),
        ap (λ r. scale p * r) same,
      );
}
