-- ===== src/Utf8/Glyph.antt =====
-- `read_glyph` of what `encode_utf8` writes.
use foundation_lib.Prelude.{
  ℕ, zero, suc, ◌+◌, ◌-◌, ◌*◌, ◌/◌, ◌%◌, ◌^◌, ◌≤◌, ◌<◌, ◌≡◌, refl, sym, ap, ◌∙◌, true, List, [],
  ◌∷◌, ◌++◌, arith, dec_lt, ◌==◌, lt→ltb, ==_iff, length,
}
use foundation_lib.Prelude.Bits.{all_below, all_below-true}
use foundation_lib.Prelude.Pow.{or-shift, two_pow-pos, two_pow-add}
use foundation_lib.Utf8.{
  get_num_bytes_utf8, get_num_bytes_as_utf8, lead_byte, trail_bytes, encode_utf8, read_trail,
  read_glyph, count_glyphs,
}
use foundation_lib.Utf8.Lead.{lead_byte-reads}
use Prim.Native.Nat.{bit_and, bit_or}
use native.Mathlib.Nat.{div-div-eq-div-mul, mul-lt-mul_of_pos_right, mod-eq_of_lt}

six_bits-lt : (r p : ℕ) → r < 64 → 0 < p → r * p < p * 64
six_bits-lt r p small pos =
    omega (arith, mul-lt-mul_of_pos_right {m = r} {n = 64} {k = p} small pos)

six_bits-add : (q r p : ℕ) → q * (p * 64) + r * p ≡ (q * 64 + r) * p
six_bits-add q r p = omega arith

-- The bits above `6 * num`, and the six bits below them.
add_bits :
    (num val : ℕ)
    → bit_or
        (val / 2 ^ (6 * suc num) * 2 ^ (6 * suc num))
        (bit_or 0x80 (val / 2 ^ (6 * num) % 2 ^ 6) % 2 ^ 6 * 2 ^ (6 * num))
      ≡ val / 2 ^ (6 * num) * 2 ^ (6 * num)
add_bits num val =
    let w = val / 2 ^ (6 * num) in
    let p = 2 ^ (6 * num) in
    let pos : 0 < p = two_pow-pos (6 * num) in
    let six : 2 ^ (6 * suc num) ≡ p * 64 =
      ap (λ n. 2 ^ n) {x = 6 * suc num} {y = 6 * num + 6} (omega arith) ∙ two_pow-add (6 * num) 6 in
    let low : bit_or 0x80 (w % 64) % 64 ≡ w % 64 =
      omega (arith, or-shift 6 2 (w % 64) (omega arith)) in
    let high : val / 2 ^ (6 * suc num) ≡ w / 64 =
      ap (λ q. val / q) six ∙ sym (div-div-eq-div-mul val p 64) in
    let below : w % 64 * p < 2 ^ (6 * suc num) =
      rw six (six_bits-lt (w % 64) p (omega arith) pos) in
    let whole : w / 64 * 64 + w % 64 ≡ w = omega arith in
    rw (low, high)
      (or-shift (6 * suc num) (w / 64) (w % 64 * p) below
        ∙ rw six (six_bits-add (w / 64) (w % 64) p ∙ ap (λ n. n * p) whole))

read_trail-trail_bytes :
    (num val : ℕ) (rest : List ℕ)
    → read_trail num (val / 2 ^ (6 * num) * 2 ^ (6 * num)) (trail_bytes num val ++ rest)
      ≡ (val, num)
unfolding read_trail trail_bytes
read_trail-trail_bytes zero val rest = ap (λ g. (g, 0)) (omega arith)
read_trail-trail_bytes (suc num) val rest =
    let next : num + 1 ≡ suc num = omega arith in
    rw (add_bits num val, read_trail-trail_bytes num val rest) (ap (λ n. (val, n)) next)

length-trail_bytes : (num val : ℕ) → length (trail_bytes num val) ≡ num
unfolding trail_bytes
length-trail_bytes zero val = refl
length-trail_bytes (suc num) val = ap suc (length-trail_bytes num val)

-- A code point of more than one byte fits into the bits that its bytes have for it.
long_fits :
    (val : ℕ)
    → 0x80 ≤ val
    → val < 2 ^ 31
    → let num = get_num_bytes_as_utf8 val - 1 in
      (0 < num) × (num < 6) × (val / 2 ^ (6 * num) < 2 ^ (6 - num))
unfolding get_num_bytes_as_utf8
long_fits val long small = ground arith

read_long :
    (num val : ℕ) (rest : List ℕ)
    → 0 < num
    → num < 6
    → val / 2 ^ (6 * num) < 2 ^ (6 - num)
    → read_glyph (lead_byte num val ∷ (trail_bytes num val ++ rest)) ≡ (val, num + 1)
unfolding read_glyph
read_long num val rest pos few fits =
    let (bytes, bits, marked) = lead_byte-reads num val pos few in
    let less : num + 1 - 1 ≡ num = omega arith in
    let whole : lead_byte num val % 2 ^ (6 - num) ≡ val / 2 ^ (6 * num) =
      bits ∙ mod-eq_of_lt fits in
    rw (bytes, less, whole, marked, read_trail-trail_bytes num val rest) refl

ascii_unmarked : all_below 128 (λ c. bit_and c 0x80 == 0) ≡ true
unfolding all_below
ascii_unmarked = refl

pub read_short : (c : ℕ) (rest : List ℕ) → c < 128 → read_glyph (c ∷ rest) ≡ (c, 1)
unfolding read_glyph
read_short c rest short =
    rw (all_below-true 128 (λ c. bit_and c 0x80 == 0) c ascii_unmarked short) refl

pub encode_utf8-short : (val : ℕ) → val < 0x80 → encode_utf8 val ≡ val ∷ []
unfolding encode_utf8
encode_utf8-short val short = rw (lt→ltb val 0x80 short) refl

pub encode_utf8-long :
    (val : ℕ)
    → 0x80 ≤ val
    → let num = get_num_bytes_as_utf8 val - 1 in
      encode_utf8 val ≡ lead_byte num val ∷ trail_bytes num val
unfolding encode_utf8
encode_utf8-long val long = ground arith

pub as_utf8-short : (val : ℕ) → val < 0x80 → get_num_bytes_as_utf8 val ≡ 1
unfolding get_num_bytes_as_utf8
as_utf8-short val short = ground arith

-- A character gives back its code point and its length, whatever follows it.
pub read_glyph-encode_utf8 :
    (val : ℕ) (rest : List ℕ)
    → val < 2 ^ 31
    → read_glyph (encode_utf8 val ++ rest) ≡ (val, get_num_bytes_as_utf8 val)
read_glyph-encode_utf8 val rest small = elim (dec_lt val 0x80) [
  | yes short ↦
      rw (encode_utf8-short val short, as_utf8-short val short) (read_short val rest short)
  | no long ↦
      let num = get_num_bytes_as_utf8 val - 1 in
      let (pos, few, fits) = long_fits val (omega arith) small in
      let all : num + 1 ≡ get_num_bytes_as_utf8 val = omega arith in
      rw (encode_utf8-long val (omega arith))
        (read_long num val rest pos few fits ∙ ap (λ n. (val, n)) all)
]

pub length-encode_utf8 :
    (val : ℕ) → val < 2 ^ 31 → length (encode_utf8 val) ≡ get_num_bytes_as_utf8 val
length-encode_utf8 val small = elim (dec_lt val 0x80) [
  | yes short ↦ rw (encode_utf8-short val short, as_utf8-short val short) refl
  | no long ↦
      let num = get_num_bytes_as_utf8 val - 1 in
      let (pos, few, fits) = long_fits val (omega arith) small in
      rw (encode_utf8-long val (omega arith)) (omega (arith, length-trail_bytes num val))
]

skip_bytes : (xs rest : List ℕ) → count_glyphs (length xs) (xs ++ rest) ≡ count_glyphs 0 rest
unfolding count_glyphs
skip_bytes [] rest = refl
skip_bytes (x ∷ xs) rest = skip_bytes xs rest

ascii_alone : all_below 128 (λ c. get_num_bytes_utf8 c == 1) ≡ true
unfolding all_below get_num_bytes_utf8
ascii_alone = refl

pub count_glyphs-encode_utf8 :
    (val : ℕ) (rest : List ℕ)
    → val < 2 ^ 31
    → count_glyphs 0 (encode_utf8 val ++ rest) ≡ suc (count_glyphs 0 rest)
unfolding count_glyphs
count_glyphs-encode_utf8 val rest small = elim (dec_lt val 0x80) [
  | yes short ↦
      let one : get_num_bytes_utf8 val ≡ 1 =
        (==_iff _ _).0
          (all_below-true 128 (λ c. get_num_bytes_utf8 c == 1) val ascii_alone short) in
      rw (encode_utf8-short val short, one) refl
  | no long ↦
      let num = get_num_bytes_as_utf8 val - 1 in
      let (pos, few, fits) = long_fits val (omega arith) small in
      let (bytes, bits, marked) = lead_byte-reads num val pos few in
      let behind : num + 1 - 1 ≡ length (trail_bytes num val) =
        omega (arith, length-trail_bytes num val) in
      rw (encode_utf8-long val (omega arith), bytes, behind)
        (ap suc (skip_bytes (trail_bytes num val) rest))
]
