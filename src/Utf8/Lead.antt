-- ===== src/Utf8/Lead.antt =====
-- The first byte of an encoded character: what `read_glyph` reads off it.
use foundation_lib.Prelude.{
  ℕ, ◌+◌, ◌-◌, ◌*◌, ◌/◌, ◌%◌, ◌^◌, ◌<◌, ◌≡◌, refl, Bool, true, false, not, ◌&&◌, ◌||◌, arith, ◌==◌,
}
use foundation_lib.Prelude.Bits.{all_below, all_below-true}
use foundation_lib.Prelude.Pow.{two_pow-pos}
use foundation_lib.Utf8.{get_num_bytes_utf8, get_bit_mask, lead_byte}
use Prim.Native.Nat.{bit_and, bit_or}
use native.Mathlib.Nat.{mod-lt}

abbrev lead_of : (num y : ℕ) → ℕ
lead_of num y = bit_or (bit_or 0x80 (get_bit_mask num * 2 ^ (7 - num))) y % 2 ^ 8

abbrev tells : (num y : ℕ) → Bool
tells num y =
    let c = lead_of num y in
    get_num_bytes_utf8 c == num + 1 && c % 2 ^ (6 - num) == y && not (bit_and c 0x80 == 0)

abbrev all_tell : Bool
all_tell = all_below 6 (λ num. num == 0 || all_below (2 ^ (6 - num)) (tells num))

all_tell-true : all_tell ≡ true
unfolding all_below get_num_bytes_utf8
all_tell-true = refl

tells-true : (num y : ℕ) → 0 < num → num < 6 → y < 2 ^ (6 - num) → tells num y ≡ true
tells-true num y pos small fits =
    all_below-true (2 ^ (6 - num)) (tells num) y
      (ground (
        arith,
        all_below-true 6 (λ num. num == 0 || all_below (2 ^ (6 - num)) (tells num)) num
            all_tell-true small,
      ))
      fits

-- The first byte of `num + 1`: it gives back their number and its bits of the code point.
pub lead_byte-reads :
    (num val : ℕ)
    → 0 < num
    → num < 6
    → (get_num_bytes_utf8 (lead_byte num val) ≡ num + 1)
      × (lead_byte num val % 2 ^ (6 - num) ≡ val / 2 ^ (6 * num) % 2 ^ (6 - num))
      × ((bit_and (lead_byte num val) 0x80 == 0) ≡ false)
unfolding lead_byte
lead_byte-reads num val pos small =
    let y = val / 2 ^ (6 * num) % 2 ^ (6 - num) in
    let t = tells-true num y pos small (mod-lt (val / 2 ^ (6 * num)) (two_pow-pos (6 - num))) in
    ground (arith, t)
