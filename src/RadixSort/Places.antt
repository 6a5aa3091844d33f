-- ===== src/RadixSort/Places.antt =====
-- The places of the bytes in a pass of foundation/radixsort.c.
use foundation_lib.Prelude.{
  ℕ, suc, ◌+◌, ◌-◌, ◌≤◌, ◌<◌, ◌≡◌, refl, true, false, List, arith, ltb, leb, if◌then◌else◌, drop,
}
use foundation_lib.RadixSort.Ranks.{total, total-add, total_ext, Ranks}
use foundation_lib.RadixSort.Totals.{get_or-drop, at}

-- The places of the bytes of a pass: as they are, negative before positive, and negative reversed.
abbrev pub plain : ℕ → ℕ
plain b = b

abbrev pub signed_rank : ℕ → ℕ
signed_rank b = if ltb b 128 then b + 128 else b - 128

abbrev pub float_rank : ℕ → ℕ
float_rank b = if ltb b 128 then b + 128 else 255 - b

abbrev pub float_unrank : ℕ → ℕ
float_unrank r = if ltb r 128 then 255 - r else r - 128

pub plain-Ranks : Ranks plain plain
plain-Ranks = record {
  rank-lt = λ b lt. lt;
  unrank-lt = λ r lt. lt;
  unrank-rank = λ b lt. refl;
  rank-unrank = λ r lt. refl;
}

pub signed-Ranks : Ranks signed_rank signed_rank
signed-Ranks = record {
  rank-lt = λ b lt. ground arith;
  unrank-lt = λ r lt. ground arith;
  unrank-rank = λ b lt. ground arith;
  rank-unrank = λ r lt. ground arith;
}

pub float-Ranks : Ranks float_rank float_unrank
float-Ranks = record {
  rank-lt = λ b lt. ground arith;
  unrank-lt = λ r lt. ground arith;
  unrank-rank = λ b lt. ground arith;
  rank-unrank = λ r lt. ground arith;
}

pub signed_low : (b : ℕ) → b < 128 → signed_rank b ≡ 128 + b
signed_low b lt = ground arith

pub signed_high : (b : ℕ) → 128 ≤ b → signed_rank b ≡ b - 128
signed_high b le = ground arith

pub signed_above : (r : ℕ) → signed_rank (128 + r) ≡ r
signed_above r = ground arith

pub float_low : (b : ℕ) → b < 128 → float_rank b ≡ 128 + b
float_low b lt = ground arith

pub float_high : (b : ℕ) → 128 ≤ b → b < 256 → suc (float_rank b) ≡ 128 - (b - 128)
float_high b le lt = ground arith

pub float_below : (r : ℕ) → r < 128 → float_unrank r ≡ 128 + (128 - suc r)
float_below r lt = ground arith

pub float_above : (r : ℕ) → float_unrank (128 + r) ≡ r
float_above r = ground arith

pub leb_low : (b : ℕ) → b < 128 → leb 128 b ≡ false
leb_low b lt = ground arith

pub leb_high : (b : ℕ) → 128 ≤ b → leb 128 b ≡ true
leb_high b le = ground arith

-- The counts of the negative bytes, and the others.
pub halves : (h : List ℕ) → total (at h) 256 ≡ total (at h) 128 + total (λ i. at h (128 + i)) 128
halves h = total-add (at h) 128 128

pub upper : (h : List ℕ) (n : ℕ) → total (at (drop 128 h)) n ≡ total (λ i. at h (128 + i)) n
upper h n = total_ext (at (drop 128 h)) (λ i. at h (128 + i)) n (λ i lt. get_or-drop h 128 i 0)
