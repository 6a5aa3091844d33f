-- ===== src/RadixSort/Offsets.antt =====
-- The offset tables of foundation/radixsort.c: where the region of each byte begins, or ends.
use foundation_lib.Prelude.{
  ℕ, suc, ◌+◌, ◌-◌, ◌^◌, ◌≤◌, ◌<◌, ◌≡◌, sym, ap, ap₂, ◌∙◌, List, ◌++◌, arith, dec_lt, leb,
  if◌then◌else◌, length, get_or, take, drop, length-take, length-drop,
}
use foundation_lib.RadixSort.{
  add_counts, offsets, offsets_back, unsigned_offsets, signed_offsets, float_offsets,
}
use foundation_lib.RadixSort.Ranks.{total, total-add, total_ext, Ranks, start}
use foundation_lib.RadixSort.Totals.{
  get_or-append_lt, get_or-append_ge, get_or-take, get_or-drop, at, total_reverse, add_counts-total,
  length-offsets, offsets-total, offsets_back-total,
}
use foundation_lib.RadixSort.Places.{
  plain, signed_rank, float_rank, float_unrank, plain-Ranks, signed-Ranks, float-Ranks, signed_low,
  signed_high, signed_above, float_low, float_high, float_below, float_above, leb_low, leb_high,
  halves, upper,
}

module _ (h : List ℕ) (bytes : length h ≡ 256) (small : total (at h) 256 < 2 ^ 16) where
  length-upper : length (drop 128 h) ≡ 128
  length-upper = omega (arith, length-drop 128 h, bytes)

  length-lower : length (take 128 h) ≡ 128
  length-lower = omega (arith, length-take 128 h, bytes)

  negatives : add_counts 0 (drop 128 h) ≡ total (λ i. at h (128 + i)) 128
  negatives =
      let e : total (at (drop 128 h)) (length (drop 128 h)) ≡ total (λ i. at h (128 + i)) 128 =
        ap (total (at (drop 128 h))) length-upper ∙ upper h 128 in
      add_counts-total 0 (drop 128 h) (omega (arith, e, halves h, small)) ∙ omega (arith, e)

  pub unsigned_offsets-start :
      (b : ℕ) → b < 256 → get_or (unsigned_offsets h) b 0 ≡ start plain plain plain-Ranks (at h) b
  unfolding unsigned_offsets
  unsigned_offsets-start b lt =
      let all : total (at h) (length h) ≡ total (at h) 256 = ap (total (at h)) bytes in
      offsets-total 0 h b (omega (arith, all, small)) (omega (arith, bytes)) ∙ omega arith

  lower : (n : ℕ) → n ≤ 128 → total (at (take 128 h)) n ≡ total (at h) n
  lower n le = total_ext (at (take 128 h)) (at h) n (λ i lt. get_or-take h 128 i 0 (omega arith))

  -- The bytes of the positive numbers come behind those of the negative ones.
  positive :
      (rank unrank : ℕ → ℕ) (ranks : Ranks rank unrank) (b : ℕ)
      → total (λ i. at h (unrank i)) 128 ≡ total (λ i. at h (128 + i)) 128
      → ((r : ℕ) → r < 128 → unrank (128 + r) ≡ r)
      → rank b ≡ 128 + b
      → b < 128
      → get_or (offsets (add_counts 0 (drop 128 h)) (take 128 h)) b 0
        ≡ start rank unrank ranks (at h) b
  positive rank unrank ranks b below above place lt =
      let n = negatives in
      let all : total (at (take 128 h)) (length (take 128 h)) ≡ total (at h) 128 =
        ap (total (at (take 128 h))) length-lower ∙ lower 128 (omega arith) in
      let behind : total (λ r. at h (unrank r)) (rank b)
          ≡ total (λ i. at h (128 + i)) 128 + total (at h) b =
        ap (total (λ r. at h (unrank r))) place
        ∙ total-add (λ r. at h (unrank r)) 128 b
        ∙ ap₂ ◌+◌ below (
            total_ext (λ i. at h (unrank (128 + i))) (at h) b
              (λ i less. ap (at h) (above i (omega arith)))) in
      offsets-total (add_counts 0 (drop 128 h)) (take 128 h) b (omega (arith, halves h))
        (omega (arith, length-lower))
      ∙ omega (arith, lower b (omega arith))

  -- An entry of a table of two halves.
  halved :
      (xs ys : List ℕ) (b : ℕ)
      → length xs ≡ 128
      → (b < 128 → get_or (xs ++ ys) b 0 ≡ get_or xs b 0)
        × ((i : ℕ) → b ≡ 128 + i → get_or (xs ++ ys) b 0 ≡ get_or ys i 0)
  halved xs ys b e = (
    λ lt. get_or-append_lt xs ys b 0 (omega arith),
    λ i p. let p' : b ≡ length xs + i = omega arith in rw p' (get_or-append_ge xs ys i 0),
  )

  pub signed_offsets-start :
      (b : ℕ)
      → b < 256
      → get_or (signed_offsets h) b 0 ≡ start signed_rank signed_rank signed-Ranks (at h) b
  unfolding signed_offsets
  signed_offsets-start b lt =
      let n = add_counts 0 (drop 128 h) in
      let parts =
        halved (offsets n (take 128 h)) (offsets 0 (drop 128 h)) b
          (length-offsets (take 128 h) n ∙ length-lower) in
      let shifted : (k : ℕ)
          → k ≤ 128
          → total (λ i. at h (signed_rank i)) k ≡ total (λ i. at h (128 + i)) k =
        λ k le.
          total_ext (λ i. at h (signed_rank i)) (λ i. at h (128 + i)) k
            (λ i less. ap (at h) (signed_low i (omega arith))) in
      elim (dec_lt b 128) [
        | yes p ↦
            parts.0 p
            ∙ positive signed_rank signed_rank signed-Ranks b (shifted 128 (omega arith))
                (λ r less. signed_above r) (signed_low b p) p
        | no np ↦
            let place : signed_rank b ≡ b - 128 = signed_high b (omega arith) in
            let all : total (at (drop 128 h)) (length (drop 128 h))
                ≡ total (λ i. at h (128 + i)) 128 =
              ap (total (at (drop 128 h))) length-upper ∙ upper h 128 in
            parts.1 (b - 128) (omega arith)
            ∙ offsets-total 0 (drop 128 h) (b - 128) (omega (arith, halves h))
                (omega (arith, length-upper))
            ∙ omega (arith, upper h (b - 128))
            ∙ sym (shifted (b - 128) (omega arith))
            ∙ ap (total (λ i. at h (signed_rank i))) (sym place)
      ]

  -- Of a negative byte it is the end of the region.
  pub float_offsets-start :
      (b : ℕ)
      → b < 256
      → get_or (float_offsets h) b 0 ≡ (
          if leb 128 b
          then start float_rank float_unrank float-Ranks (at h) b + at h b
          else start float_rank float_unrank float-Ranks (at h) b)
  unfolding float_offsets total
  float_offsets-start b lt =
      let n = add_counts 0 (drop 128 h) in
      let f = λ (i : ℕ). at h (128 + i) in
      let parts =
        halved (offsets n (take 128 h)) (offsets_back (drop 128 h)) b
          (length-offsets (take 128 h) n ∙ length-lower) in
      let reversed : (k : ℕ)
          → k ≤ 128
          → total (λ r. at h (float_unrank r)) k ≡ total (λ i. f (128 - suc i)) k =
        λ k le.
          total_ext (λ r. at h (float_unrank r)) (λ i. f (128 - suc i)) k
            (λ i less. ap (at h) (float_below i (omega arith))) in
      elim (dec_lt b 128) [
        | yes p ↦
            let t = leb_low b p in
            rw t (
              parts.0 p
              ∙ positive float_rank float_unrank float-Ranks b
                  (reversed 128 (omega arith) ∙ total_reverse f 128) (λ r less. float_above r)
                  (float_low b p) p)
        | no np ↦
            let t = leb_high b (omega arith) in
            let j = b - 128 in
            let k = 128 - j in
            let place : suc (float_rank b) ≡ k = float_high b (omega arith) lt in
            let here : float_unrank (float_rank b) ≡ b = float-Ranks.unrank-rank b lt in
            let len : length (drop 128 h) - j ≡ k = omega (arith, length-upper) in
            let all : total (at (drop 128 h)) (length (drop 128 h))
                ≡ total (λ i. at h (128 + i)) 128 =
              ap (total (at (drop 128 h))) length-upper ∙ upper h 128 in
            rw t (
              parts.1 j (omega arith)
              ∙ offsets_back-total (drop 128 h) j (omega (arith, halves h))
              ∙ ap (total (λ i. at (drop 128 h) (j + i))) len
              ∙ total_ext (λ i. at (drop 128 h) (j + i)) (λ i. f (j + i)) k
                  (λ i less. get_or-drop h 128 (j + i) 0)
              ∙ sym (total_reverse (λ i. f (j + i)) k)
              ∙ total_ext (λ i. f (j + (k - suc i))) (λ i. f (128 - suc i)) k
                  (λ i less. let e : j + (k - suc i) ≡ 128 - suc i = omega arith in ap f e)
              ∙ sym (reversed k (omega arith))
              ∙ ap (total (λ r. at h (float_unrank r))) (sym place)
              ∙ ap (λ x. total (λ r. at h (float_unrank r)) (float_rank b) + at h x) here)
      ]
