-- ===== src/RadixSort/Distribute.antt =====
-- A pass of foundation/radixsort.c over the indices.
use mathlib.Core.List.{reverse, reverse_perm, Perm, Mem}
use mathlib.Core.List.Perm
use mathlib.Core.List.Pairwise
use foundation_lib.Prelude.{
  ℕ, ◌+◌, ◌^◌, ◌≤◌, ◌<◌, ◌≡◌, refl, sym, ap, ap₂, ◌∙◌, inl, inr, Bool, true, false, List, [], ◌∷◌,
  arith, ℕ_discrete, if◌then◌else◌, Bool-cases, length, get_or, take,
}
use foundation_lib.RadixSort.{scatter}
use foundation_lib.RadixSort.Buckets.{
  bucket, bucket-hit, bucket-miss, gather, gather-Perm, gather-Perm_blocks, gather-IsSorted,
  bucket-digit, bucket-IsSorted, reverse-IsSorted, length-Perm, IsSorted,
}
use foundation_lib.RadixSort.Ranks.{
  total, total_ext, Ranks, start, length-gather, gather_ext, scatter-gather,
}

module _ (rank unrank : ℕ → ℕ) (ranks : Ranks rank unrank) (radix : ℕ → ℕ)
    (small : (i : ℕ) → radix i < 256) where
  -- The bucket of a byte is that of its rank.
  bucket-rank :
      (r : ℕ) (ids : List ℕ)
      → r < 256
      → bucket radix (unrank r) ids ≡ bucket (λ i. rank (radix i)) r ids
  bucket-rank r [] lt = refl
  bucket-rank r (x ∷ ids) lt = elim (ℕ_discrete (radix x) (unrank r)) [
    | yes q ↦
        bucket-hit radix ids q
        ∙ ap (λ l. x ∷ l) (bucket-rank r ids lt)
        ∙ sym (bucket-hit (λ i. rank (radix i)) ids (ap rank q ∙ ranks.rank-unrank r lt))
    | no nq ↦
        bucket-miss radix ids nq
        ∙ bucket-rank r ids lt
        ∙ sym (
            bucket-miss (λ i. rank (radix i)) ids
              (λ e. nq (sym (ranks.unrank-rank (radix x) (small x)) ∙ ap unrank e)))
  ]

  -- All the bytes' counts together.
  pub total-buckets :
      (ids : List ℕ) → total (λ r. length (bucket radix (unrank r) ids)) 256 ≡ length ids
  total-buckets ids =
      total_ext (λ r. length (bucket radix (unrank r) ids))
        (λ r. length (bucket (λ i. rank (radix i)) r ids)) 256
        (λ r lt. ap length (bucket-rank r ids lt))
      ∙ sym (length-gather (λ r. bucket (λ i. rank (radix i)) r ids) 256)
      ∙ length-Perm
          (gather-Perm (λ i. rank (radix i)) 256 ids (λ x. ranks.rank-lt (radix x) (small x)))

  module _ (down : ℕ → Bool) where
    abbrev pub digit_block : List ℕ → ℕ → List ℕ
    digit_block ids r =
        if down (unrank r)
        then reverse (bucket (λ i. rank (radix i)) r ids)
        else bucket (λ i. rank (radix i)) r ids

    pub scatter-blocks :
        (count : ℕ → ℕ) (offset next ids : List ℕ)
        → length ids < 2 ^ 16
        → length ids ≤ length next
        → length offset ≡ 256
        → ((b : ℕ)
            → b < 256
            → get_or offset b 0 ≡ (
                if down b
                then start rank unrank ranks count b + count b
                else start rank unrank ranks count b))
        → ((b : ℕ) → b < 256 → length (bucket radix b ids) ≡ count b)
        → let (offset', next') = scatter down radix offset next ids in
          (take (length ids) next' ≡ gather (digit_block ids) 256) × (length next' ≡ length next)
    scatter-blocks count offset next ids narrow room bytes offsets counts =
        let n : total (λ r. count (unrank r)) 256 ≡ length ids =
          sym (
            total_ext (λ r. length (bucket radix (unrank r) ids)) (λ r. count (unrank r)) 256
              (λ r lt. counts (unrank r) (ranks.unrank-lt r lt)))
          ∙ total-buckets ids in
        let (parts, size) =
          scatter-gather rank unrank ranks count down radix offset next ids small (omega (arith, n))
            bytes (omega (arith, n)) offsets counts in
        let next' = (scatter down radix offset next ids).1 in
        (
          ap (λ k. take k next') (sym n)
              ∙ parts
              ∙ gather_ext _ (digit_block ids) 256 (λ r lt.
                ap₂ (λ a b. if down (unrank r) then a else b) (ap reverse (bucket-rank r ids lt))
                  (bucket-rank r ids lt)),
          size,
        )

    block-Perm :
        (ids : List ℕ) (r : ℕ) → Perm (digit_block ids r) (bucket (λ i. rank (radix i)) r ids)
    block-Perm ids r = elim (Bool-cases (down (unrank r))) [
      | inl t ↦ rw t (reverse_perm (bucket (λ i. rank (radix i)) r ids))
      | inr t ↦ rw t Perm.rfl
    ]

    pub blocks-Perm : (ids : List ℕ) → Perm (gather (digit_block ids) 256) ids
    blocks-Perm ids =
        Perm.trans
          (gather-Perm_blocks (digit_block ids) (λ r. bucket (λ i. rank (radix i)) r ids) 256
            (block-Perm ids))
          (gather-Perm (λ i. rank (radix i)) 256 ids (λ x. ranks.rank-lt (radix x) (small x)))

    member : (ids : List ℕ) (r x : ℕ) → Mem x (digit_block ids r) → rank (radix x) ≡ r
    member ids r x m =
        bucket-digit (λ i. rank (radix i)) r ids x ((Perm.mem_iff (block-Perm ids r)).0 m)

    here : (i r : ℕ) → rank (radix i) ≡ r → radix i ≡ unrank r
    here i r e = sym (ranks.unrank-rank (radix i) (small i)) ∙ ap unrank e

    block-IsSorted :
        (low key : ℕ → ℕ) (ids : List ℕ)
        → ((i j : ℕ)
            → rank (radix i) ≡ rank (radix j)
            → down (radix i) ≡ false
            → low i ≤ low j
            → key i ≤ key j)
        → ((i j : ℕ)
            → rank (radix i) ≡ rank (radix j)
            → down (radix i) ≡ true
            → low i ≤ low j
            → key j ≤ key i)
        → IsSorted low ids
        → (r : ℕ) → IsSorted key (digit_block ids r)
    block-IsSorted low key ids up turned sorted r =
        let digit = λ (i : ℕ). rank (radix i) in
        let s = bucket-IsSorted digit low r ids sorted in
        let d = λ (i : ℕ) (m : Mem i (bucket digit r ids)). bucket-digit digit r ids i m in
        elim (Bool-cases (down (unrank r))) [
          | inl t ↦ rw t (
              reverse-IsSorted key (
                Pairwise.imp_of_mem
                  (λ i j m m' le.
                    turned i j (d i m ∙ sym (d j m')) (ap down (here i r (d i m)) ∙ t) le)
                  s))
          | inr t ↦ rw t (
              Pairwise.imp_of_mem
                (λ i j m m' le. up i j (d i m ∙ sym (d j m')) (ap down (here i r (d i m)) ∙ t) le)
                s)
        ]

    -- Indices in the order of their low bytes come out in the order of a key that goes by the digit and
    -- then by the low bytes, up or down as the block.
    pub blocks-IsSorted :
        (low key : ℕ → ℕ) (ids : List ℕ)
        → ((i j : ℕ) → rank (radix i) < rank (radix j) → key i ≤ key j)
        → ((i j : ℕ)
            → rank (radix i) ≡ rank (radix j)
            → down (radix i) ≡ false
            → low i ≤ low j
            → key i ≤ key j)
        → ((i j : ℕ)
            → rank (radix i) ≡ rank (radix j)
            → down (radix i) ≡ true
            → low i ≤ low j
            → key j ≤ key i)
        → IsSorted low ids
        → IsSorted key (gather (digit_block ids) 256)
    blocks-IsSorted low key ids apart up turned sorted =
        gather-IsSorted (λ i. rank (radix i)) key (digit_block ids) 256 apart (member ids)
          (block-IsSorted low key ids up turned sorted)
