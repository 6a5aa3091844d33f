-- ===== src/RadixSort/Ranks.antt =====
-- The order in which the passes of foundation/radixsort.c lay out the bytes in an index table.
use foundation_lib.Prelude.{
  ℕ, zero, suc, ◌+◌, ◌^◌, ◌≤◌, ◌<◌, ◌≡◌, refl, sym, ap, ap₂, ◌∙◌, ◌≢◌, inl, inr, Bool, List, [],
  ◌∷◌, ◌++◌, arith, dec_lt, ℕ_discrete, if◌then◌else◌, Bool-cases, length, length-append,
  length-set, get_or, take, slice, take-add,
}
use foundation_lib.RadixSort.{scatter}
use foundation_lib.RadixSort.Buckets.{bucket, gather}
use foundation_lib.RadixSort.Scatter.{Regions, Placed, block, first, scatter-Placed}

-- The sum of the first `n` values.
unfoldable pub total : (ℕ → ℕ) → ℕ → ℕ
total f zero = 0
total f (suc n) = total f n + f n

pub total_mono : (f : ℕ → ℕ) (m n : ℕ) → m ≤ n → total f m ≤ total f n
unfolding total
total_mono f m zero le = let e : m ≡ 0 = omega arith in rw e (omega arith)
total_mono f m (suc n) le = elim (ℕ_discrete m (suc n)) [
  | yes e ↦ rw e (omega arith)
  | no ne ↦ omega (arith, total_mono f m n (omega arith))
]

pub total-add : (f : ℕ → ℕ) (m n : ℕ) → total f (m + n) ≡ total f m + total (λ i. f (m + i)) n
unfolding total
total-add f m zero = let e : m + 0 ≡ m = omega arith in rw e (omega arith)
total-add f m (suc n) =
    let e : m + suc n ≡ suc (m + n) = omega arith in rw e (omega (arith, total-add f m n))

pub total_ext : (f g : ℕ → ℕ) (n : ℕ) → ((i : ℕ) → i < n → f i ≡ g i) → total f n ≡ total g n
unfolding total
total_ext f g zero h = refl
total_ext f g (suc n) h = ap₂ ◌+◌ (total_ext f g n (λ i lt. h i (omega arith))) (h n (omega arith))

-- A place for each byte, from the lowest values to the highest.
pub record Ranks (rank unrank : ℕ → ℕ) : Type 0 where
  pub rank-lt : (b : ℕ) → b < 256 → rank b < 256
  pub unrank-lt : (r : ℕ) → r < 256 → unrank r < 256
  pub unrank-rank : (b : ℕ) → b < 256 → unrank (rank b) ≡ b
  pub rank-unrank : (r : ℕ) → r < 256 → rank (unrank r) ≡ r

-- Parts of a list, one behind another.
take-gather :
    (f : ℕ → ℕ) (blocks : ℕ → List ℕ) (next : List ℕ) (n : ℕ)
    → ((r : ℕ) → r < n → slice (total f r) (f r) next ≡ blocks r)
    → take (total f n) next ≡ gather blocks n
unfolding total gather
take-gather f blocks next zero h = refl
take-gather f blocks next (suc n) h =
    take-add (total f n) (f n) next
    ∙ ap₂ ◌++◌ (take-gather f blocks next n (λ r lt. h r (omega arith))) (h n (omega arith))

pub length-gather :
    (blocks : ℕ → List ℕ) (n : ℕ) → length (gather blocks n) ≡ total (λ r. length (blocks r)) n
unfolding gather total
length-gather blocks zero = refl
length-gather blocks (suc n) =
    length-append (gather blocks n) (blocks n)
    ∙ ap (λ k. k + length (blocks n)) (length-gather blocks n)

pub gather_ext :
    (blocks others : ℕ → List ℕ) (n : ℕ)
    → ((r : ℕ) → r < n → blocks r ≡ others r)
    → gather blocks n ≡ gather others n
unfolding gather
gather_ext blocks others zero h = refl
gather_ext blocks others (suc n) h =
    ap₂ ◌++◌ (gather_ext blocks others n (λ r lt. h r (omega arith))) (h n (omega arith))

module _ (rank unrank : ℕ → ℕ) (ranks : Ranks rank unrank) (count : ℕ → ℕ) where
  -- The region of a byte begins behind those of the bytes before it.
  abbrev pub ranked : ℕ → ℕ
  ranked r = count (unrank r)

  abbrev pub start : ℕ → ℕ
  start b = total ranked (rank b)

  behind : (b : ℕ) → b < 256 → start b + count b ≡ total ranked (suc (rank b))
  unfolding total
  behind b lt = ap (λ x. start b + count x) (sym (ranks.unrank-rank b lt))

  before : (b c : ℕ) → b < 256 → rank b < rank c → start b + count b ≤ start c
  before b c lt less =
      omega (arith, behind b lt, total_mono ranked (suc (rank b)) (rank c) (omega arith))

  pub ranked-Regions : total ranked 256 < 2 ^ 16 → Regions start count (total ranked 256)
  ranked-Regions small = record {
    apart = λ b c lt lt' ne. elim (dec_lt (rank b) (rank c)) [
      | yes p ↦ inl (before b c lt p)
      | no np ↦
          let differ : rank b ≢ rank c =
            λ e. ne (sym (ranks.unrank-rank b lt) ∙ ap unrank e ∙ ranks.unrank-rank c lt') in
          inr (before c b lt' (omega arith))
    ];
    inside = λ b lt. omega (
      arith,
      behind b lt,
      ranks.rank-lt b lt,
      total_mono ranked (suc (rank b)) 256 (omega (arith, ranks.rank-lt b lt)),
    );
    narrow = small;
  }

  module _ (down : ℕ → Bool) (radix : ℕ → ℕ) where
    -- The blocks of a table in the order of the bytes' ranks.
    abbrev pub ranked_block : List ℕ → ℕ → List ℕ
    ranked_block ids r = block down radix start count (total ranked 256) (unrank r) ids

    nothing_Placed :
        (offset next : List ℕ)
        → length offset ≡ 256
        → total ranked 256 ≤ length next
        → ((b : ℕ) → b < 256 → get_or offset b 0 ≡ (if down b then start b + count b else start b))
        → Placed down radix start count (total ranked 256) [] offset next
    nothing_Placed offset next bytes room offsets = record {
      bytes = bytes;
      room = room;
      offset_of = λ b lt. elim (Bool-cases (down b)) [
        | inl t ↦ let o = offsets b lt in rw t (rw t at o ∙ omega arith)
        | inr t ↦ let o = offsets b lt in rw t (rw t at o ∙ omega arith)
      ];
      placed = λ b lt. elim (Bool-cases (down b)) [ inl t ↦ rw t refl | inr t ↦ rw t refl ];
    }

    region_block :
        {ids offset next : List ℕ} (b : ℕ)
        → b < 256
        → length (bucket radix b ids) ≡ count b
        → Placed down radix start count (total ranked 256) ids offset next
        → slice (start b) (count b) next ≡ block down radix start count (total ranked 256) b ids
    region_block {ids} {offset} {next} b lt e held =
        let begin : first down radix start count (total ranked 256) b ids ≡ start b =
          elim (Bool-cases (down b)) [ inl t ↦ rw t (omega (arith, e)) | inr t ↦ rw t refl ] in
        ap₂ (λ i k. slice i k next) (sym begin) (sym e) ∙ held.placed b lt

    length-scatter :
        (ids offset next : List ℕ) → length (scatter down radix offset next ids).1 ≡ length next
    unfolding scatter
    length-scatter [] offset next = refl
    length-scatter (id ∷ ids) offset next = length-scatter ids _ _ ∙ length-set next _ id

    -- A pass makes these blocks of the indices, if every byte has as much room as it occurs.
    pub scatter-gather :
        (offset next ids : List ℕ)
        → ((i : ℕ) → radix i < 256)
        → total ranked 256 < 2 ^ 16
        → length offset ≡ 256
        → total ranked 256 ≤ length next
        → ((b : ℕ) → b < 256 → get_or offset b 0 ≡ (if down b then start b + count b else start b))
        → ((b : ℕ) → b < 256 → length (bucket radix b ids) ≡ count b)
        → let (offset', next') = scatter down radix offset next ids in
          (take (total ranked 256) next' ≡ gather (ranked_block ids) 256)
          × (length next' ≡ length next)
    scatter-gather offset next ids small narrow bytes room offsets counts =
        let done = scatter down radix offset next ids in
        let held =
          scatter-Placed down radix start count (total ranked 256) ids small (ranked-Regions narrow)
            (nothing_Placed offset next bytes room offsets) (λ b lt. omega (arith, counts b lt)) in
        let region : (b : ℕ)
            → b < 256
            → slice (start b) (count b) done.1
              ≡ block down radix start count (total ranked 256) b ids =
          λ b lt. region_block b lt (counts b lt) held in
        (
          take-gather ranked (ranked_block ids) done.1 256 (λ r lt.
              ap (λ s. slice (total ranked s) (ranked r) done.1) (sym (ranks.rank-unrank r lt))
              ∙ region (unrank r) (ranks.unrank-lt r lt)),
          length-scatter ids offset next,
        )
