-- ===== src/RadixSort/Pass.antt =====
-- A pass of foundation/radixsort.c takes indices in the order of the lower bytes to the order of one byte more.
use mathlib.Core.Path.{subst}
use mathlib.Core.Logic.Or
use mathlib.Core.List.{Perm, Mem, reverse, reverse_perm, eq-or-mem_of_mem-cons, not-mem-nil}
use mathlib.Core.List.Perm
use mathlib.Core.List.Pairwise
use native.Mathlib.Nat.{ℕ_set}
use foundation_lib.Prelude.{
  ℕ, ◌+◌, ◌^◌, ◌≤◌, ◌<◌, ◌≡◌, sym, ap, ◌∙◌, Bool, true, false, List, [], ◌∷◌, arith, ℕ_discrete,
  if◌then◌else◌, ==_iff, length, get_or, take, length-take, overwrite, length-overwrite,
  take-overwrite,
}
use foundation_lib.RadixSort.{
  DataType, Radixsort, data_size, byte, byte_at, distribute, scatter, is_unique, indices_from,
}
use foundation_lib.RadixSort.Histograms.{byte-lt, indices_from-bucket}
use foundation_lib.RadixSort.Buckets.{
  bucket, bucket-hit, bucket-miss, gather, IsSorted, length-Perm, reverse-IsSorted,
}
use foundation_lib.RadixSort.Ranks.{total, total_ext, Ranks, start}
use foundation_lib.RadixSort.Totals.{at}
use foundation_lib.RadixSort.Places.{plain, plain-Ranks}
use foundation_lib.RadixSort.Distribute.{
  digit_block, scatter-blocks, blocks-Perm, blocks-IsSorted, total-buckets,
}
use foundation_lib.RadixSort.Ready.{Ready, Counted}

-- A sorter that is ready, with the histograms of the items and the indices in the order of a key.
pub record Ordered (t : DataType) (size : ℕ) (input : List ℕ) (key : ℕ → ℕ) (sort : Radixsort)
    : Type 0 where
  pub ready : Ready t size (length input) sort
  pub counted : Counted t input sort.histogram
  pub sorted : IsSorted key (take (length input) sort.indices)

bucket-le : (f : ℕ → ℕ) (c : ℕ) (xs : List ℕ) → length (bucket f c xs) ≤ length xs
bucket-le f c [] = omega arith
bucket-le f c (x ∷ xs) = elim (ℕ_discrete (f x) c) [
  | yes q ↦ omega (arith, ap length (bucket-hit f xs q), bucket-le f c xs)
  | no nq ↦ omega (arith, ap length (bucket-miss f xs nq), bucket-le f c xs)
]

-- A bucket that holds everything.
bucket_full :
    (f : ℕ → ℕ) (c : ℕ) (xs : List ℕ)
    → length (bucket f c xs) ≡ length xs
    → (x : ℕ) → Mem x xs
    → f x ≡ c
bucket_full f c [] e x m = absurd (not-mem-nil m)
bucket_full f c (y ∷ xs) e x m = elim (ℕ_discrete (f y) c) [
  | yes q ↦
      Or.elim (ℕ_set (f x) c) (eq-or-mem_of_mem-cons m) (λ (same : x ≡ y). ap f same ∙ q)
        (λ (m' : Mem x xs). bucket_full f c xs (omega (arith, ap length (bucket-hit f xs q))) x m')
  | no nq ↦ absurd (omega (arith, ap length (bucket-miss f xs nq), bucket-le f c xs))
]

module _ (t : DataType) (size : ℕ) (input : List ℕ) (narrow : size < 2 ^ 16)
    (fits : length input ≤ size) (p : ℕ) (inside : p < data_size t) where
  abbrev radix : ℕ → ℕ
  radix i = byte_at input p i

  small : (i : ℕ) → radix i < 256
  small i = byte-lt p (get_or input i 0)

  module _ (key : ℕ → ℕ) (sort : Radixsort) (held : Ordered t size input key sort) where
    abbrev ids : List ℕ
    ids = take (length input) sort.indices

    abbrev row : List ℕ
    row = get_or sort.histogram p []

    length-ids : length ids ≡ length input
    length-ids = omega (arith, length-take (length input) sort.indices, held.ready.table)

    -- The histogram of the pass counts the bytes of the indices.
    counts-ids : (b : ℕ) → b < 256 → length (bucket radix b ids) ≡ at row b
    counts-ids b lt =
        length-Perm (Perm.filter (λ i. ℕ_discrete (byte_at input p i) b) held.ready.permuted)
        ∙ indices_from-bucket (byte_at input p) (byte p) b 0 input
            (λ j less. ap (byte_at input p) (omega arith))
        ∙ sym (held.counted.counts p b inside lt)

    pub all_counts : total (at row) 256 ≡ length input
    all_counts =
        sym (total_ext (λ b. length (bucket radix b ids)) (at row) 256 counts-ids)
        ∙ total-buckets plain plain plain-Ranks radix small ids
        ∙ length-ids

    -- The indices go where the offsets say.
    pub distributed :
        (rank unrank : ℕ → ℕ) (ranks : Ranks rank unrank) (down : ℕ → Bool) (table : List ℕ)
        (key' : ℕ → ℕ)
        → length table ≡ 256
        → ((b : ℕ)
            → b < 256
            → get_or table b 0 ≡ (
                if down b
                then start rank unrank ranks (at row) b + at row b
                else start rank unrank ranks (at row) b))
        → ((i j : ℕ) → rank (radix i) < rank (radix j) → key' i ≤ key' j)
        → ((i j : ℕ)
            → rank (radix i) ≡ rank (radix j)
            → down (radix i) ≡ false
            → key i ≤ key j
            → key' i ≤ key' j)
        → ((i j : ℕ)
            → rank (radix i) ≡ rank (radix j)
            → down (radix i) ≡ true
            → key i ≤ key j
            → key' j ≤ key' i)
        → Ordered t size input key' (distribute down input p table sort)
    unfolding distribute
    distributed rank unrank ranks down table key' bytes offsets apart up turned =
        let (parts, size') =
          scatter-blocks rank unrank ranks radix small down (at row) table sort.indices_next ids
            (omega (arith, length-ids)) (omega (arith, length-ids, held.ready.next_table)) bytes
            offsets counts-ids in
        let next = (scatter down radix table sort.indices_next ids).1 in
        let made : take (length input) next
            ≡ gather (digit_block rank unrank ranks radix small down ids) 256 =
          ap (λ n. take n next) (sym length-ids) ∙ parts in
        record {
          ready = record {
            typed = held.ready.typed;
            capacity = held.ready.capacity;
            table = size' ∙ held.ready.next_table;
            next_table = held.ready.table;
            permuted =
                subst (λ l. Perm l (indices_from 0 (length input))) (sym made)
                  (Perm.trans (blocks-Perm rank unrank ranks radix small down ids)
                    held.ready.permuted);
          };
          counted = held.counted;
          sorted = subst (IsSorted key') (sym made) (
              blocks-IsSorted rank unrank ranks radix small down key key' ids apart up turned
                held.sorted);
        }

    -- The items have one byte in common.
    common : is_unique input p sort ≡ true → (i : ℕ) → Mem i ids → radix i ≡ radix 0
    common e =
        let n : at row (radix 0) ≡ length input = (==_iff (at row (radix 0)) (length input)).0 e in
        bucket_full radix (radix 0) ids (counts-ids (radix 0) (small 0) ∙ n ∙ sym length-ids)

    -- Then the order is that of one byte more.
    pub unique-Ordered :
        (rank : ℕ → ℕ) (down : ℕ → Bool) (key' : ℕ → ℕ)
        → is_unique input p sort ≡ true
        → down (radix 0) ≡ false
        → ((i j : ℕ)
            → rank (radix i) ≡ rank (radix j)
            → down (radix i) ≡ false
            → key i ≤ key j
            → key' i ≤ key' j)
        → Ordered t size input key' sort
    unique-Ordered rank down key' e d up = record {
      ready = held.ready;
      counted = held.counted;
      sorted =
          Pairwise.imp_of_mem
            (λ i j m m' le.
              up i j (ap rank (common e i m ∙ sym (common e j m'))) (ap down (common e i m) ∙ d) le)
            held.sorted;
    }

    -- Or the other way round.
    pub reversed-Ordered :
        (rank : ℕ → ℕ) (down : ℕ → Bool) (key' : ℕ → ℕ)
        → is_unique input p sort ≡ true
        → down (radix 0) ≡ true
        → ((i j : ℕ)
            → rank (radix i) ≡ rank (radix j)
            → down (radix i) ≡ true
            → key i ≤ key j
            → key' j ≤ key' i)
        → Ordered t size input key' (record sort {
          indices = overwrite sort.indices_next 0 (reverse ids);
          indices_next = sort.indices;
        })
    reversed-Ordered rank down key' e d turned =
        let n : length (reverse ids) ≡ length input = length-Perm (reverse_perm ids) ∙ length-ids in
        let made : take (length input) (overwrite sort.indices_next 0 (reverse ids)) ≡ reverse ids =
          ap (λ k. take k (overwrite sort.indices_next 0 (reverse ids))) (sym n ∙ omega arith)
          ∙ take-overwrite sort.indices_next 0 (reverse ids)
              (omega (arith, held.ready.next_table)) in
        record {
          ready = record {
            typed = held.ready.typed;
            capacity = held.ready.capacity;
            table =
                length-overwrite sort.indices_next 0 (reverse ids)
                  (omega (arith, held.ready.next_table))
                ∙ held.ready.next_table;
            next_table = held.ready.table;
            permuted =
                subst (λ l. Perm l (indices_from 0 (length input))) (sym made)
                  (Perm.trans (reverse_perm ids) held.ready.permuted);
          };
          counted = held.counted;
          sorted = subst (IsSorted key') (sym made) (
              reverse-IsSorted key' (
                Pairwise.imp_of_mem
                  (λ i j m m' le.
                    turned i j (ap rank (common e i m ∙ sym (common e j m')))
                      (ap down (common e i m) ∙ d) le)
                  held.sorted));
        }
