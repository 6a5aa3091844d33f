-- ===== src/RadixSort/Sort.antt =====
-- `radixsort_sort` of foundation/radixsort.c.
use mathlib.Core.Path.{subst}
use mathlib.Core.List.{Perm}
use mathlib.Core.List.Perm
use mathlib.Core.List.Pairwise
use foundation_lib.Prelude.{
  ℕ, suc, ◌-◌, ◌^◌, ◌≤◌, ◌<◌, ◌≡◌, refl, sym, ap, ◌∙◌, inl, inr, true, false, List, [], arith,
  ℕ_discrete, ◌==◌, if◌then◌else◌, Bool-cases, length, take, overwrite, length-overwrite,
  take-overwrite,
}
use foundation_lib.RadixSort.{
  DataType, int32, uint32, int64, uint64, float32, float64, Radixsort, data_size, is_float,
  pass_int, pass_float, create_histograms, radixsort_by, radixsort_int, radixsort_float,
  radixsort_sort, result, initialize, indices_from,
}
use foundation_lib.RadixSort.Buckets.{IsSorted}
use foundation_lib.RadixSort.Orders.{low}
use foundation_lib.RadixSort.Values.{is_value, all_of, order_at}
use foundation_lib.RadixSort.Ready.{length-indices_from, Ready, IsValid}
use foundation_lib.RadixSort.Create.{create_histograms-Created}
use foundation_lib.RadixSort.Pass.{Ordered}
use foundation_lib.RadixSort.Passes.{key, middle_int, middle_float}
use foundation_lib.RadixSort.LastPass.{
  size-pos, constant-IsSorted, last-Refines, passes-Ordered, last_signed, last_unsigned, last_float,
}

-- The last pass of the function for a type.
abbrev pass_for : DataType → List ℕ → ℕ → Radixsort → Radixsort
pass_for t input = if is_float t then pass_float input else pass_int input

last_pass :
    (t : DataType) (size : ℕ) (input : List ℕ) (narrow : size < 2 ^ 16) (fits : length input ≤ size)
    (values : all_of (is_value t) input ≡ true) (sort : Radixsort)
    → Ordered t size input (key t size input narrow fits (data_size t - 1)) sort
    → Ordered t size input (order_at t input values) (pass_for t input (data_size t - 1) sort)
last_pass int32 size input narrow fits values sort =
    last_signed int32 size input narrow fits values sort refl
      (last-Refines int32 size input narrow fits values)
last_pass uint32 size input narrow fits values sort =
    last_unsigned uint32 size input narrow fits values sort refl
      (last-Refines uint32 size input narrow fits values)
last_pass int64 size input narrow fits values sort =
    last_signed int64 size input narrow fits values sort refl
      (last-Refines int64 size input narrow fits values)
last_pass uint64 size input narrow fits values sort =
    last_unsigned uint64 size input narrow fits values sort refl
      (last-Refines uint64 size input narrow fits values)
last_pass float32 size input narrow fits values sort =
    last_float float32 size input narrow fits values sort
      (last-Refines float32 size input narrow fits values)
last_pass float64 size input narrow fits values sort =
    last_float float64 size input narrow fits values sort
      (last-Refines float64 size input narrow fits values)

middle_pass :
    (t : DataType) (size : ℕ) (input : List ℕ) (narrow : size < 2 ^ 16) (fits : length input ≤ size)
    (p : ℕ) (sort : Radixsort)
    → suc p < data_size t
    → Ordered t size input (key t size input narrow fits p) sort
    → Ordered t size input (key t size input narrow fits (suc p)) (pass_for t input p sort)
middle_pass t size input narrow fits p sort lt held = elim (Bool-cases (is_float t)) [
  | inl f ↦ rw f (middle_float t size input narrow fits p sort lt held)
  | inr f ↦ rw f (middle_int t size input narrow fits p sort lt held)
]

-- The result of a sort.
pub record Sorted (t : DataType) (input : List ℕ) (values : all_of (is_value t) input ≡ true)
    (sort : Radixsort) : Type 0 where
  pub permutation : Perm (result sort) (indices_from 0 (length input))
  pub ordered : IsSorted (order_at t input values) (result sort)

module _ (sort : Radixsort) (input : List ℕ)
    (values : all_of (is_value sort.data_type) input ≡ true) (valid : IsValid sort)
    (fits : length input ≤ sort.size) where
  -- A sort of items.
  sort_items :
      0 < length input
      → let sort' = radixsort_by (pass_for sort.data_type input) sort input in
        Ready sort.data_type sort.size (length input) sort'
        × IsSorted (order_at sort.data_type input values) (take (length input) sort'.indices)
  unfolding radixsort_by low
  sort_items pos =
      let t = sort.data_type in
      let size = sort.size in
      let c = create_histograms-Created sort input values valid fits pos in
      let (flag, sort') = create_histograms sort input in
      let nz : (length input == 0) ≡ false = ground arith in
      elim (Bool-cases flag) [
        | inl f ↦ rw (nz, f) (c.ready, c.in_order f)
        | inr f ↦
            let start : Ordered t size input (key t size input valid.narrow fits 0) sort' = record {
              ready = c.ready;
              counted = c.counted f;
              sorted =
                  constant-IsSorted (λ i. 0) (take (length input) sort'.indices)
                    (λ i j. omega arith);
            } in
            let done =
              passes-Ordered t size input valid.narrow fits values (pass_for t input)
                (middle_pass t size input valid.narrow fits)
                (last_pass t size input valid.narrow fits values) (data_size t) 0 sort'
                (omega arith) (size-pos t) start in
            rw (nz, f) (done.ready, done.sorted)
      ]

  one_function :
      radixsort_sort sort input
      ≡ record (radixsort_by (pass_for sort.data_type input) sort input) { lastused = length input }
  unfolding radixsort_sort radixsort_int radixsort_float
  one_function = elim (Bool-cases (is_float sort.data_type)) [
    | inl f ↦ rw f refl
    | inr f ↦ rw f refl
  ]

  nothing_sorted : length input ≡ 0 → radixsort_by (pass_for sort.data_type input) sort input ≡ sort
  unfolding radixsort_by
  nothing_sorted e = let t : (length input == 0) ≡ true = ground arith in rw t refl

  settled :
      (sort' : Radixsort)
      → Ready sort.data_type sort.size (length input) sort'
      → IsSorted (order_at sort.data_type input values) (take (length input) sort'.indices)
      → IsValid (record sort' { lastused = length input })
        × Sorted sort.data_type input values (record sort' { lastused = length input })
  settled sort' ready ordered = (
    record {
      used = omega (arith, ready.capacity);
      narrow = omega (arith, ready.capacity, valid.narrow);
      ready = record {
        typed = refl;
        capacity = refl;
        table = ready.table ∙ sym ready.capacity;
        next_table = ready.next_table ∙ sym ready.capacity;
        permuted = ready.permuted;
      };
    },
    record { permutation = ready.permuted; ordered = ordered },
  )

  -- Sorting as many items as a valid sorter has room for, with values of its type and no NaN among
  -- them, gives a permutation of their indices along which the values do not fall, whatever the sorter
  -- has sorted before, and a valid sorter.
  pub radixsort_sort-Sorted :
      IsValid (radixsort_sort sort input)
      × Sorted sort.data_type input values (radixsort_sort sort input)
  radixsort_sort-Sorted = elim (ℕ_discrete (length input) 0) [
    | yes e ↦
        let none : take (length input) sort.indices ≡ [] = ap (λ n. take n sort.indices) e in
        rw (one_function, nothing_sorted e)
          (settled sort
            (record {
              typed = refl;
              capacity = refl;
              table = valid.ready.table;
              next_table = valid.ready.next_table;
              permuted = rw e Perm.rfl;
            })
            (rw none Pairwise.nil))
    | no ne ↦
        let (ready, ordered) = sort_items (omega arith) in rw one_function (settled _ ready ordered)
  ]

-- `radixsort_initialize` makes a sorter valid.
pub initialize-IsValid :
    (sort : Radixsort) (t : DataType) (num : ℕ)
    → num < 2 ^ 16
    → length sort.indices ≡ num
    → length sort.indices_next ≡ num
    → IsValid (initialize sort t num)
unfolding initialize
initialize-IsValid sort t num narrow table next_table =
    let n = length-indices_from num 0 in
    let first : take num (overwrite sort.indices 0 (indices_from 0 num)) ≡ indices_from 0 num =
      ap (λ k. take k (overwrite sort.indices 0 (indices_from 0 num))) (sym n ∙ omega arith)
      ∙ take-overwrite sort.indices 0 (indices_from 0 num) (omega arith) in
    record {
      used = omega arith;
      narrow = narrow;
      ready = record {
        typed = refl;
        capacity = refl;
        table = length-overwrite sort.indices 0 (indices_from 0 num) (omega arith) ∙ table;
        next_table =
            length-overwrite sort.indices_next 0 (indices_from 0 num) (omega arith) ∙ next_table;
        permuted = subst (λ l. Perm l (indices_from 0 num)) (sym first) Perm.rfl;
      };
    }
