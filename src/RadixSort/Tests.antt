-- ===== src/RadixSort/Tests.antt =====
-- Sorts of a few items of each kind.
use mathlib.Core.List.Perm
use mathlib.Core.List.{mem-cons_self}
use foundation_lib.Prelude.{ℕ, ◌≤◌, ◌≡◌, refl, false, List, [], ◌∷◌, arith, overwrite}
use foundation_lib.RadixSort.{
  Radixsort, int32, float32, less, byte, count_value, count_values, presorted, create_histograms,
  add_counts, offsets, offsets_back, unsigned_offsets, signed_offsets, float_offsets, scatter,
  distribute, never, pass_int, pass_float, passes, radixsort_by, radixsort_int, radixsort_float,
  radixsort_sort, initialize, result, order,
}
use foundation_lib.RadixSort.Ready.{IsValid}
use foundation_lib.RadixSort.Values.{order_at}
use foundation_lib.RadixSort.Create.{create_histograms-least}
use foundation_lib.RadixSort.Sort.{Sorted, radixsort_sort-Sorted}

abbrev blank : Radixsort
blank = record {
  data_type = int32;
  size = 0;
  lastused = 0;
  indices = 0 ∷ 0 ∷ 0 ∷ 0 ∷ [];
  indices_next = 0 ∷ 0 ∷ 0 ∷ 0 ∷ [];
  histogram = [];
  offset = [];
}

-- 7, -2, 300 and -400.
abbrev numbers : List ℕ
numbers = 7 ∷ 0xfffffffe ∷ 300 ∷ 0xfffffe70 ∷ []

-- 1.0, -1.5, -0.25 and 0.5.
abbrev floats : List ℕ
floats = 0x3f800000 ∷ 0xbfc00000 ∷ 0xbe800000 ∷ 0x3f000000 ∷ []

sort_numbers : result (radixsort_sort (initialize blank int32 4) numbers) ≡ 3 ∷ 1 ∷ 0 ∷ 2 ∷ []
unfolding less byte count_value count_values presorted create_histograms add_counts offsets
    offsets_back unsigned_offsets signed_offsets float_offsets scatter distribute never pass_int
    pass_float passes radixsort_by radixsort_int radixsort_float radixsort_sort initialize overwrite
sort_numbers = refl

sort_floats : result (radixsort_sort (initialize blank float32 4) floats) ≡ 1 ∷ 2 ∷ 3 ∷ 0 ∷ []
unfolding less byte count_value count_values presorted create_histograms add_counts offsets
    offsets_back unsigned_offsets signed_offsets float_offsets scatter distribute never pass_int
    pass_float passes radixsort_by radixsort_int radixsort_float radixsort_sort initialize overwrite
sort_floats = refl

-- In order already, but the first item is not the least.
numbers_again :
    (create_histograms
      (record (radixsort_sort (initialize blank int32 4) numbers) { offset = [] })
      numbers).0
    ≡ false
unfolding less byte count_value count_values presorted create_histograms add_counts offsets
    offsets_back unsigned_offsets signed_offsets float_offsets scatter distribute never pass_int
    pass_float passes radixsort_by radixsort_int radixsort_float radixsort_sort initialize overwrite
numbers_again = refl

abbrev floats_sorter : Radixsort
floats_sorter = record blank {
  data_type = float32;
  size = 4;
  lastused = 4;
  indices = 0 ∷ 1 ∷ 2 ∷ 3 ∷ [];
}

floats_sorter-IsValid : IsValid floats_sorter
floats_sorter-IsValid = record {
  used = omega arith;
  narrow = omega arith;
  ready = record {
    typed = refl;
    capacity = refl;
    table = refl;
    next_table = refl;
    permuted = Perm.rfl;
  };
}

radixsort_sort-Sorted_example :
    IsValid (radixsort_sort floats_sorter floats)
    × Sorted float32 floats refl (radixsort_sort floats_sorter floats)
radixsort_sort-Sorted_example =
    radixsort_sort-Sorted floats_sorter floats refl floats_sorter-IsValid (omega arith)

create_histograms-least_example :
    order float32 0x3f000000 ≤ order_at float32 (0x3f000000 ∷ 0x3f800000 ∷ []) refl 0
unfolding create_histograms
create_histograms-least_example =
    create_histograms-least floats_sorter (0x3f000000 ∷ 0x3f800000 ∷ []) refl floats_sorter-IsValid
      (omega arith) (omega arith) refl 0 mem-cons_self
