-- ===== src/RadixSort/Create.antt =====
-- `radixsort_create_histograms` of foundation/radixsort.c: the index tables and the histograms before the
-- passes, or the order that is there already.
use mathlib.Core.Path.{subst}
use mathlib.Core.Bool.{true≢false}
use mathlib.Core.List.{Perm, Mem}
use mathlib.Core.List.Perm
use foundation_lib.Prelude.{
  ℕ, ◌+◌, ◌-◌, ◌≤◌, ◌<◌, ◌≡◌, refl, sym, ap, ◌∙◌, inl, inr, Bool, true, false, List, [], arith,
  ℕ_discrete, leb, ◌==◌, if◌then◌else◌, leb→le, Bool-cases, length, get_or, take, replicate,
  overwrite, length-overwrite, take-overwrite, get_or-replicate,
}
use foundation_lib.RadixSort.{
  DataType, order, Radixsort, data_size, presorted, count_values, create_histograms, no_counts,
  indices_from,
}
use foundation_lib.RadixSort.Buckets.{IsSorted}
use foundation_lib.RadixSort.Histograms.{
  get_or-replicate_lt, occurs, cell, Sized, no_counts-Sized, count_values-Sized, count_values-cell,
}
use foundation_lib.RadixSort.Presorted.{Rises, presorted-Ran}
use foundation_lib.RadixSort.Values.{
  is_value, all_of, value_at, order_at, Rises-IsSorted, Rises-least,
}
use foundation_lib.RadixSort.Ready.{
  Ready, IsValid, Counted, length-indices_from, first-Perm, Rises-below,
}

-- What the histograms are made with: the sorter is ready, and either in order or counted.
pub record Created (t : DataType) (size : ℕ) (input : List ℕ)
    (values : all_of (is_value t) input ≡ true) (sorted : Bool) (sort : Radixsort) : Type 0 where
  pub ready : Ready t size (length input) sort
  pub in_order :
      sorted ≡ true → IsSorted (order_at t input values) (take (length input) sort.indices)
  pub counted : sorted ≡ false → Counted t input sort.histogram
  pub least :
      sorted ≡ true
      → (i : ℕ) → Mem i (take (length input) sort.indices)
      → order t (get_or input 0 0) ≤ order_at t input values i

module _ (sort : Radixsort) (input : List ℕ)
    (values : all_of (is_value sort.data_type) input ≡ true) (valid : IsValid sort)
    (fits : length input ≤ sort.size) where
  -- What is known when the first loop has ended.
  record Begun (hs : List (List ℕ)) (loop : List ℕ) : Type 0 where
    sized : Sized (data_size sort.data_type) hs
    counts :
        (p b : ℕ)
        → p < data_size sort.data_type
        → b < 256
        → cell hs p b + occurs p b loop ≡ occurs p b input
    short :
        (p b : ℕ)
        → p < data_size sort.data_type
        → b < 256
        → cell hs p b + length loop ≤ length input
    rises :
        length loop ≡ 0
        → (length input ≤ sort.lastused)
          × Rises sort.data_type input (get_or input 0 0) (take (length input) sort.indices)

  first_loop : List (List ℕ) × List ℕ
  first_loop =
      if leb (length input) sort.lastused
      then presorted sort.data_type input (get_or input 0 0) (no_counts sort.data_type) input
          sort.indices
      else (no_counts sort.data_type, input)

  no_cell : (p b : ℕ) → p < data_size sort.data_type → cell (no_counts sort.data_type) p b ≡ 0
  no_cell p b lt =
      ap (λ h. get_or h b 0)
        (get_or-replicate_lt (data_size sort.data_type) p (replicate 256 0) [] lt)
      ∙ get_or-replicate 256 b 0

  first_loop-Begun : 0 < length input → Begun first_loop.0 first_loop.1
  unfolding first_loop
  first_loop-Begun pos = elim (Bool-cases (leb (length input) sort.lastused)) [
    | inl t ↦
        let r =
          presorted-Ran sort.data_type (data_size sort.data_type) input input sort.indices
            (get_or input 0 0) (no_counts-Sized (data_size sort.data_type)) in
        let top = valid.narrow in
        rw t (record {
          sized = r.sized;
          counts = λ p b lt lt'.
              omega (arith, no_cell p b lt, r.counts p b lt lt' (omega (arith, no_cell p b lt)));
          short = λ p b lt lt'.
              omega (arith, no_cell p b lt, r.few p b lt lt' (omega (arith, no_cell p b lt)));
          rises = λ e. (leb→le _ _ t, r.rises e);
        })
    | inr t ↦ rw t (record {
      sized = no_counts-Sized (data_size sort.data_type);
      counts = λ p b lt lt'. omega (arith, no_cell p b lt);
      short = λ p b lt lt'. omega (arith, no_cell p b lt);
      rises = λ e. absurd (omega arith);
    })
  ]

  tallied :
      {hs : List (List ℕ)} {loop : List ℕ}
      → Begun hs loop
      → Counted sort.data_type input (count_values hs loop)
  tallied {hs} {loop} b = record {
    sized = count_values-Sized loop b.sized;
    counts = λ p c lt lt'.
        count_values-cell p c loop b.sized lt lt' (omega (arith, b.short p c lt lt', valid.narrow))
        ∙ b.counts p c lt lt';
  }

  -- The indices are in order already.
  in_order-Created :
      {hs : List (List ℕ)} {loop : List ℕ}
      → Begun hs loop
      → length loop ≡ 0
      → Created sort.data_type sort.size input values true (record sort { histogram = hs })
  in_order-Created {hs} {loop} b e =
      let (le, r) = b.rises e in
      let k = sort.lastused - length input in
      let all : sort.lastused ≡ length input + k = omega arith in
      record {
        ready = record {
          typed = refl;
          capacity = refl;
          table = valid.ready.table;
          next_table = valid.ready.next_table;
          permuted =
              first-Perm (length input) k sort.indices
                (omega (arith, valid.ready.table, valid.used))
                (subst (λ m. Perm (take m sort.indices) (indices_from 0 m)) all
                  valid.ready.permuted)
                (Rises-below sort.data_type input r);
        };
        in_order = λ t.
            Rises-IsSorted sort.data_type input values (value_at sort.data_type input 0 values) r;
        counted = λ t. absurd (true≢false t);
        least =
            λ t. Rises-least sort.data_type input values (value_at sort.data_type input 0 values) r;
      }

  -- They are those of the last call, or those of the items as they stand.
  same-Created :
      {hs : List (List ℕ)} {loop : List ℕ}
      → Begun hs loop
      → length input ≡ sort.lastused
      → Created sort.data_type sort.size input values false
          (record sort { histogram = count_values hs loop })
  same-Created {hs} {loop} b e = record {
    ready = record {
      typed = refl;
      capacity = refl;
      table = valid.ready.table;
      next_table = valid.ready.next_table;
      permuted =
          subst (λ m. Perm (take m sort.indices) (indices_from 0 m)) (sym e) valid.ready.permuted;
    };
    in_order = λ t. absurd (true≢false (sym t));
    counted = λ t. tallied b;
    least = λ t. absurd (true≢false (sym t));
  }

  fresh-Created :
      {hs : List (List ℕ)} {loop : List ℕ}
      → Begun hs loop
      → let num = length input in
        Created sort.data_type sort.size input values false (record sort {
          histogram = count_values hs loop;
          indices = overwrite sort.indices 0 (indices_from 0 num);
          indices_next = overwrite sort.indices_next 0 (indices_from 0 num);
        })
  fresh-Created {hs} {loop} b =
      let num = length input in
      let n = length-indices_from num 0 in
      let first : take num (overwrite sort.indices 0 (indices_from 0 num)) ≡ indices_from 0 num =
        ap (λ k. take k (overwrite sort.indices 0 (indices_from 0 num))) (sym n ∙ omega arith)
        ∙ take-overwrite sort.indices 0 (indices_from 0 num) (omega (arith, valid.ready.table)) in
      record {
        ready = record {
          typed = refl;
          capacity = refl;
          table =
              length-overwrite sort.indices 0 (indices_from 0 num)
                (omega (arith, valid.ready.table))
              ∙ valid.ready.table;
          next_table =
              length-overwrite sort.indices_next 0 (indices_from 0 num)
                (omega (arith, valid.ready.next_table))
              ∙ valid.ready.next_table;
          permuted = subst (λ l. Perm l (indices_from 0 num)) (sym first) Perm.rfl;
        };
        in_order = λ t. absurd (true≢false (sym t));
        counted = λ t. tallied b;
        least = λ t. absurd (true≢false (sym t));
      }

  pub create_histograms-Created :
      0 < length input
      → let (sorted, sort') = create_histograms sort input in
        Created sort.data_type sort.size input values sorted sort'
  unfolding create_histograms first_loop
  create_histograms-Created pos =
      let b = first_loop-Begun pos in
      let loop = first_loop.1 in
      elim (ℕ_discrete (length loop) 0) [
        | yes e ↦ let t : (length loop == 0) ≡ true = ground arith in rw t (in_order-Created b e)
        | no ne ↦
            let t : (length loop == 0) ≡ false = ground arith in
            elim (ℕ_discrete (length input) sort.lastused) [
              | yes q ↦
                  let t' : (length input == sort.lastused) ≡ true = ground arith in
                  rw (t, t') (same-Created b q)
              | no nq ↦
                  let t' : (length input == sort.lastused) ≡ false = ground arith in
                  rw (t, t') (fresh-Created b)
            ]
      ]

-- The shortcut for items that are in their last order is taken only if the first item has the least value.
pub create_histograms-least :
    (sort : Radixsort) (input : List ℕ) (values : all_of (is_value sort.data_type) input ≡ true)
    → IsValid sort
    → length input ≤ sort.size
    → 0 < length input
    → let (sorted, sort') = create_histograms sort input in
      sorted ≡ true
      → (i : ℕ) → Mem i (take (length input) sort'.indices)
      → order sort.data_type (get_or input 0 0) ≤ order_at sort.data_type input values i
create_histograms-least sort input values valid fits pos =
    (create_histograms-Created sort input values valid fits pos).least
