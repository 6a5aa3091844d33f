-- ===== src/RadixSort/Passes.antt =====
-- The passes of `radixsort_int` and `radixsort_float` of foundation/radixsort.c, from the lowest byte to the highest.
use mathlib.Core.Bool.{true≢false}
use mathlib.Core.List.{reverse}
use foundation_lib.Prelude.{
  ℕ, suc, ◌-◌, ◌^◌, ◌≤◌, ◌<◌, ◌≡◌, refl, sym, ap, ◌∙◌, inl, inr, Bool, true, false, not, List, [],
  arith, leb, ◌==◌, if◌then◌else◌, Bool-cases, length, get_or, take, overwrite,
}
use foundation_lib.RadixSort.{
  DataType, Radixsort, data_size, byte_at, is_unique, distribute, never, unsigned_offsets,
  signed_offsets, float_offsets, pass_int, pass_float,
}
use foundation_lib.RadixSort.Totals.{length-unsigned, length-signed, length-float}
use foundation_lib.RadixSort.Places.{
  plain, signed_rank, float_rank, float_unrank, plain-Ranks, signed-Ranks, float-Ranks,
}
use foundation_lib.RadixSort.Offsets.{
  unsigned_offsets-start, signed_offsets-start, float_offsets-start,
}
use foundation_lib.RadixSort.Orders.{low, low_mono, low-same}
use foundation_lib.RadixSort.Pass.{
  Ordered, distributed, unique-Ordered, reversed-Ordered, all_counts,
}

module _ (t : DataType) (size : ℕ) (input : List ℕ) (narrow : size < 2 ^ 16)
    (fits : length input ≤ size) where
  -- The order of the `p` lowest bytes.
  abbrev pub key : (p i : ℕ) → ℕ
  key p i = low p (get_or input i 0)

  -- What a pass needs of the order that it makes.
  pub record Refines (p : ℕ) (rank : ℕ → ℕ) (down : ℕ → Bool) (key' : ℕ → ℕ) : Type 0 where
    pub apart : (i j : ℕ) → rank (byte_at input p i) < rank (byte_at input p j) → key' i ≤ key' j
    pub up :
        (i j : ℕ)
        → rank (byte_at input p i) ≡ rank (byte_at input p j)
        → down (byte_at input p i) ≡ false
        → key p i ≤ key p j
        → key' i ≤ key' j
    pub turned :
        (i j : ℕ)
        → rank (byte_at input p i) ≡ rank (byte_at input p j)
        → down (byte_at input p i) ≡ true
        → key p i ≤ key p j
        → key' j ≤ key' i

  -- One byte more.
  next_byte : (p : ℕ) → Refines p plain never (key (suc p))
  unfolding never
  next_byte p = record {
    apart = λ i j lt. low_mono p (get_or input i 0) (get_or input j 0) lt;
    up = λ i j e d le. low-same p (get_or input i 0) (get_or input j 0) e le;
    turned = λ i j e d le. absurd (true≢false (sym d));
  }

  module _ (p : ℕ) (inside : p < data_size t) (sort : Radixsort)
      (held : Ordered t size input (key p) sort) where
    row-256 : length (get_or sort.histogram p []) ≡ 256
    row-256 = held.counted.sized.rows p inside

    -- The offsets of a pass with plain bytes.
    pub plain_pass :
        (key' : ℕ → ℕ)
        → Refines p plain never key'
        → Ordered t size input key' (
            if is_unique input p sort
            then sort
            else distribute never input p (unsigned_offsets (get_or sort.histogram p [])) sort)
    unfolding never
    plain_pass key' r = elim (Bool-cases (is_unique input p sort)) [
      | inl u ↦ rw u (
          unique-Ordered t size input narrow fits p inside (key p) sort held plain (λ b. false) key'
            u refl r.up)
      | inr nu ↦
          let row = get_or sort.histogram p [] in
          let sum = all_counts t size input narrow fits p inside (key p) sort held in
          rw nu (
            distributed t size input narrow fits p inside (key p) sort held plain plain plain-Ranks
              (λ b. false) (unsigned_offsets row) key' (length-unsigned row ∙ row-256)
              (unsigned_offsets-start row row-256 (omega (arith, sum))) r.apart r.up r.turned)
    ]

    pub signed_pass :
        (key' : ℕ → ℕ)
        → Refines p signed_rank never key'
        → Ordered t size input key' (
            if is_unique input p sort
            then sort
            else distribute never input p (signed_offsets (get_or sort.histogram p [])) sort)
    unfolding never
    signed_pass key' r = elim (Bool-cases (is_unique input p sort)) [
      | inl u ↦ rw u (
          unique-Ordered t size input narrow fits p inside (key p) sort held signed_rank
            (λ b. false) key' u refl r.up)
      | inr nu ↦
          let row = get_or sort.histogram p [] in
          let sum = all_counts t size input narrow fits p inside (key p) sort held in
          rw nu (
            distributed t size input narrow fits p inside (key p) sort held signed_rank signed_rank
              signed-Ranks (λ b. false) (signed_offsets row) key' (length-signed row row-256)
              (signed_offsets-start row row-256 (omega (arith, sum))) r.apart r.up r.turned)
    ]

    pub float_pass :
        (key' : ℕ → ℕ)
        → Refines p float_rank (leb 128) key'
        → Ordered t size input key' (
            if not (is_unique input p sort)
            then distribute (leb 128) input p (float_offsets (get_or sort.histogram p [])) sort
            else if leb 128 (byte_at input p 0)
            then record sort {
              indices = overwrite sort.indices_next 0 (reverse (take (length input) sort.indices));
              indices_next = sort.indices;
            }
            else sort)
    float_pass key' r = elim (Bool-cases (is_unique input p sort)) [
      | inl u ↦ elim (Bool-cases (leb 128 (byte_at input p 0))) [
        | inl d ↦
            rw (u, d)
              (reversed-Ordered t size input narrow fits p inside (key p) sort held float_rank
                (leb 128) key' u d r.turned)
        | inr d ↦
            rw (u, d)
              (unique-Ordered t size input narrow fits p inside (key p) sort held float_rank
                (leb 128) key' u d r.up)
      ]
      | inr nu ↦
          let row = get_or sort.histogram p [] in
          let sum = all_counts t size input narrow fits p inside (key p) sort held in
          rw nu (
            distributed t size input narrow fits p inside (key p) sort held float_rank float_unrank
              float-Ranks (leb 128) (float_offsets row) key' (length-float row row-256)
              (float_offsets-start row row-256 (omega (arith, sum))) r.apart r.up r.turned)
    ]

  -- A pass that is not the last.
  pub middle_int :
      (p : ℕ) (sort : Radixsort)
      → suc p < data_size t
      → Ordered t size input (key p) sort
      → Ordered t size input (key (suc p)) (pass_int input p sort)
  unfolding pass_int
  middle_int p sort lt held =
      let typed = held.ready.typed in
      let t' : (p == data_size t - 1) ≡ false = ground arith in
      let e : (p == data_size sort.data_type - 1) ≡ false =
        ap (λ k. p == data_size k - 1) typed ∙ t' in
      rw e (plain_pass p (omega arith) sort held (key (suc p)) (next_byte p))

  pub middle_float :
      (p : ℕ) (sort : Radixsort)
      → suc p < data_size t
      → Ordered t size input (key p) sort
      → Ordered t size input (key (suc p)) (pass_float input p sort)
  unfolding pass_float
  middle_float p sort lt held =
      let typed = held.ready.typed in
      let t' : (p == data_size t - 1) ≡ false = ground arith in
      let e : (p == data_size sort.data_type - 1) ≡ false =
        ap (λ k. p == data_size k - 1) typed ∙ t' in
      rw e (plain_pass p (omega arith) sort held (key (suc p)) (next_byte p))
