-- ===== src/RadixSort/LastPass.antt =====
-- The last pass of foundation/radixsort.c: it orders by the values of the type.
use mathlib.Core.Path.{subst}
use mathlib.Core.List.Pairwise
use foundation_lib.Prelude.{
  ℕ, zero, suc, ◌+◌, ◌-◌, ◌*◌, ◌^◌, ◌≤◌, ◌<◌, ◌≡◌, refl, sym, ap, ◌∙◌, Bool, true, false, List, [],
  ◌∷◌, arith, leb, ◌==◌, ==_iff, length, get_or,
}
use foundation_lib.RadixSort.{
  DataType, int32, uint32, int64, uint64, float32, float64, Radixsort, data_size, data_signed, half,
  order, never, pass_int, pass_float, passes,
}
use foundation_lib.RadixSort.Buckets.{IsSorted}
use foundation_lib.RadixSort.Places.{plain, signed_rank, float_rank}
use foundation_lib.RadixSort.Orders.{
  scale, LastPass, plain-LastPass, signed-LastPass, float-LastPass,
}
use foundation_lib.RadixSort.Values.{is_value, all_of, value_at, value-lt, order_at}
use foundation_lib.RadixSort.Pass.{Ordered}
use foundation_lib.RadixSort.Passes.{key, Refines, plain_pass, signed_pass, float_pass}

-- The values of a type are those of its bytes.
bound : (t : DataType) → 2 * half t ≡ scale (suc (data_size t - 1))
unfolding scale
bound int32 = refl
bound uint32 = refl
bound int64 = refl
bound uint64 = refl
bound float32 = refl
bound float64 = refl

abbrev last_rank : DataType → ℕ → ℕ
last_rank int32 = signed_rank
last_rank int64 = signed_rank
last_rank uint32 = plain
last_rank uint64 = plain
last_rank float32 = float_rank
last_rank float64 = float_rank

abbrev last_down : DataType → ℕ → Bool
last_down float32 = leb 128
last_down float64 = leb 128
last_down _ = never

-- The last pass makes the order of the type.
last-LastPass : (t : DataType) → LastPass (order t) (data_size t - 1) (last_rank t) (last_down t)
unfolding scale never
last-LastPass int32 = signed-LastPass 3
last-LastPass uint32 = plain-LastPass 3
last-LastPass int64 = signed-LastPass 7
last-LastPass uint64 = plain-LastPass 7
last-LastPass float32 = float-LastPass 3
last-LastPass float64 = float-LastPass 7

last-lt : (t : DataType) → data_size t - 1 < data_size t
last-lt int32 = omega arith
last-lt uint32 = omega arith
last-lt int64 = omega arith
last-lt uint64 = omega arith
last-lt float32 = omega arith
last-lt float64 = omega arith

pub size-pos : (t : DataType) → 0 < data_size t
size-pos t = omega (arith, last-lt t)

pub constant-IsSorted :
    (key : ℕ → ℕ) (ids : List ℕ) → ((i j : ℕ) → key i ≤ key j) → IsSorted key ids
constant-IsSorted key [] h = Pairwise.nil
constant-IsSorted key (i ∷ ids) h = Pairwise.cons (λ j m. h i j) (constant-IsSorted key ids h)

module _ (t : DataType) (size : ℕ) (input : List ℕ) (narrow : size < 2 ^ 16)
    (fits : length input ≤ size) (values : all_of (is_value t) input ≡ true) where
  abbrev pub last : ℕ
  last = data_size t - 1

  value-bound : (i : ℕ) → get_or input i 0 < scale (suc last)
  value-bound i = omega (arith, value-lt t (get_or input i 0) (value_at t input i values), bound t)

  pub last-Refines :
      Refines t size input narrow fits last (last_rank t) (last_down t) (order_at t input values)
  last-Refines =
      let l = last-LastPass t in
      record {
        apart = λ i j lt.
            l.apart (get_or input i 0) (get_or input j 0) (value-bound i) (value-bound j) lt;
        up = λ i j e d le.
            l.up (get_or input i 0) (get_or input j 0) (value-bound i) (value-bound j) e d le;
        turned = λ i j e d le.
            l.turned (get_or input i 0) (get_or input j 0) (value-bound i) (value-bound j) e d le;
      }

  -- From the lowest byte to the highest.
  pub passes-Ordered :
      (pass : ℕ → Radixsort → Radixsort)
      → ((p : ℕ) (sort : Radixsort)
          → suc p < data_size t
          → Ordered t size input (key t size input narrow fits p) sort
          → Ordered t size input (key t size input narrow fits (suc p)) (pass p sort))
      → ((sort : Radixsort)
          → Ordered t size input (key t size input narrow fits last) sort
          → Ordered t size input (order_at t input values) (pass last sort))
      → (n p : ℕ) (sort : Radixsort) → n + p ≡ data_size t
      → 0 < n
      → Ordered t size input (key t size input narrow fits p) sort
      → Ordered t size input (order_at t input values) (passes pass n p sort)
  unfolding passes
  passes-Ordered pass middle end zero p sort e pos held = absurd (omega arith)
  passes-Ordered pass middle end (suc zero) p sort e pos held =
      let e' : p ≡ last = omega arith in
      subst (λ q. Ordered t size input (order_at t input values) (pass q sort)) (sym e')
        (end sort (subst (λ q. Ordered t size input (key t size input narrow fits q) sort) e' held))
  passes-Ordered pass middle end (suc (suc n)) p sort e pos held =
      let e' : p + 1 ≡ suc p = omega arith in
      passes-Ordered pass middle end (suc n) (p + 1) (pass p sort) (omega arith) (omega arith) (
        subst (λ q. Ordered t size input (key t size input narrow fits q) (pass p sort)) (sym e')
          (middle p sort (omega arith) held))

  pub last_signed :
      (sort : Radixsort)
      → data_signed t ≡ true
      → Refines t size input narrow fits last signed_rank never (order_at t input values)
      → Ordered t size input (key t size input narrow fits last) sort
      → Ordered t size input (order_at t input values) (pass_int input last sort)
  unfolding pass_int
  last_signed sort s r held =
      let e : (last == data_size sort.data_type - 1) ≡ true =
        ap (λ k. last == data_size k - 1) held.ready.typed ∙ (==_iff last last).1 refl in
      let s' : data_signed sort.data_type ≡ true = ap data_signed held.ready.typed ∙ s in
      rw (e, s')
        (signed_pass t size input narrow fits last (last-lt t) sort held (order_at t input values)
          r)

  pub last_unsigned :
      (sort : Radixsort)
      → data_signed t ≡ false
      → Refines t size input narrow fits last plain never (order_at t input values)
      → Ordered t size input (key t size input narrow fits last) sort
      → Ordered t size input (order_at t input values) (pass_int input last sort)
  unfolding pass_int
  last_unsigned sort s r held =
      let e : (last == data_size sort.data_type - 1) ≡ true =
        ap (λ k. last == data_size k - 1) held.ready.typed ∙ (==_iff last last).1 refl in
      let s' : data_signed sort.data_type ≡ false = ap data_signed held.ready.typed ∙ s in
      rw (e, s')
        (plain_pass t size input narrow fits last (last-lt t) sort held (order_at t input values) r)

  pub last_float :
      (sort : Radixsort)
      → Refines t size input narrow fits last float_rank (leb 128) (order_at t input values)
      → Ordered t size input (key t size input narrow fits last) sort
      → Ordered t size input (order_at t input values) (pass_float input last sort)
  unfolding pass_float
  last_float sort r held =
      let e : (last == data_size sort.data_type - 1) ≡ true =
        ap (λ k. last == data_size k - 1) held.ready.typed ∙ (==_iff last last).1 refl in
      rw e
        (float_pass t size input narrow fits last (last-lt t) sort held (order_at t input values) r)
