-- ===== src/RadixSort/Values.antt =====
-- The values that foundation/radixsort.c sorts, and indices along which they do not fall.
use mathlib.Core.Bool.{true≢false}
use mathlib.Core.Logic.Or
use mathlib.Core.List.{Pairwise, Mem, eq-or-mem_of_mem-cons, not-mem-nil}
use native.Mathlib.Bridge.{le_prop}
use foundation_lib.Prelude.{
  ℕ, zero, suc, ◌*◌, ◌≤◌, ◌<◌, ◌≡◌, refl, sym, ap, Bool, true, false, not, ◌&&◌, List, [], ◌∷◌,
  arith, ltb, ltb→lt, get_or,
}
use foundation_lib.RadixSort.{
  DataType, int32, uint32, int64, uint64, float32, float64, half, order, is_nan, less,
}
use foundation_lib.RadixSort.Buckets.{IsSorted}
use foundation_lib.RadixSort.Presorted.{Rises, nil, cons}

-- A value of a type that is not `NaN`.
abbrev pub is_value : DataType → ℕ → Bool
is_value t v = ltb v (2 * half t) && not (is_nan t v)

abbrev pub all_of : (ℕ → Bool) → List ℕ → Bool
all_of p [] = true
all_of p (v ∷ vs) = p v && all_of p vs

and_true : (a b : Bool) → (a && b) ≡ true → (a ≡ true) × (b ≡ true)
and_true true b e = (refl, e)
and_true false b e = absurd (true≢false (sym e))

zero_value : (t : DataType) → is_value t 0 ≡ true
zero_value int32 = refl
zero_value uint32 = refl
zero_value int64 = refl
zero_value uint64 = refl
zero_value float32 = refl
zero_value float64 = refl

pub value_at :
    (t : DataType) (vs : List ℕ) (i : ℕ)
    → all_of (is_value t) vs ≡ true
    → is_value t (get_or vs i 0) ≡ true
value_at t [] i h = zero_value t
value_at t (v ∷ vs) zero h = (and_true (is_value t v) (all_of (is_value t) vs) h).0
value_at t (v ∷ vs) (suc i) h =
    value_at t vs i (and_true (is_value t v) (all_of (is_value t) vs) h).1

flipped : (b : Bool) → not b ≡ true → b ≡ false
flipped true e = absurd (true≢false (sym e))
flipped false e = refl

pub value-lt : (t : DataType) (v : ℕ) → is_value t v ≡ true → v < 2 * half t
value-lt t v h = ltb→lt v (2 * half t) (and_true (ltb v (2 * half t)) (not (is_nan t v)) h).0

value_not-nan : (t : DataType) (v : ℕ) → is_value t v ≡ true → is_nan t v ≡ false
value_not-nan t v h = flipped (is_nan t v) (and_true (ltb v (2 * half t)) (not (is_nan t v)) h).1

not_ltb : (a b : ℕ) → ltb a b ≡ false → b ≤ a
not_ltb a b e = ground arith

not_less :
    (t : DataType) (a b : ℕ)
    → is_value t a ≡ true
    → is_value t b ≡ true
    → less t a b ≡ false
    → order t b ≤ order t a
unfolding less
not_less t a b va vb e =
    let na = value_not-nan t a va in
    let nb = value_not-nan t b vb in not_ltb (order t a) (order t b) (rw (na, nb) at e)

module _ (t : DataType) (input : List ℕ) (values : all_of (is_value t) input ≡ true) where
  abbrev pub order_at : ℕ → ℕ
  order_at i = order t (get_or input i 0)

  climbing :
      {prev : ℕ} {is : List ℕ}
      → is_value t prev ≡ true
      → Rises t input prev is
      → ((i : ℕ) → Mem i is → order t prev ≤ order_at i) × IsSorted order_at is
  climbing p nil = (λ i m. absurd (not-mem-nil m), Pairwise.nil)
  climbing {prev} p (cons {i = j} {is = is} lt e r) =
      let v = value_at t input j values in
      let first = not_less t (get_or input j 0) prev v p e in
      let (above, sorted) = climbing v r in
      (
        λ i m.
            Or.elim le_prop (eq-or-mem_of_mem-cons m)
              (λ (q : i ≡ j). omega (arith, first, ap order_at q))
              (λ (m' : Mem i is). omega (arith, first, above i m')),
        Pairwise.cons above sorted,
      )

  pub Rises-IsSorted :
      {prev : ℕ} {is : List ℕ}
      → is_value t prev ≡ true
      → Rises t input prev is
      → IsSorted order_at is
  Rises-IsSorted p r = (climbing p r).1

  pub Rises-least :
      {prev : ℕ} {is : List ℕ}
      → is_value t prev ≡ true
      → Rises t input prev is
      → (i : ℕ) → Mem i is
      → order t prev ≤ order_at i
  Rises-least p r = (climbing p r).0
