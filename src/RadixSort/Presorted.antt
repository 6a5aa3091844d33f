-- ===== src/RadixSort/Presorted.antt =====
-- The loop of `radixsort_create_histograms` that goes through the values in their last order.
use mathlib.Core.Bool.{true≢false}
use foundation_lib.Prelude.{
  ℕ, ◌+◌, ◌^◌, ◌≤◌, ◌<◌, ◌≡◌, refl, inl, inr, Bool, true, false, ◌||◌, List, [], ◌∷◌, arith, leb,
  Bool-cases, length, get_or, take,
}
use foundation_lib.RadixSort.{DataType, count_value, presorted, less}
use foundation_lib.RadixSort.Histograms.{
  occurs, occurs-cons, occurs-le, cell, Sized, count_value-Sized, count_value-cell,
}

-- Indices below the number of items, whose values do not fall, from a value on.
pub data Rises (t : DataType) (input : List ℕ) : (prev : ℕ) → List ℕ → Type 0 where
  nil : {prev : ℕ} → Rises t input prev []
  cons :
      {prev i : ℕ} {is : List ℕ}
      → i < length input
      → less t (get_or input i 0) prev ≡ false
      → Rises t input (get_or input i 0) is
      → Rises t input prev (i ∷ is)

-- What the loop that goes through the last order ends with.
pub record Ran (t : DataType) (n : ℕ) (input : List ℕ) (prev : ℕ) (hs : List (List ℕ))
    (loop indices : List ℕ) (hs' : List (List ℕ)) (rest : List ℕ) : Type 0 where
  pub sized : Sized n hs'
  pub counts :
      (p b : ℕ)
      → p < n
      → b < 256
      → cell hs p b + length loop < 2 ^ 16
      → cell hs' p b + occurs p b rest ≡ cell hs p b + occurs p b loop
  pub few :
      (p b : ℕ)
      → p < n
      → b < 256
      → cell hs p b + length loop < 2 ^ 16
      → cell hs' p b + length rest ≤ cell hs p b + length loop
  pub rises : length rest ≡ 0 → Rises t input prev (take (length loop) indices)
  pub enough : length rest ≡ 0 → length loop ≤ length indices

stopped :
    (t : DataType) (n : ℕ) (input : List ℕ) (prev : ℕ) {hs : List (List ℕ)} (v : ℕ)
    (loop indices : List ℕ)
    → Sized n hs
    → Ran t n input prev hs (v ∷ loop) indices hs (v ∷ loop)
stopped t n input prev v loop indices s = record {
  sized = s;
  counts = λ p b lt lt' few. refl;
  few = λ p b lt lt' few. omega arith;
  rises = λ e. absurd (omega arith);
  enough = λ e. absurd (omega arith);
}

below : (n i : ℕ) → leb n i ≡ false → i < n
below n i e = ground arith

or_false : (a b : Bool) → (a || b) ≡ false → (a ≡ false) × (b ≡ false)
or_false true b e = absurd (true≢false e)
or_false false b e = (refl, e)

further :
    (t : DataType) (n : ℕ) (input : List ℕ) (prev : ℕ) {hs hs' : List (List ℕ)} (v : ℕ)
    (loop : List ℕ) (i : ℕ) (indices : List ℕ) {rest : List ℕ}
    → Sized n hs
    → (leb (length input) i || less t (get_or input i 0) prev) ≡ false
    → Ran t n input (get_or input i 0) (count_value hs v) loop indices hs' rest
    → Ran t n input prev hs (v ∷ loop) (i ∷ indices) hs' rest
further t n input prev {hs} {hs'} v loop i indices {rest} s c r =
    let now =
      λ (p b : ℕ) (lt : p < n) (lt' : b < 256) (few : cell hs p b + length (v ∷ loop) < 2 ^ 16).
        count_value-cell v p b s lt lt' (omega arith) in
    let tests = or_false (leb (length input) i) (less t (get_or input i 0) prev) c in
    record {
      sized = r.sized;
      counts = λ p b lt lt' few.
          let w = now p b lt lt' few in
          omega (
            arith,
            w,
            occurs-cons p b v loop,
            r.counts p b lt lt' (omega (arith, w, occurs-le p b (v ∷ []))),
          );
      few = λ p b lt lt' few.
          let w = now p b lt lt' few in
          omega (
            arith,
            w,
            occurs-le p b (v ∷ []),
            r.few p b lt lt' (omega (arith, w, occurs-le p b (v ∷ []))),
          );
      rises = λ e. cons (below (length input) i tests.0) tests.1 (r.rises e);
      enough = λ e. omega (arith, r.enough e);
    }

pub presorted-Ran :
    (t : DataType) (n : ℕ) (input : List ℕ) (loop indices : List ℕ) (prev : ℕ) {hs : List (List ℕ)}
    → Sized n hs
    → let (hs', rest) = presorted t input prev hs loop indices in
      Ran t n input prev hs loop indices hs' rest
unfolding presorted
presorted-Ran t n input [] indices prev s = record {
  sized = s;
  counts = λ p b lt lt' few. refl;
  few = λ p b lt lt' few. omega arith;
  rises = λ e. nil;
  enough = λ e. omega arith;
}
presorted-Ran t n input (v ∷ loop) [] prev s = stopped t n input prev v loop [] s
presorted-Ran t n input (v ∷ loop) (i ∷ indices) prev {hs} s =
    let val = get_or input i 0 in
    elim (Bool-cases (leb (length input) i || less t val prev)) [
      | inl c ↦ rw c (stopped t n input prev v loop (i ∷ indices) s)
      | inr c ↦
          let r = presorted-Ran t n input loop indices val (count_value-Sized v s) in
          rw c (further t n input prev v loop i indices s c r)
    ]
