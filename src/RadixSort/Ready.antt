-- ===== src/RadixSort/Ready.antt =====
-- The index tables of foundation/radixsort.c, between two calls and before the passes.
use mathlib.Core.Path.{subst}
use mathlib.Core.Logic.{if_pos, if_neg}
use mathlib.Core.Logic.Or
use native.Mathlib.Bridge.{le_prop}
use mathlib.Core.List.{
  Perm, Mem, eq-or-mem_of_mem-cons, not-mem-nil, filter, mem-cons_self, mem-cons_of_mem,
}
use mathlib.Core.List.Perm
use foundation_lib.Prelude.{
  ℕ, zero, suc, ◌+◌, ◌^◌, ◌≤◌, ◌<◌, ◌≡◌, refl, sym, ap, ap₂, ◌∙◌, List, [], ◌∷◌, ◌++◌, append-nil,
  arith, dec_lt, length, length-append, take, drop, length-take, take-add,
}
use foundation_lib.RadixSort.{DataType, Radixsort, data_size, indices_from}
use foundation_lib.RadixSort.Buckets.{length-Perm}
use foundation_lib.RadixSort.Histograms.{occurs, cell, Sized}
use foundation_lib.RadixSort.Presorted.{Rises, nil, cons}

-- The first `n` indices are those of `n` items, in some order.
pub record Ready (t : DataType) (size n : ℕ) (sort : Radixsort) : Type 0 where
  pub typed : sort.data_type ≡ t
  pub capacity : sort.size ≡ size
  pub table : length sort.indices ≡ size
  pub next_table : length sort.indices_next ≡ size
  pub permuted : Perm (take n sort.indices) (indices_from 0 n)

-- A sorter between two calls.
pub record IsValid (sort : Radixsort) : Type 0 where
  pub used : sort.lastused ≤ sort.size
  pub narrow : sort.size < 2 ^ 16
  pub ready : Ready sort.data_type sort.size sort.lastused sort

-- Its histograms are those of the items.
pub record Counted (t : DataType) (input : List ℕ) (hs : List (List ℕ)) : Type 0 where
  pub sized : Sized (data_size t) hs
  pub counts : (p b : ℕ) → p < data_size t → b < 256 → cell hs p b ≡ occurs p b input

pub length-indices_from : (n i : ℕ) → length (indices_from i n) ≡ n
length-indices_from zero i = refl
length-indices_from (suc n) i = ap suc (length-indices_from n (i + 1))

indices_from-add : (m n i : ℕ) → indices_from i (m + n) ≡ indices_from i m ++ indices_from (i + m) n
indices_from-add zero n i = ap₂ indices_from (omega arith) (omega arith)
indices_from-add (suc m) n i =
    let e : suc m + n ≡ suc (m + n) = omega arith in
    let e' : i + suc m ≡ i + 1 + m = omega arith in
    rw (e, e') (ap (λ l. i ∷ l) (indices_from-add m n (i + 1)))

-- The indices below a number.
abbrev few : ℕ → List ℕ → List ℕ
few n = filter (λ i. dec_lt i n)

few-append : (n : ℕ) (xs ys : List ℕ) → few n (xs ++ ys) ≡ few n xs ++ few n ys
few-append n [] ys = refl
few-append n (x ∷ xs) ys = elim (dec_lt x n) [
  | yes p ↦
      if_pos (dec_lt x n) p _ _
      ∙ ap (λ l. x ∷ l) (few-append n xs ys)
      ∙ sym (ap (λ l. l ++ few n ys) (if_pos (dec_lt x n) p _ _))
  | no np ↦
      if_neg (dec_lt x n) np _ _
      ∙ few-append n xs ys
      ∙ sym (ap (λ l. l ++ few n ys) (if_neg (dec_lt x n) np _ _))
]

few_all : (n : ℕ) (xs : List ℕ) → ((x : ℕ) → Mem x xs → x < n) → few n xs ≡ xs
few_all n [] h = refl
few_all n (x ∷ xs) h =
    if_pos (dec_lt x n) (h x mem-cons_self) _ _
    ∙ ap (λ l. x ∷ l) (few_all n xs (λ y m. h y (mem-cons_of_mem x m)))

few_below : (n k i : ℕ) → i + k ≤ n → few n (indices_from i k) ≡ indices_from i k
few_below n zero i le = refl
few_below n (suc k) i le =
    if_pos (dec_lt i n) (omega arith) _ _ ∙ ap (λ l. i ∷ l) (few_below n k (i + 1) (omega arith))

few_none : (n k i : ℕ) → n ≤ i → few n (indices_from i k) ≡ []
few_none n zero i le = refl
few_none n (suc k) i le =
    if_neg (dec_lt i n) (λ p. absurd (omega arith)) _ _ ∙ few_none n k (i + 1) (omega arith)

no_items : (xs : List ℕ) → length xs ≡ 0 → xs ≡ []
no_items [] e = refl
no_items (x ∷ xs) e = absurd (omega arith)

pub Rises-below :
    (t : DataType) (input : List ℕ) {prev : ℕ} {is : List ℕ}
    → Rises t input prev is
    → (x : ℕ) → Mem x is
    → x < length input
Rises-below t input nil x m = absurd (not-mem-nil m)
Rises-below t input (cons {i = i} {is = is} lt e r) x m =
    Or.elim le_prop (eq-or-mem_of_mem-cons m) (λ (q : x ≡ i). omega arith)
      (λ (m' : Mem x is). Rises-below t input r x m')

-- Indices below `n` at the beginning of a longer table are all of them.
pub first-Perm :
    (n k : ℕ) (xs : List ℕ)
    → n + k ≤ length xs
    → Perm (take (n + k) xs) (indices_from 0 (n + k))
    → ((x : ℕ) → Mem x (take n xs) → x < n)
    → Perm (take n xs) (indices_from 0 n)
first-Perm n k xs room p below =
    let first = take n xs in
    let rest = few n (take k (drop n xs)) in
    let left : few n (take (n + k) xs) ≡ first ++ rest =
      ap (few n) (take-add n k xs)
      ∙ few-append n first (take k (drop n xs))
      ∙ ap (λ l. l ++ rest) (few_all n first below) in
    let right : few n (indices_from 0 (n + k)) ≡ indices_from 0 n =
      ap (few n) (indices_from-add n k 0)
      ∙ few-append n (indices_from 0 n) (indices_from (0 + n) k)
      ∙ ap₂ ◌++◌ (few_below n n 0 (omega arith)) (few_none n k (0 + n) (omega arith))
      ∙ append-nil (indices_from 0 n) in
    let q : Perm (first ++ rest) (indices_from 0 n) =
      subst (λ l. Perm l (indices_from 0 n)) left
        (subst (Perm (few n (take (n + k) xs))) right (Perm.filter (λ i. dec_lt i n) p)) in
    let none : rest ≡ [] = no_items rest (
      omega (
        arith,
        length-Perm q,
        length-append first rest,
        length-take n xs,
        length-indices_from n 0,
      )) in
    subst (λ l. Perm l (indices_from 0 n)) (ap (λ l. first ++ l) none ∙ append-nil first) q
