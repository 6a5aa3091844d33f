-- ===== src/Prelude/Slices.antt =====
-- Blocks of memory as lists: what `memcpy` and `memset` do to a block, and what is read back.
use Prim.Native.Nat.{ℕ, zero, suc, ◌+◌, ◌-◌, ◌≤◌, ◌<◌, min, max}
use mathlib.Core.Path.{◌≡◌, refl, ap, sym, ◌∙◌}
use mathlib.Core.List.{List, [], ◌∷◌, ◌++◌}
use native.Mathlib.Omega.{arith}
use foundation_lib.Prelude.Lists.{
  length, length-append, set, take, drop, length-take, length-drop, take-append-drop,
}

module _ {ℓ} {A : Type ℓ} where
  -- The `n` items from index `i` on.
  abbrev pub slice : ℕ → ℕ → List A → List A
  slice i n xs = take n (drop i xs)

  -- `memcpy(xs + i, ys, |ys|)`.
  unfoldable pub overwrite : List A → ℕ → List A → List A
  overwrite xs i ys = take i xs ++ (ys ++ drop (i + length ys) xs)

  pub length-overwrite :
      (xs : List A) (i : ℕ) (ys : List A)
      → i + length ys ≤ length xs
      → length (overwrite xs i ys) ≡ length xs
  unfolding overwrite
  length-overwrite xs i ys h = omega (
    arith,
    length-append (take i xs) (ys ++ drop (i + length ys) xs),
    length-append ys (drop (i + length ys) xs),
    length-take i xs,
    length-drop (i + length ys) xs,
  )

  pub take-append_le : (n : ℕ) (xs ys : List A) → n ≤ length xs → take n (xs ++ ys) ≡ take n xs
  take-append_le zero xs ys h = refl
  take-append_le (suc n) [] ys h = absurd (omega arith)
  take-append_le (suc n) (x ∷ xs) ys h = ap (λ t. x ∷ t) (take-append_le n xs ys (omega arith))

  pub take-append_ge :
      (n : ℕ) (xs ys : List A) → length xs ≤ n → take n (xs ++ ys) ≡ xs ++ take (n - length xs) ys
  take-append_ge n [] ys h = ap (λ k. take k ys) (omega arith)
  take-append_ge zero (x ∷ xs) ys h = absurd (omega arith)
  take-append_ge (suc n) (x ∷ xs) ys h =
      ap (λ t. x ∷ t)
        (take-append_ge n xs ys (omega arith) ∙ ap (λ k. xs ++ take k ys) (omega arith))

  pub drop-append_le :
      (n : ℕ) (xs ys : List A) → n ≤ length xs → drop n (xs ++ ys) ≡ drop n xs ++ ys
  drop-append_le zero xs ys h = refl
  drop-append_le (suc n) [] ys h = absurd (omega arith)
  drop-append_le (suc n) (x ∷ xs) ys h = drop-append_le n xs ys (omega arith)

  pub drop-append_ge :
      (n : ℕ) (xs ys : List A) → length xs ≤ n → drop n (xs ++ ys) ≡ drop (n - length xs) ys
  drop-append_ge n [] ys h = ap (λ k. drop k ys) (omega arith)
  drop-append_ge zero (x ∷ xs) ys h = absurd (omega arith)
  drop-append_ge (suc n) (x ∷ xs) ys h =
      drop-append_ge n xs ys (omega arith) ∙ ap (λ k. drop k ys) (omega arith)

  pub take_all : (n : ℕ) (xs : List A) → length xs ≤ n → take n xs ≡ xs
  take_all zero [] h = refl
  take_all zero (x ∷ xs) h = absurd (omega arith)
  take_all (suc n) [] h = refl
  take_all (suc n) (x ∷ xs) h = ap (λ t. x ∷ t) (take_all n xs (omega arith))

  pub drop_all : (n : ℕ) (xs : List A) → length xs ≤ n → drop n xs ≡ []
  drop_all zero [] h = refl
  drop_all zero (x ∷ xs) h = absurd (omega arith)
  drop_all (suc n) [] h = refl
  drop_all (suc n) (x ∷ xs) h = drop_all n xs (omega arith)

  pub drop-nil : (n : ℕ) → drop {A = A} n [] ≡ []
  drop-nil zero = refl
  drop-nil (suc n) = refl

  pub take-nil : (n : ℕ) → take {A = A} n [] ≡ []
  take-nil zero = refl
  take-nil (suc n) = refl

  pub drop-drop : (m n : ℕ) (xs : List A) → drop m (drop n xs) ≡ drop (n + m) xs
  drop-drop m zero xs = ap (λ k. drop k xs) (omega arith)
  drop-drop m (suc n) [] = drop-nil m ∙ sym (drop-nil (suc n + m))
  drop-drop m (suc n) (x ∷ xs) =
      let e : suc n + m ≡ suc (n + m) = omega arith in rw e (drop-drop m n xs)

  pub take-take : (m n : ℕ) (xs : List A) → m ≤ n → take m (take n xs) ≡ take m xs
  take-take zero n xs h = refl
  take-take (suc m) zero xs h = absurd (omega arith)
  take-take (suc m) (suc n) [] h = refl
  take-take (suc m) (suc n) (x ∷ xs) h = ap (λ t. x ∷ t) (take-take m n xs (omega arith))

  pub drop-take : (m n : ℕ) (xs : List A) → drop m (take n xs) ≡ take (n - m) (drop m xs)
  drop-take zero n xs = ap (λ k. take k xs) (omega arith)
  drop-take (suc m) zero xs = let e : 0 - suc m ≡ 0 = omega arith in rw e
  drop-take (suc m) (suc n) [] = sym (take-nil (suc n - suc m))
  drop-take (suc m) (suc n) (x ∷ xs) = drop-take m n xs ∙ ap (λ k. take k (drop m xs)) (omega arith)

  pub take-add : (m n : ℕ) (xs : List A) → take (m + n) xs ≡ take m xs ++ take n (drop m xs)
  take-add zero n xs = ap (λ k. take k xs) (omega arith)
  take-add (suc m) n [] = take-nil (suc m + n) ∙ sym (take-nil n)
  take-add (suc m) n (x ∷ xs) =
      let e : suc m + n ≡ suc (m + n) = omega arith in rw e (ap (λ t. x ∷ t) (take-add m n xs))

module _ {ℓ} {A : Type ℓ} where
  -- What stands before the end of the bytes that were copied.
  pub take-overwrite :
      (xs : List A) (i : ℕ) (ys : List A)
      → i + length ys ≤ length xs
      → take (i + length ys) (overwrite xs i ys) ≡ take i xs ++ ys
  unfolding overwrite
  take-overwrite xs i ys h =
      let d = drop (i + length ys) xs in
      let e : i + length ys - length (take i xs) ≡ length ys = omega (arith, length-take i xs) in
      rw (
        take-append_ge (i + length ys) (take i xs) (ys ++ d) (omega (arith, length-take i xs)),
        e,
        take-append_le (length ys) ys d (omega arith),
        take_all (length ys) ys (omega arith),
      )

  -- A copy leaves what stands behind it.
  pub drop-overwrite_end :
      (xs : List A) (i : ℕ) (ys : List A)
      → i + length ys ≤ length xs
      → drop (i + length ys) (overwrite xs i ys) ≡ drop (i + length ys) xs
  unfolding overwrite
  drop-overwrite_end xs i ys h =
      let d = drop (i + length ys) xs in
      let e : i + length ys - length (take i xs) ≡ length ys = omega (arith, length-take i xs) in
      let e' : length ys - length ys ≡ 0 = omega arith in
      rw (
        drop-append_ge (i + length ys) (take i xs) (ys ++ d) (omega (arith, length-take i xs)),
        e,
        drop-append_ge (length ys) ys d (omega arith),
        e',
      )

  pub drop-overwrite_ge :
      (xs : List A) (i k : ℕ) (ys : List A)
      → i + length ys ≤ length xs
      → i + length ys ≤ k
      → drop k (overwrite xs i ys) ≡ drop k xs
  drop-overwrite_ge xs i k ys h le =
      let j = i + length ys in
      let e : k ≡ j + (k - j) = omega arith in
      rw (e, ← drop-drop (k - j) j (overwrite xs i ys), drop-overwrite_end xs i ys h)
        (drop-drop (k - j) j xs)

  pub drop-overwrite_le :
      (xs : List A) (i k : ℕ) (ys : List A)
      → i + length ys ≤ length xs
      → k ≤ i
      → drop k (overwrite xs i ys) ≡ slice k (i - k) xs ++ (ys ++ drop (i + length ys) xs)
  unfolding overwrite
  drop-overwrite_le xs i k ys h le = rw (
    drop-append_le k (take i xs) (ys ++ drop (i + length ys) xs) (omega (arith, length-take i xs)),
    drop-take k i xs,
  )

  -- The bytes between an earlier index and the end of what was written.
  pub slice-overwrite :
      (xs : List A) (i k : ℕ) (ys : List A)
      → i + length ys ≤ length xs
      → k ≤ i
      → slice k (i + length ys - k) (overwrite xs i ys) ≡ slice k (i - k) xs ++ ys
  slice-overwrite xs i k ys h le =
      let e : i + length ys - k - length (slice k (i - k) xs) ≡ length ys =
        omega (arith, length-take (i - k) (drop k xs), length-drop k xs) in
      let d = drop (i + length ys) xs in
      rw (
        drop-overwrite_le xs i k ys h le,
        take-append_ge (i + length ys - k) (slice k (i - k) xs) (ys ++ d)
            (omega (arith, length-take (i - k) (drop k xs), length-drop k xs)),
        e,
        take-append_le (length ys) ys d (omega arith),
        take_all (length ys) ys (omega arith),
      )

  pub take-eq_nil : (n : ℕ) (xs : List A) → min (length xs) n ≡ 0 → take n xs ≡ []
  take-eq_nil zero xs h = refl
  take-eq_nil (suc n) [] h = refl
  take-eq_nil (suc n) (x ∷ xs) h = absurd (omega arith)

  -- The first `k` items of a block after a copy that begins among the first `n`.
  pub take-overwrite-max :
      (xs : List A) (i n k : ℕ) (ys : List A)
      → i + length ys ≤ length xs
      → i ≤ n
      → k ≡ max n (i + length ys)
      → take k (overwrite xs i ys) ≡ overwrite (take n xs) i ys
  unfolding overwrite
  take-overwrite-max xs i n k ys h le e =
      let j = i + length ys in
      let d = drop j xs in
      let e' : k - length (take i xs) ≡ k - i = omega (arith, length-take i xs) in
      let e'' : k - i - length ys ≡ n - j = omega arith in
      rw (
        take-append_ge k (take i xs) (ys ++ d) (omega (arith, length-take i xs)),
        e',
        take-append_ge (k - i) ys d (omega arith),
        e'',
        take-take i n xs le,
        drop-take j n xs,
      )

  pub overwrite-nil : (xs : List A) (i : ℕ) → overwrite xs i [] ≡ xs
  unfolding overwrite
  overwrite-nil xs i = let e : i + 0 ≡ i = omega arith in rw e (take-append-drop i xs)

  -- From where a copy began, also one that goes on behind the end.
  pub drop-overwrite_self :
      (xs : List A) (i : ℕ) (ys : List A)
      → i ≤ length xs
      → drop i (overwrite xs i ys) ≡ ys ++ drop (i + length ys) xs
  unfolding overwrite
  drop-overwrite_self xs i ys h =
      let e : i - length (take i xs) ≡ 0 = omega (arith, length-take i xs) in
      rw (
        drop-append_ge i (take i xs) (ys ++ drop (i + length ys) xs)
            (omega (arith, length-take i xs)),
        e,
      )

  pub take-set_end :
      (xs : List A) (i : ℕ) (v : A)
      → i < length xs
      → take (i + 1) (set xs i v) ≡ take i xs ++ (v ∷ [])
  take-set_end [] i v h = absurd (omega arith)
  take-set_end (x ∷ xs) zero v h = refl
  take-set_end (x ∷ xs) (suc i) v h =
      let e : suc i + 1 ≡ suc (i + 1) = omega arith in
      rw e (ap (λ t. x ∷ t) (take-set_end xs i v (omega arith)))
