-- ===== src/RadixSort/Totals.antt =====
-- Sums over the tables of foundation/radixsort.c, and the entries of the offset tables as such sums.
use foundation_lib.Prelude.{
  ℕ, zero, suc, ◌+◌, ◌-◌, ◌%◌, ◌^◌, ◌<◌, ◌≡◌, refl, sym, ap, ap₂, ◌∙◌, List, [], ◌∷◌, ◌++◌, arith,
  length, length-append, get_or, take, drop, length-take, length-drop,
}
use foundation_lib.RadixSort.{
  add_counts, offsets, offsets_back, unsigned_offsets, signed_offsets, float_offsets,
}
use foundation_lib.RadixSort.Ranks.{total, total_ext}

module _ {ℓ} {A : Type ℓ} where
  pub get_or-append_lt :
      (xs ys : List A) (i : ℕ) (d : A) → i < length xs → get_or (xs ++ ys) i d ≡ get_or xs i d
  get_or-append_lt [] ys i d lt = absurd (omega arith)
  get_or-append_lt (x ∷ xs) ys zero d lt = refl
  get_or-append_lt (x ∷ xs) ys (suc i) d lt = get_or-append_lt xs ys i d (omega arith)

  pub get_or-append_ge :
      (xs ys : List A) (i : ℕ) (d : A) → get_or (xs ++ ys) (length xs + i) d ≡ get_or ys i d
  get_or-append_ge [] ys i d = ap (λ k. get_or ys k d) (omega arith)
  get_or-append_ge (x ∷ xs) ys i d =
      let e : suc (length xs) + i ≡ suc (length xs + i) = omega arith in
      rw e (get_or-append_ge xs ys i d)

  pub get_or-take : (xs : List A) (n i : ℕ) (d : A) → i < n → get_or (take n xs) i d ≡ get_or xs i d
  get_or-take xs zero i d lt = absurd (omega arith)
  get_or-take [] (suc n) i d lt = refl
  get_or-take (x ∷ xs) (suc n) zero d lt = refl
  get_or-take (x ∷ xs) (suc n) (suc i) d lt = get_or-take xs n i d (omega arith)

  pub get_or-drop : (xs : List A) (n i : ℕ) (d : A) → get_or (drop n xs) i d ≡ get_or xs (n + i) d
  get_or-drop xs zero i d = ap (λ k. get_or xs k d) (omega arith)
  get_or-drop [] (suc n) i d = refl
  get_or-drop (x ∷ xs) (suc n) i d =
      let e : suc n + i ≡ suc (n + i) = omega arith in rw e (get_or-drop xs n i d)

-- The entries of a table.
abbrev pub at : List ℕ → ℕ → ℕ
at h i = get_or h i 0

total_first : (f : ℕ → ℕ) (n : ℕ) → total f (suc n) ≡ f 0 + total (λ i. f (suc i)) n
unfolding total
total_first f zero = omega arith
total_first f (suc n) = omega (arith, total_first f n)

pub total_reverse : (f : ℕ → ℕ) (n : ℕ) → total (λ i. f (n - suc i)) n ≡ total f n
unfolding total
total_reverse f zero = refl
total_reverse f (suc n) =
    let last : suc n - 1 ≡ n = omega arith in
    total_first (λ i. f (suc n - suc i)) n
    ∙ ap₂ ◌+◌ (ap f last) (
        total_ext (λ i. f (suc n - suc (suc i))) (λ i. f (n - suc i)) n
          (λ i lt. let e : suc n - suc (suc i) ≡ n - suc i = omega arith in ap f e)
        ∙ total_reverse f n)
    ∙ omega arith

pub add_counts-total :
    (n : ℕ) (h : List ℕ)
    → n + total (at h) (length h) < 2 ^ 16
    → add_counts n h ≡ n + total (at h) (length h)
unfolding add_counts total
add_counts-total n [] lt = omega arith
add_counts-total n (c ∷ cs) lt =
    let t = total_first (at (c ∷ cs)) (length cs) in
    let e : (n + c) % 2 ^ 16 ≡ n + c = omega arith in
    rw e (omega (arith, add_counts-total (n + c) cs (omega arith)))

pub length-offsets : (h : List ℕ) (prev : ℕ) → length (offsets prev h) ≡ length h
unfolding offsets
length-offsets [] prev = refl
length-offsets (c ∷ cs) prev = ap suc (length-offsets cs _)

pub offsets-total :
    (prev : ℕ) (h : List ℕ) (b : ℕ)
    → prev + total (at h) (length h) < 2 ^ 16
    → b < length h
    → get_or (offsets prev h) b 0 ≡ prev + total (at h) b
unfolding offsets total
offsets-total prev [] b small lt = absurd (omega arith)
offsets-total prev (c ∷ cs) zero small lt = omega arith
offsets-total prev (c ∷ cs) (suc b) small lt =
    let t = total_first (at (c ∷ cs)) (length cs) in
    let t' = total_first (at (c ∷ cs)) b in
    let e : (prev + c) % 2 ^ 16 ≡ prev + c = omega arith in
    rw e (omega (arith, offsets-total (prev + c) cs b (omega arith) (omega arith)))

length-offsets_back : (h : List ℕ) → length (offsets_back h) ≡ length h
unfolding offsets_back
length-offsets_back [] = refl
length-offsets_back (c ∷ cs) = ap suc (length-offsets_back cs)

-- The counts from an entry on.
pub offsets_back-total :
    (h : List ℕ) (b : ℕ)
    → total (at h) (length h) < 2 ^ 16
    → get_or (offsets_back h) b 0 ≡ total (λ i. at h (b + i)) (length h - b)
unfolding offsets_back total
offsets_back-total [] b small = let e : 0 - b ≡ 0 = omega arith in rw e refl
offsets_back-total (c ∷ cs) zero small =
    let first = total_first (at (c ∷ cs)) (length cs) in
    let n : length cs - 0 ≡ length cs = omega arith in
    let n' : suc (length cs) - 0 ≡ suc (length cs) = omega arith in
    let rest : get_or (offsets_back cs) 0 0 ≡ total (at cs) (length cs) =
      offsets_back-total cs 0 (omega arith)
      ∙ ap (total (λ i. at cs (0 + i))) n
      ∙ total_ext (λ i. at cs (0 + i)) (at cs) (length cs) (λ i lt. ap (at cs) (omega arith)) in
    omega arith
    ∙ sym first
    ∙ total_ext (at (c ∷ cs)) (λ i. at (c ∷ cs) (0 + i)) (suc (length cs))
        (λ i lt. let e : i ≡ 0 + i = omega arith in ap (at (c ∷ cs)) e)
    ∙ ap (total (λ i. at (c ∷ cs) (0 + i))) (sym n')
offsets_back-total (c ∷ cs) (suc b) small =
    let n : suc (length cs) - suc b ≡ length cs - b = omega arith in
    offsets_back-total cs b (omega (arith, total_first (at (c ∷ cs)) (length cs)))
    ∙ total_ext (λ i. at cs (b + i)) (λ i. at (c ∷ cs) (suc b + i)) (length cs - b)
        (λ i lt. let e : suc b + i ≡ suc (b + i) = omega arith in rw e refl)
    ∙ ap (total (λ i. at (c ∷ cs) (suc b + i))) (sym n)

pub length-unsigned : (h : List ℕ) → length (unsigned_offsets h) ≡ length h
unfolding unsigned_offsets
length-unsigned h = length-offsets h 0

pub length-signed : (h : List ℕ) → length h ≡ 256 → length (signed_offsets h) ≡ 256
unfolding signed_offsets
length-signed h e =
    let n = add_counts 0 (drop 128 h) in
    omega (
      arith,
      length-append (offsets n (take 128 h)) (offsets 0 (drop 128 h)),
      length-offsets (take 128 h) n,
      length-offsets (drop 128 h) 0,
      length-take 128 h,
      length-drop 128 h,
    )

pub length-float : (h : List ℕ) → length h ≡ 256 → length (float_offsets h) ≡ 256
unfolding float_offsets
length-float h e =
    let n = add_counts 0 (drop 128 h) in
    omega (
      arith,
      length-append (offsets n (take 128 h)) (offsets_back (drop 128 h)),
      length-offsets (take 128 h) n,
      length-offsets_back (drop 128 h),
      length-take 128 h,
      length-drop 128 h,
    )
