-- ===== src/RadixSort/Buckets.antt =====
-- Indices sorted into buckets by a digit: what a pass of foundation/radixsort.c makes of an index table.
use mathlib.Core.Path.{subst}
use mathlib.Core.Logic.{∥∥₁_elim, if_pos, if_neg}
use mathlib.Core.Logic.Or
use mathlib.Core.List.{
  filter, Perm, Pairwise, Pairwise-append, Pairwise-reverse, Mem, not-mem-nil, mem-append,
  mem-filter, perm_middle, filter-sublist, reverse,
}
use mathlib.Core.List.Perm
use mathlib.Core.List.Pairwise
use mathlib.Core.List.Permᴰ.{Permᴰ}
use native.Mathlib.Nat.{ℕ_set}
use native.Mathlib.Bridge.{le_prop}
use foundation_lib.Prelude.{
  ℕ, zero, suc, ◌≤◌, ◌<◌, ◌≡◌, refl, sym, ap, ap₂, ◌∙◌, ◌≢◌, List, [], ◌∷◌, ◌++◌, arith, ℕ_discrete,
  length,
}

-- The indices with the digit `r`, in their order.
abbrev pub bucket : (digit : ℕ → ℕ) (r : ℕ) → List ℕ → List ℕ
bucket digit r = filter (λ i. ℕ_discrete (digit i) r)

module _ (digit : ℕ → ℕ) where
  pub bucket-hit :
      {r x : ℕ} (xs : List ℕ) → digit x ≡ r → bucket digit r (x ∷ xs) ≡ x ∷ bucket digit r xs
  bucket-hit {r} {x} xs e =
      if_pos (ℕ_discrete (digit x) r) e (x ∷ bucket digit r xs) (bucket digit r xs)

  pub bucket-miss :
      {r x : ℕ} (xs : List ℕ) → digit x ≢ r → bucket digit r (x ∷ xs) ≡ bucket digit r xs
  bucket-miss {r} {x} xs n =
      if_neg (ℕ_discrete (digit x) r) n (x ∷ bucket digit r xs) (bucket digit r xs)

  pub bucket-append :
      (r : ℕ) (xs ys : List ℕ) → bucket digit r (xs ++ ys) ≡ bucket digit r xs ++ bucket digit r ys
  bucket-append r [] ys = refl
  bucket-append r (x ∷ xs) ys = elim (ℕ_discrete (digit x) r) [
    | yes p ↦
        bucket-hit (xs ++ ys) p
        ∙ ap (λ l. x ∷ l) (bucket-append r xs ys)
        ∙ sym (ap (λ l. l ++ bucket digit r ys) (bucket-hit xs p))
    | no np ↦
        bucket-miss (xs ++ ys) np
        ∙ bucket-append r xs ys
        ∙ sym (ap (λ l. l ++ bucket digit r ys) (bucket-miss xs np))
  ]

-- The first `n` of some lists, one behind another.
unfoldable pub gather : (blocks : ℕ → List ℕ) (n : ℕ) → List ℕ
gather blocks zero = []
gather blocks (suc n) = gather blocks n ++ blocks n

skip :
    (digit : ℕ → ℕ) (n x : ℕ) (xs : List ℕ)
    → n ≤ digit x
    → gather (λ r. bucket digit r (x ∷ xs)) n ≡ gather (λ r. bucket digit r xs) n
unfolding gather
skip digit zero x xs le = refl
skip digit (suc n) x xs le =
    ap₂ ◌++◌ (skip digit n x xs (omega arith)) (bucket-miss digit xs (λ e. absurd (omega arith)))

gather-cons :
    (digit : ℕ → ℕ) (n x : ℕ) (xs : List ℕ)
    → digit x < n
    → Perm (gather (λ r. bucket digit r (x ∷ xs)) n) (x ∷ gather (λ r. bucket digit r xs) n)
unfolding gather
gather-cons digit zero x xs lt = absurd (omega arith)
gather-cons digit (suc n) x xs lt =
    let before = gather (λ r. bucket digit r xs) n in
    elim (ℕ_discrete (digit x) n) [
      | yes p ↦
          subst (λ l. Perm l (x ∷ (before ++ bucket digit n xs)))
            (sym (ap₂ ◌++◌ (skip digit n x xs (omega arith)) (bucket-hit digit xs p)))
            (perm_middle before (bucket digit n xs))
      | no np ↦
          subst
            (λ l.
              Perm (gather (λ r. bucket digit r (x ∷ xs)) n ++ l)
                (x ∷ (before ++ bucket digit n xs)))
            (sym (bucket-miss digit xs np))
            (Perm.append_right (bucket digit n xs) (gather-cons digit n x xs (omega arith)))
    ]

gather_nil : (digit : ℕ → ℕ) (n : ℕ) → gather (λ r. bucket digit r []) n ≡ []
unfolding gather
gather_nil digit zero = refl
gather_nil digit (suc n) = ap (λ l. l ++ []) (gather_nil digit n)

-- The buckets of all digits hold what was sorted into them.
pub gather-Perm :
    (digit : ℕ → ℕ) (n : ℕ) (xs : List ℕ)
    → ((x : ℕ) → digit x < n)
    → Perm (gather (λ r. bucket digit r xs) n) xs
gather-Perm digit n [] below = subst (λ l. Perm l []) (sym (gather_nil digit n)) Perm.rfl
gather-Perm digit n (x ∷ xs) below =
    Perm.trans (gather-cons digit n x xs (below x)) (Perm.cons x (gather-Perm digit n xs below))

pub gather-Perm_blocks :
    (blocks others : ℕ → List ℕ) (n : ℕ)
    → ((r : ℕ) → Perm (blocks r) (others r))
    → Perm (gather blocks n) (gather others n)
unfolding gather
gather-Perm_blocks blocks others zero h = Perm.rfl
gather-Perm_blocks blocks others (suc n) h =
    Perm.append (gather-Perm_blocks blocks others n h) (h n)

-- Indices in the order of a key.
abbrev pub IsSorted : (key : ℕ → ℕ) → List ℕ → Type 0
IsSorted key = Pairwise (λ i j. key i ≤ key j)

gather-digit :
    (digit : ℕ → ℕ) (blocks : ℕ → List ℕ) (n : ℕ)
    → ((r x : ℕ) → Mem x (blocks r) → digit x ≡ r)
    → (x : ℕ) → Mem x (gather blocks n)
    → digit x < n
unfolding gather
gather-digit digit blocks zero h x m = absurd (not-mem-nil m)
gather-digit digit blocks (suc n) h x m =
    Or.elim le_prop (mem-append.0 m)
      (λ (m' : Mem x (gather blocks n)). omega (arith, gather-digit digit blocks n h x m'))
      (λ (m' : Mem x (blocks n)). omega (arith, h n x m'))

-- Blocks that are sorted, with one digit each, where a higher digit means a higher key.
pub gather-IsSorted :
    (digit key : ℕ → ℕ) (blocks : ℕ → List ℕ) (n : ℕ)
    → ((i j : ℕ) → digit i < digit j → key i ≤ key j)
    → ((r x : ℕ) → Mem x (blocks r) → digit x ≡ r)
    → ((r : ℕ) → IsSorted key (blocks r))
    → IsSorted key (gather blocks n)
unfolding gather
gather-IsSorted digit key blocks zero mono h s = Pairwise.nil
gather-IsSorted digit key blocks (suc n) mono h s = (Pairwise-append (λ a b. le_prop)).1 (
  gather-IsSorted digit key blocks n mono h s,
  s n,
  λ a m b m'. mono a b (omega (arith, gather-digit digit blocks n h a m, h n b m')),
)

pub bucket-digit :
    (digit : ℕ → ℕ) (r : ℕ) (xs : List ℕ) (x : ℕ) → Mem x (bucket digit r xs) → digit x ≡ r
bucket-digit digit r xs x m = ((mem-filter (λ i. ℕ_discrete (digit i) r)).0 m).1

pub bucket-IsSorted :
    (digit key : ℕ → ℕ) (r : ℕ) (xs : List ℕ) → IsSorted key xs → IsSorted key (bucket digit r xs)
bucket-IsSorted digit key r xs s =
    Pairwise.sublist (λ a b. le_prop) (filter-sublist (λ i. ℕ_discrete (digit i) r)) s

length-Perm_data : {xs ys : List ℕ} → Permᴰ xs ys → length xs ≡ length ys
length-Perm_data Permᴰ.nil = refl
length-Perm_data (Permᴰ.cons e p) = ap suc (length-Perm_data p)
length-Perm_data (Permᴰ.swap e e') = refl
length-Perm_data (Permᴰ.trans p q) = length-Perm_data p ∙ length-Perm_data q

pub length-Perm : {xs ys : List ℕ} → Perm xs ys → length xs ≡ length ys
length-Perm {xs} {ys} p = ∥∥₁_elim p (ℕ_set (length xs) (length ys)) length-Perm_data

-- A reversed block is in order if the block is in the opposite order.
pub reverse-IsSorted :
    (key : ℕ → ℕ) {xs : List ℕ} → Pairwise (λ i j. key j ≤ key i) xs → IsSorted key (reverse xs)
reverse-IsSorted key s = (Pairwise-reverse (λ a b. le_prop)).1 s
