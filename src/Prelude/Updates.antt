-- ===== src/Prelude/Updates.antt =====
-- Parts of a list after one item of it was set.
use Prim.Native.Nat.{ℕ, zero, suc, ◌+◌, ◌-◌, ◌≤◌, ◌<◌}
use mathlib.Core.Path.{◌≡◌, refl, ap, ◌∙◌}
use mathlib.Core.Logic.{◌⊎◌, inl, inr}
use mathlib.Core.List.{List, [], ◌∷◌, ◌++◌}
use native.Mathlib.Omega.{arith}
use foundation_lib.Prelude.Lists.{length, set, take, drop, length-drop}
use foundation_lib.Prelude.Slices.{slice, take-set_end}

module _ {ℓ} {A : Type ℓ} where
  pub drop-set_lt : (xs : List A) (p s : ℕ) (v : A) → p < s → drop s (set xs p v) ≡ drop s xs
  drop-set_lt [] p s v lt = refl
  drop-set_lt (x ∷ xs) p zero v lt = absurd (omega arith)
  drop-set_lt (x ∷ xs) zero (suc s) v lt = refl
  drop-set_lt (x ∷ xs) (suc p) (suc s) v lt = drop-set_lt xs p s v (omega arith)

  pub drop-set_ge :
      (xs : List A) (p s : ℕ) (v : A) → s ≤ p → drop s (set xs p v) ≡ set (drop s xs) (p - s) v
  drop-set_ge xs p zero v le = ap (λ k. set xs k v) (omega arith)
  drop-set_ge [] p (suc s) v le = refl
  drop-set_ge (x ∷ xs) zero (suc s) v le = absurd (omega arith)
  drop-set_ge (x ∷ xs) (suc p) (suc s) v le =
      drop-set_ge xs p s v (omega arith) ∙ ap (λ k. set (drop s xs) k v) (omega arith)

  pub take-set_ge : (xs : List A) (p k : ℕ) (v : A) → k ≤ p → take k (set xs p v) ≡ take k xs
  take-set_ge xs p zero v le = refl
  take-set_ge [] p (suc k) v le = refl
  take-set_ge (x ∷ xs) zero (suc k) v le = absurd (omega arith)
  take-set_ge (x ∷ xs) (suc p) (suc k) v le = ap (λ l. x ∷ l) (take-set_ge xs p k v (omega arith))

  pub slice-set_outside :
      (xs : List A) (p s k : ℕ) (v : A)
      → (p < s) ⊎ (s + k ≤ p)
      → slice s k (set xs p v) ≡ slice s k xs
  slice-set_outside xs p s k v (inl lt) = ap (take k) (drop-set_lt xs p s v lt)
  slice-set_outside xs p s k v (inr le) =
      ap (take k) (drop-set_ge xs p s v (omega arith))
      ∙ take-set_ge (drop s xs) (p - s) k v (omega arith)

  -- The item behind a slice, and the one before it.
  pub slice-set_end :
      (xs : List A) (s k : ℕ) (v : A)
      → s + k < length xs
      → slice s (k + 1) (set xs (s + k) v) ≡ slice s k xs ++ (v ∷ [])
  slice-set_end xs s k v lt =
      let e : s + k - s ≡ k = omega arith in
      ap (take (k + 1)) (drop-set_ge xs (s + k) s v (omega arith) ∙ ap (λ i. set (drop s xs) i v) e)
      ∙ take-set_end (drop s xs) k v (omega (arith, length-drop s xs))

  pub slice-set_front :
      (xs : List A) (p k : ℕ) (v : A)
      → p < length xs
      → slice p (suc k) (set xs p v) ≡ v ∷ slice (p + 1) k xs
  slice-set_front [] p k v lt = absurd (omega arith)
  slice-set_front (x ∷ xs) zero k v lt = refl
  slice-set_front (x ∷ xs) (suc p) k v lt =
      let e : suc p + 1 ≡ suc (p + 1) = omega arith in rw e (slice-set_front xs p k v (omega arith))
