-- ===== src/Sha/Filling.antt =====
-- What blocks leave of a message, and blocks filled up with zeros, for the padding of foundation/sha.c.
use native.Mathlib.Nat.{add-mod_left}
use foundation_lib.Prelude.{
  ℕ, zero, suc, ◌+◌, ◌-◌, ◌%◌, ◌≤◌, ◌≡◌, refl, sym, ap, ◌∙◌, true, false, List, ◌∷◌, ◌++◌,
  append_assoc, append-nil, arith, dec_lt, ltb, if◌then◌else◌, length, length-append, take,
  replicate, length-replicate, overwrite, length-overwrite, take_all, take-overwrite,
}
use foundation_lib.Sha.Chunks.{concat, AreBlocks, nil, cons}

pub replicate-add : (a b : ℕ) → replicate {A = ℕ} (a + b) 0 ≡ replicate a 0 ++ replicate b 0
replicate-add zero b = ap (λ n. replicate {A = ℕ} n 0) (omega arith)
replicate-add (suc a) b =
    let e : suc a + b ≡ suc (a + b) = omega arith in rw e (ap (λ l. 0 ∷ l) (replicate-add a b))

-- The bytes that no block took.
pub left_over :
    {size : ℕ} {bs : List (List ℕ)} (rest : List ℕ)
    → AreBlocks size bs
    → length (concat bs ++ rest) % size ≡ length rest % size
left_over rest nil = refl
left_over {size} {bs = b ∷ bs} rest (cons e es) =
    ap (λ n. n % size)
      (ap length (append_assoc b (concat bs) rest)
        ∙ length-append b (concat bs ++ rest)
        ∙ ap (λ n. n + length (concat bs ++ rest)) e)
    ∙ add-mod_left size (length (concat bs ++ rest))
    ∙ left_over rest es

-- Zeros up to `place`.
abbrev pub zeroed : ℕ → ℕ → List ℕ → List ℕ
zeroed current place buffer =
    if ltb current place then overwrite buffer current (replicate (place - current) 0) else buffer

pub zeroed-take :
    (current place : ℕ) (buffer : List ℕ)
    → current ≤ place
    → place ≤ length buffer
    → (take place (zeroed current place buffer)
        ≡ take current buffer ++ replicate (place - current) 0)
      × (length (zeroed current place buffer) ≡ length buffer)
zeroed-take current place buffer le room = elim (dec_lt current place) [
  | yes p ↦
      let zeros : List ℕ = replicate (place - current) 0 in
      let n = length-replicate {A = ℕ} (place - current) 0 in
      let t : ltb current place ≡ true = ground arith in
      let all : place ≡ current + length zeros = omega arith in
      rw t (
        ap (λ k. take k (overwrite buffer current zeros)) all
            ∙ take-overwrite buffer current zeros (omega arith),
        length-overwrite buffer current zeros (omega arith),
      )
  | no np ↦
      let t : ltb current place ≡ false = ground arith in
      let same : place ≡ current = omega arith in
      let none : place - current ≡ 0 = omega arith in
      rw t (
        ap (λ k. take k buffer) same
            ∙ sym (
                ap (λ k. take current buffer ++ replicate k 0) none
                ∙ append-nil (take current buffer)),
        refl,
      )
]

-- The length of the message at the end of a block.
pub overwrite-end :
    (xs ys : List ℕ) (i : ℕ) → i + length ys ≡ length xs → overwrite xs i ys ≡ take i xs ++ ys
overwrite-end xs ys i e =
    sym (
      take_all (i + length ys) (overwrite xs i ys)
        (omega (arith, length-overwrite xs i ys (omega arith))))
    ∙ take-overwrite xs i ys (omega arith)
