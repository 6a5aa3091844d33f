-- ===== src/Md5/Blocks.antt =====
-- The loop over the blocks of a message.
use foundation_lib.Prelude.{
  ℕ, zero, suc, ◌+◌, ◌*◌, ◌≤◌, ◌≡◌, refl, ap₂, ◌∙◌, List, ◌++◌, arith, length, take, drop,
  length-drop, take-append_le, drop-append_le, drop-drop,
}
use foundation_lib.Md5.{State, transform, blocks}

pub blocks-add :
    (m n : ℕ) (q : State) (bytes : List ℕ)
    → blocks (m + n) q bytes ≡ blocks n (blocks m q bytes) (drop (m * 64) bytes)
unfolding blocks
blocks-add zero n q bytes = let e : 0 + n ≡ n = omega arith in rw e refl
blocks-add (suc m) n q bytes =
    let e : suc m + n ≡ suc (m + n) = omega arith in
    let e' : suc m * 64 ≡ 64 + m * 64 = omega arith in
    rw (e, e', ← drop-drop (m * 64) 64 bytes)
      (blocks-add m n (transform q (take 64 bytes)) (drop 64 bytes))

pub blocks-append :
    (n : ℕ) (q : State) (xs ys : List ℕ)
    → n * 64 ≤ length xs
    → blocks n q (xs ++ ys) ≡ blocks n q xs
unfolding blocks
blocks-append zero q xs ys h = refl
blocks-append (suc n) q xs ys h =
    let long : 64 ≤ length xs = omega arith in
    rw (take-append_le 64 xs ys long, drop-append_le 64 xs ys long)
      (blocks-append n (transform q (take 64 xs)) (drop 64 xs) ys
        (omega (arith, length-drop 64 xs)))

-- A message in two parts, cut at a block.
pub blocks-parts :
    (m n : ℕ) (q : State) (xs ys : List ℕ)
    → m * 64 ≤ length xs
    → blocks (m + n) q (xs ++ ys) ≡ blocks n (blocks m q xs) (drop (m * 64) xs ++ ys)
blocks-parts m n q xs ys h =
    blocks-add m n q (xs ++ ys)
    ∙ ap₂ (blocks n) (blocks-append m q xs ys h) (drop-append_le (m * 64) xs ys h)
