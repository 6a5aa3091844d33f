-- ===== src/Memory.antt =====
-- What the library relies on in `memory_reallocate` (foundation/memory.c), whose work is done by
-- the C library or by a memory system that the application sets.
use foundation_lib.Prelude.{
  ℕ, ◌-◌, ◌≤◌, ◌≡◌, List, ◌++◌, length, take, replicate, min, length-take, length-append,
  length-replicate, take-append_le, take-take, arith,
}

-- The new block has the size that was asked for, and the old block's first `oldsize` bytes, as far as
-- they fit. Behind them it is not initialised.
pub record Memory : Type 0 where
  pub reallocate : (block : List ℕ) (size oldsize : ℕ) → List ℕ
  pub length-reallocate :
      (block : List ℕ) (size oldsize : ℕ) → length (reallocate block size oldsize) ≡ size
  pub keeps :
      (block : List ℕ) (size oldsize n : ℕ)
      → oldsize ≤ length block
      → n ≤ oldsize
      → n ≤ size
      → take n (reallocate block size oldsize) ≡ take n block

-- A memory system that copies `oldsize` bytes to a block of zeros.
unfoldable pub zero_filled : List ℕ → ℕ → ℕ → List ℕ
zero_filled block size oldsize =
    let kept = take (min size oldsize) block in kept ++ replicate (size - length kept) 0

pub length-zero_filled :
    (block : List ℕ) (size oldsize : ℕ) → length (zero_filled block size oldsize) ≡ size
unfolding zero_filled
length-zero_filled block size oldsize =
    let kept = take (min size oldsize) block in
    omega (
      arith,
      length-append kept (replicate (size - length kept) 0),
      length-replicate {A = ℕ} (size - length kept) 0,
      length-take (min size oldsize) block,
    )

pub zero_filled-keeps :
    (block : List ℕ) (size oldsize n : ℕ)
    → oldsize ≤ length block
    → n ≤ oldsize
    → n ≤ size
    → take n (zero_filled block size oldsize) ≡ take n block
unfolding zero_filled
zero_filled-keeps block size oldsize n h le le' =
    let kept = take (min size oldsize) block in
    let fits : n ≤ length kept = omega (arith, length-take (min size oldsize) block) in
    rw (take-append_le n kept (replicate (size - length kept) 0) fits)
      (take-take n (min size oldsize) block (omega arith))

abbrev pub zeroing : Memory
zeroing = record {
  reallocate = zero_filled;
  length-reallocate = length-zero_filled;
  keeps = zero_filled-keeps;
}
