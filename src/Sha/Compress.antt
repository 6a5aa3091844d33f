-- ===== src/Sha/Compress.antt =====
-- The compression of foundation/sha.c on words of `w` bits: `_32` functions at 32, `_64` at 64.
use Prim.Native.Nat.{bit_and, bit_or, bit_xor}
use foundation_lib.Prelude.{
  ℕ, zero, suc, ◌+◌, ◌-◌, ◌*◌, ◌/◌, ◌%◌, ◌^◌, List, [], ◌∷◌, ◌++◌, length, get_or, drop,
}

-- The sum of two words.
abbrev pub add : ℕ → ℕ → ℕ → ℕ
add w x y = (x + y) % 2 ^ w

unfoldable pub choise : ℕ → ℕ → ℕ → ℕ
choise x y z = bit_xor z (bit_and x (bit_xor y z))

unfoldable pub majority : ℕ → ℕ → ℕ → ℕ
majority x y z = bit_or (bit_and (bit_or x y) z) (bit_and x y)

unfoldable pub rotate : (w x n : ℕ) → ℕ
rotate w x n = bit_or (x / 2 ^ (n % w)) (x * 2 ^ (w - n % w) % 2 ^ w)

abbrev pub shift : ℕ → ℕ → ℕ
shift x n = x / 2 ^ n

-- Three rotations: `sigma0` and `sigma1`.
unfoldable pub sigma : (w r s t x : ℕ) → ℕ
unfolding rotate
sigma w r s t x = bit_xor (bit_xor (rotate w x r) (rotate w x s)) (rotate w x t)

-- Two rotations and a shift: `gamma0` and `gamma1`.
unfoldable pub gamma : (w r s t x : ℕ) → ℕ
unfolding rotate
gamma w r s t x = bit_xor (bit_xor (rotate w x r) (rotate w x s)) (shift x t)

-- The functions of a digest: the words' width, the four mixing functions and the constants.
pub record Mixing : Type 0 where
  pub width : ℕ
  pub sigma0 : ℕ → ℕ
  pub sigma1 : ℕ → ℕ
  pub gamma0 : ℕ → ℕ
  pub gamma1 : ℕ → ℕ
  pub constants : List ℕ

-- `sha_load32` and `sha_load64` of a word of `n` bytes, the highest first.
unfoldable pub load : (n acc : ℕ) → List ℕ → ℕ
load zero acc bytes = acc
load (suc n) acc [] = acc
load (suc n) acc (b ∷ bytes) = load n (acc * 256 + b) bytes

-- The first words of `wbox`.
unfoldable pub load_words : (count size : ℕ) → List ℕ → List ℕ
unfolding load
load_words zero size bytes = []
load_words (suc n) size bytes = load size 0 bytes ∷ load_words n size (drop size bytes)

module _ (m : Mixing) where
  open m use {width, sigma0, sigma1, gamma0, gamma1, constants}

  -- The `n` words of `wbox` from 16 on.
  unfoldable pub expand : ℕ → List ℕ → List ℕ
  expand zero wbox = wbox
  expand (suc n) wbox =
      let i = length wbox in
      let sum = add width (gamma1 (get_or wbox (i - 2) 0)) (get_or wbox (i - 7) 0) in
      let next =
        add width (add width sum (gamma0 (get_or wbox (i - 15) 0))) (get_or wbox (i - 16) 0) in
      expand n (wbox ++ (next ∷ []))

  -- `compress32` and `compress64`, after which the eight words of `sbox` change places.
  unfoldable pub compress_word : (wbox : List ℕ) → (i : ℕ) → List ℕ → List ℕ
  unfolding choise majority
  compress_word wbox i (a ∷ b ∷ c ∷ d ∷ e ∷ f ∷ g ∷ h ∷ []) =
      let mixed = add width (add width h (sigma1 e)) (choise e f g) in
      let t0 = add width (add width mixed (get_or constants i 0)) (get_or wbox i 0) in
      let t1 = add width (sigma0 a) (majority a b c) in
      add width t0 t1 ∷ a ∷ b ∷ c ∷ add width d t0 ∷ e ∷ f ∷ g ∷ []
  compress_word wbox i sbox = sbox

  -- The loop over `wbox`, of `n` turns from `i` on.
  unfoldable pub compress_words : (n : ℕ) → (wbox : List ℕ) → (i : ℕ) → List ℕ → List ℕ
  unfolding compress_word
  compress_words zero wbox i sbox = sbox
  compress_words (suc n) wbox i sbox = compress_words n wbox (i + 1) (compress_word wbox i sbox)

  unfoldable pub add_words : List ℕ → List ℕ → List ℕ
  add_words [] ys = []
  add_words (x ∷ xs) [] = x ∷ xs
  add_words (x ∷ xs) (y ∷ ys) = add width x y ∷ add_words xs ys

  -- `sha256_compress` with words of `size` bytes and `rounds` turns.
  unfoldable pub compress : (size rounds : ℕ) → List ℕ → List ℕ → List ℕ
  unfolding load_words expand compress_words add_words
  compress size rounds state buffer =
      let wbox = expand (rounds - 16) (load_words 16 size buffer) in
      add_words state (compress_words rounds wbox 0 state)
