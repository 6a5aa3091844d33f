-- ===== src/Sha/Fips.antt =====
-- SHA-256 and SHA-512 as FIPS 180-4 describes them, apart from foundation/sha.c: the constants from the roots
-- of primes, the functions bit by bit, the padding by the length that it leads to, words by place value.
use Prim.Native.Nat.{bit_xor}
use foundation_lib.Prelude.{
  ℕ, zero, suc, ◌+◌, ◌-◌, ◌*◌, ◌/◌, ◌%◌, ◌^◌, Bool, not, ◌||◌, List, [], ◌∷◌, ◌++◌, map, ltb, leb,
  ◌==◌, if◌then◌else◌, length, get_or, take, drop, replicate,
}
use foundation_lib.Prelude.Bits.{all_below}
use foundation_lib.Prelude.Bitwise.{bits}

-- The greatest number of `n` bits above `low` whose `k`-th power is at most `x`.
root_from : (n k x low : ℕ) → ℕ
root_from zero k x low = low
root_from (suc n) k x low = root_from n k x (if leb ((low + 2 ^ n) ^ k) x then low + 2 ^ n else low)

-- The first `w` bits of the fraction of the `k`-th root of a number below 1024.
fraction : (w k p : ℕ) → ℕ
unfolding root_from
fraction w k p = root_from (w + 5) k (p * 2 ^ (k * w)) 0 % 2 ^ w

-- The numbers are below 441, so a divisor up to 20 tells.
is_prime : ℕ → Bool
unfolding all_below
is_prime p = all_below 21 (λ d. ltb d 2 || (leb p d || not (p % d == 0)))

-- `n` primes from `p` on.
primes_from : (fuel n p : ℕ) → List ℕ
unfolding is_prime
primes_from zero n p = []
primes_from (suc fuel) n p =
    let found = is_prime p in
    let rest = primes_from fuel (if found then n - 1 else n) (p + 1) in
    if n == 0 then [] else if found then p ∷ rest else rest

-- The fractions of the roots of the first `n` primes.
unfoldable pub root_words : (w k n : ℕ) → List ℕ
unfolding primes_from fraction
root_words w k n = map (fraction w k) (primes_from 440 n 2)

-- Ch and Maj on bits.
abbrev pub choice_bit : (x y z : ℕ) → ℕ
choice_bit x y z = if x == 1 then y else z

abbrev pub majority_bit : (x y z : ℕ) → ℕ
majority_bit x y z = if leb 2 (x + y + z) then 1 else 0

-- ROTR and SHR of a word of `w` bits.
abbrev pub rotated_right : (w n x : ℕ) → ℕ
rotated_right w n x = x % 2 ^ n * 2 ^ (w - n) + x / 2 ^ n

abbrev pub three : (w r s t x : ℕ) → ℕ
three w r s t x =
    bit_xor (bit_xor (rotated_right w r x) (rotated_right w s x)) (rotated_right w t x)

abbrev pub two_shift : (w r s t x : ℕ) → ℕ
two_shift w r s t x = bit_xor (bit_xor (rotated_right w r x) (rotated_right w s x)) (x / 2 ^ t)

-- A digest of the standard: the words, the functions, the constants and the initial value.
pub record Standard : Type 0 where
  pub bits_of_word : ℕ
  pub rounds : ℕ
  pub upper0 : ℕ → ℕ
  pub upper1 : ℕ → ℕ
  pub lower0 : ℕ → ℕ
  pub lower1 : ℕ → ℕ
  pub k : List ℕ
  pub start : List ℕ

abbrev pub fips256 : Standard
fips256 = record {
  bits_of_word = 32;
  rounds = 64;
  upper0 = three 32 2 13 22;
  upper1 = three 32 6 11 25;
  lower0 = two_shift 32 7 18 3;
  lower1 = two_shift 32 17 19 10;
  k = root_words 32 3 64;
  start = root_words 32 2 8;
}

abbrev pub fips512 : Standard
fips512 = record {
  bits_of_word = 64;
  rounds = 80;
  upper0 = three 64 28 34 39;
  upper1 = three 64 14 18 41;
  lower0 = two_shift 64 1 8 7;
  lower1 = two_shift 64 19 61 6;
  k = root_words 64 3 80;
  start = root_words 64 2 8;
}

-- A word, its highest byte first.
unfoldable pub big_word : List ℕ → ℕ
big_word [] = 0
big_word (b ∷ bytes) = b * 256 ^ length bytes + big_word bytes

-- The `n` words of `size` bytes at the start of a block.
unfoldable pub block_words : (n size : ℕ) → List ℕ → List ℕ
unfolding big_word
block_words zero size bytes = []
block_words (suc n) size bytes = big_word (take size bytes) ∷ block_words n size (drop size bytes)

-- The `n` bytes of a number, the highest first.
unfoldable pub big_bytes : (n v : ℕ) → List ℕ
big_bytes zero v = []
big_bytes (suc n) v = v / 256 ^ n % 256 ∷ big_bytes n v

-- The zeros behind a message of `len` bytes and its one bit: the least number that ends an eighth of a block
-- before the end of a block.
abbrev pub zeros : (size len : ℕ) → ℕ
zeros size len = (size + (size - size / 8) - (len % size + 1)) % size

-- The message, the padding, and the number of its bits, modulo 2 ^ 64, in an eighth of a block of `size`
-- bytes.
unfoldable pub padded : (size : ℕ) → List ℕ → List ℕ
unfolding big_bytes
padded size bytes =
    bytes
    ++ ((0x80 ∷ replicate (zeros size (length bytes)) 0)
        ++ big_bytes (size / 8) (8 * length bytes % 2 ^ 64))

module _ (f : Standard) where
  open f use {bits_of_word, rounds, upper0, upper1, lower0, lower1, k, start}

  -- The message schedule, of `n` more words.
  unfoldable pub schedule : ℕ → List ℕ → List ℕ
  schedule zero ws = ws
  schedule (suc n) ws =
      let t = length ws in
      let w =
        (lower1 (get_or ws (t - 2) 0)
          + get_or ws (t - 7) 0
          + lower0 (get_or ws (t - 15) 0)
          + get_or ws (t - 16) 0)
        % 2 ^ bits_of_word in
      schedule n (ws ++ (w ∷ []))

  -- A round with the working variables a to h.
  unfoldable pub fips_round : (kt wt : ℕ) → List ℕ → List ℕ
  unfolding bits
  fips_round kt wt (a ∷ b ∷ c ∷ d ∷ e ∷ f ∷ g ∷ h ∷ []) =
      let t1 = h + upper1 e + bits bits_of_word choice_bit e f g + kt + wt in
      let t2 = upper0 a + bits bits_of_word majority_bit a b c in
      (t1 + t2) % 2 ^ bits_of_word ∷ a ∷ b ∷ c ∷ (d + t1) % 2 ^ bits_of_word ∷ e ∷ f ∷ g ∷ []
  fips_round kt wt v = v

  -- `n` rounds from `t` on.
  unfoldable pub fips_rounds : (n : ℕ) → (ws : List ℕ) → (t : ℕ) → List ℕ → List ℕ
  unfolding fips_round
  fips_rounds zero ws t v = v
  fips_rounds (suc n) ws t v =
      fips_rounds n ws (t + 1) (fips_round (get_or k t 0) (get_or ws t 0) v)

  unfoldable pub fips_sums : List ℕ → List ℕ → List ℕ
  fips_sums [] ys = []
  fips_sums (x ∷ xs) [] = x ∷ xs
  fips_sums (x ∷ xs) (y ∷ ys) = (x + y) % 2 ^ bits_of_word ∷ fips_sums xs ys

  unfoldable pub fips_block : List ℕ → (block : List ℕ) → List ℕ
  unfolding block_words schedule fips_rounds fips_sums
  fips_block h block =
      let ws = schedule (rounds - 16) (block_words 16 (bits_of_word / 8) block) in
      fips_sums h (fips_rounds rounds ws 0 h)

  unfoldable pub fips_blocks : (n : ℕ) → List ℕ → List ℕ → List ℕ
  unfolding fips_block
  fips_blocks zero h bytes = h
  fips_blocks (suc n) h bytes =
      fips_blocks n (fips_block h (take (2 * bits_of_word) bytes)) (drop (2 * bits_of_word) bytes)

  -- The hash value of a message, as words.
  unfoldable pub fips_hash : List ℕ → List ℕ
  unfolding fips_blocks padded
  fips_hash bytes =
      let message = padded (2 * bits_of_word) bytes in
      fips_blocks (length message / (2 * bits_of_word)) start message
