-- ===== src/Md5/Rfc.antt =====
-- MD5 as RFC 1321 describes it, apart from foundation/md5.c: the functions bit by bit, the constants from
-- the sine, the order of the words and the shifts by their rule, and bytes and words by place value.
use foundation_lib.Prelude.{
  ℕ, zero, suc, ◌+◌, ◌-◌, ◌*◌, ◌/◌, ◌%◌, ◌^◌, Bool, false, not, List, [], ◌∷◌, ◌++◌, leb, ltb, ◌==◌,
  if◌then◌else◌, length, get_or, take, drop, replicate,
}
use foundation_lib.Prelude.Bitwise.{bits, rotated_left}
use foundation_lib.Md5.Steps.{Mix, f1, f2, f3, f4, Step}
use foundation_lib.Md5.{State}

-- F, G, H and I on bits.
abbrev pub round_bit : Mix → (x y z : ℕ) → ℕ
round_bit f1 x y z = if x == 1 then y else z
round_bit f2 x y z = if z == 1 then x else y
round_bit f3 x y z = (x + y + z) % 2
round_bit f4 x y z = (y + (if x == 1 then 1 else 1 - z)) % 2

-- Real numbers in 2 ^ -96, with their sign.
abbrev scale : ℕ
scale = 2 ^ 96

record Fixed : Type 0 where
  negative : Bool
  size : ℕ

times : Fixed → Fixed → Fixed
times p q = record {
  negative = if p.negative then not q.negative else q.negative;
  size = p.size * q.size / scale;
}

plus : Fixed → Fixed → Fixed
plus p q =
    let apart = if p.negative then not q.negative else q.negative in
    if not apart
    then record { negative = p.negative; size = p.size + q.size }
    else if leb q.size p.size
    then record { negative = p.negative; size = p.size - q.size }
    else record { negative = q.negative; size = q.size - p.size }

minus : Fixed → Fixed → Fixed
unfolding plus
minus p q = plus p (record { negative = not q.negative; size = q.size })

-- 1 - 1 / (k (k + 1)) (1 - 1 / ((k + 2) (k + 3)) (1 - ...)), of `n` terms: the cosine of 1 for k = 1, the
-- sine for k = 2.
series : (n k : ℕ) → ℕ
series zero k = scale
series (suc n) k = scale - series n (k + 2) / (k * (k + 1))

sin1 : Fixed
unfolding series
sin1 = record { negative = false; size = series 20 2 }

cos1 : Fixed
unfolding series
cos1 = record { negative = false; size = series 20 1 }

-- The sine and the cosine of an angle.
record Angle : Type 0 where
  sine : Fixed
  cosine : Fixed

-- One radian on.
turned : Angle → Angle
unfolding times plus minus sin1 cos1
turned a = record {
  sine = plus (times a.sine cos1) (times a.cosine sin1);
  cosine = minus (times a.cosine cos1) (times a.sine sin1);
}

abbrev no_angle : Angle
no_angle = record {
  sine = record { negative = false; size = 0 };
  cosine = record { negative = false; size = scale };
}

-- The integer part of 2 ^ 32 times the absolute sine.
abbrev sine_word : Angle → ℕ
sine_word a = a.sine.size * 2 ^ 32 / scale

abbrev mix_of : ℕ → Mix
mix_of i = if ltb i 16 then f1 else if ltb i 32 then f2 else if ltb i 48 then f3 else f4

-- The word of the block that step `i` takes.
abbrev index_of : Mix → ℕ → ℕ
index_of f1 i = i % 16
index_of f2 i = (5 * i + 1) % 16
index_of f3 i = (3 * i + 5) % 16
index_of f4 i = 7 * i % 16

abbrev shift_of : Mix → ℕ → ℕ
shift_of f1 i = get_or (7 ∷ 12 ∷ 17 ∷ 22 ∷ []) (i % 4) 0
shift_of f2 i = get_or (5 ∷ 9 ∷ 14 ∷ 20 ∷ []) (i % 4) 0
shift_of f3 i = get_or (4 ∷ 11 ∷ 16 ∷ 23 ∷ []) (i % 4) 0
shift_of f4 i = get_or (6 ∷ 10 ∷ 15 ∷ 21 ∷ []) (i % 4) 0

-- The steps from `i` on; the constant of step `i` is that of the angle `i + 1`.
steps_from : (n i : ℕ) → Angle → List Step
unfolding turned
steps_from zero i a = []
steps_from (suc n) i a =
    let a' = turned a in
    record {
      mix = mix_of i;
      index = index_of (mix_of i) i;
      constant = sine_word a';
      shift = shift_of (mix_of i) i;
    }
    ∷ steps_from n (i + 1) a'

unfoldable pub rfc_steps : List Step
unfolding steps_from
rfc_steps = steps_from 64 0 no_angle

-- a = b + ((a + F(b, c, d) + X[k] + T[i]) <<< s), after which the words change places.
unfoldable pub rfc_step : (x : List ℕ) → Step → State → State
rfc_step x s q =
    let f = bits 32 (round_bit s.mix) q.b q.c q.d in
    let sum = (q.a + f + get_or x s.index 0 + s.constant) % 2 ^ 32 in
    record { a = q.d; b = (q.b + rotated_left 32 s.shift sum) % 2 ^ 32; c = q.b; d = q.c }

unfoldable pub rfc_run : (x : List ℕ) → List Step → State → State
rfc_run x [] q = q
rfc_run x (s ∷ ss) q = rfc_run x ss (rfc_step x s q)

-- The words of a block, their lowest bytes first.
unfoldable pub rfc_words : List ℕ → List ℕ
rfc_words (p ∷ q ∷ r ∷ s ∷ bytes) = (p + 2 ^ 8 * q + 2 ^ 16 * r + 2 ^ 24 * s) ∷ rfc_words bytes
rfc_words bytes = []

unfoldable pub rfc_block : State → (block : List ℕ) → State
rfc_block q block =
    let q' = rfc_run (rfc_words block) rfc_steps q in
    record {
      a = (q.a + q'.a) % 2 ^ 32;
      b = (q.b + q'.b) % 2 ^ 32;
      c = (q.c + q'.c) % 2 ^ 32;
      d = (q.d + q'.d) % 2 ^ 32;
    }

unfoldable pub rfc_blocks : (n : ℕ) → State → List ℕ → State
rfc_blocks zero q bytes = q
rfc_blocks (suc n) q bytes = rfc_blocks n (rfc_block q (take 64 bytes)) (drop 64 bytes)

-- The `n` lowest bytes of a number, the lowest first.
unfoldable pub low_bytes : (n w : ℕ) → List ℕ
low_bytes zero w = []
low_bytes (suc n) w = w % 256 ∷ low_bytes n (w / 256)

-- A one bit and zeros up to 8 bytes before the end of a block.
abbrev pub zeros : ℕ → ℕ
zeros len = (119 - len % 64) % 64

-- The message, the padding, and the number of bits of the message in 64 bits.
unfoldable pub padded : List ℕ → List ℕ
padded bytes =
    (bytes ++ (0x80 ∷ replicate (zeros (length bytes)) 0))
    ++ low_bytes 8 (8 * length bytes % 2 ^ 64)

-- The words A, B, C and D, given by their bytes.
unfoldable pub rfc_initial : List ℕ
rfc_initial = rfc_words (
    0x01 ∷ 0x23 ∷ 0x45 ∷ 0x67 ∷ 0x89 ∷ 0xab ∷ 0xcd ∷ 0xef ∷ 0xfe ∷ 0xdc ∷ 0xba ∷ 0x98 ∷ 0x76 ∷ 0x54
    ∷ 0x32 ∷ 0x10 ∷ [])

abbrev pub start : State
start = record {
  a = get_or rfc_initial 0 0;
  b = get_or rfc_initial 1 0;
  c = get_or rfc_initial 2 0;
  d = get_or rfc_initial 3 0;
}

-- The digest of a message.
unfoldable pub rfc_digest : List ℕ → List ℕ
rfc_digest bytes =
    let q = rfc_blocks (length (padded bytes) / 64) start (padded bytes) in
    low_bytes 4 q.a ++ (low_bytes 4 q.b ++ (low_bytes 4 q.c ++ low_bytes 4 q.d))
