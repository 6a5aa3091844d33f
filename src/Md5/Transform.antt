-- ===== src/Md5/Transform.antt =====
-- `md5_transform` of foundation/md5.c is what RFC 1321 does to a block.
use foundation_lib.Prelude.Bytes.{Bytes, take-Bytes, drop-Bytes}
use Prim.Native.Nat.{bit_and, bit_or, bit_xor, differ}
use foundation_lib.Prelude.{
  ℕ, zero, suc, ◌+◌, ◌-◌, ◌*◌, ◌/◌, ◌%◌, ◌^◌, ◌≤◌, ◌<◌, min, max, ◌≡◌, refl, ap, ap₂, ◌∙◌, Bool,
  true, ◌&&◌, List, [], ◌∷◌, arith, leb, ◌==◌, if◌then◌else◌, get_or, take, drop, add32,
}
use foundation_lib.Prelude.Bits.{all_below}
use foundation_lib.Prelude.Pow.{two_pow-suc, two_pow-pos, or-shift}
use foundation_lib.Prelude.Bitwise.{
  bits, bits_of, bit_table, and-half, and-low, or-half, or-low, xor-half, xor-low, or_comm,
  rotate_lem, rotated_left,
}
use foundation_lib.Md5.Steps.{Mix, f1, f2, f3, f4, Step, steps}
use foundation_lib.Md5.{State, mixed, rotated, step, run_steps, decode, transform, initial, blocks}
use foundation_lib.Md5.Rfc.{
  round_bit, rfc_steps, rfc_step, rfc_run, rfc_words, rfc_block, rfc_blocks, start, rfc_initial,
}

-- The table of the code is the one that the sine gives.
steps-sine : steps ≡ rfc_steps
unfolding rfc_steps
steps-sine = refl

pub initial-start : initial ≡ start
unfolding rfc_initial rfc_words
initial-start = refl

-- The code's form of a function on words of `w` bits; `md5_transform` has it at 32.
abbrev form : Mix → (w : ℕ) → (x y z : ℕ) → ℕ
form f1 w x y z = bit_xor z (bit_and x (bit_xor y z))
form f2 w x y z = bit_xor y (bit_and z (bit_xor x y))
form f3 w x y z = bit_xor (bit_xor x y) z
form f4 w x y z = bit_xor y (bit_or x (bit_xor z (2 ^ w - 1)))

choice_half :
    (x y z : ℕ)
    → bit_xor z (bit_and x (bit_xor y z)) / 2
      ≡ bit_xor (z / 2) (bit_and (x / 2) (bit_xor (y / 2) (z / 2)))
choice_half x y z =
    xor-half z (bit_and x (bit_xor y z))
    ∙ ap (bit_xor (z / 2)) (and-half x (bit_xor y z) ∙ ap (bit_and (x / 2)) (xor-half y z))

choice_table :
    all_below 2 (λ x.
      all_below 2
        (λ y. all_below 2 (λ z. differ z (min x (differ y z)) == (if x == 1 then y else z))))
    ≡ true
unfolding all_below
choice_table = refl

choice_low :
    (x y z : ℕ) → bit_xor z (bit_and x (bit_xor y z)) % 2 ≡ (if x % 2 == 1 then y % 2 else z % 2)
choice_low x y z =
    xor-low z (bit_and x (bit_xor y z))
    ∙ ap (differ (z % 2)) (and-low x (bit_xor y z) ∙ ap (min (x % 2)) (xor-low y z))
    ∙ bit_table (λ x y z. differ z (min x (differ y z))) (λ x y z. if x == 1 then y else z)
        choice_table x y z

form_half : (m : Mix) (w x y z : ℕ) → form m (suc w) x y z / 2 ≡ form m w (x / 2) (y / 2) (z / 2)
form_half f1 w x y z = choice_half x y z
form_half f2 w x y z = choice_half z x y
form_half f3 w x y z = xor-half (bit_xor x y) z ∙ ap (λ t. bit_xor t (z / 2)) (xor-half x y)
form_half f4 w x y z =
    let ones : (2 ^ suc w - 1) / 2 ≡ 2 ^ w - 1 = omega (arith, two_pow-suc w) in
    xor-half y (bit_or x (bit_xor z (2 ^ suc w - 1)))
    ∙ ap (bit_xor (y / 2)) (
        or-half x (bit_xor z (2 ^ suc w - 1))
        ∙ ap (bit_or (x / 2)) (xor-half z (2 ^ suc w - 1) ∙ ap (bit_xor (z / 2)) ones))

parity_table :
    all_below 2
      (λ x. all_below 2 (λ y. all_below 2 (λ z. differ (differ x y) z == (x + y + z) % 2)))
    ≡ true
unfolding all_below
parity_table = refl

or_not_table :
    all_below 2 (λ x. all_below 2 (λ y.
      all_below 2 (λ z. differ y (max x (differ z 1)) == (y + (if x == 1 then 1 else 1 - z)) % 2)))
    ≡ true
unfolding all_below
or_not_table = refl

form_low : (m : Mix) (w x y z : ℕ) → form m (suc w) x y z % 2 ≡ round_bit m (x % 2) (y % 2) (z % 2)
form_low f1 w x y z = choice_low x y z
form_low f2 w x y z = choice_low z x y
form_low f3 w x y z =
    xor-low (bit_xor x y) z
    ∙ ap (λ t. differ t (z % 2)) (xor-low x y)
    ∙ bit_table (λ x y z. differ (differ x y) z) (round_bit f3) parity_table x y z
form_low f4 w x y z =
    let pos = two_pow-pos w in
    let one : (2 ^ suc w - 1) % 2 ≡ 1 = omega (arith, two_pow-suc w) in
    xor-low y (bit_or x (bit_xor z (2 ^ suc w - 1)))
    ∙ ap (differ (y % 2)) (
        or-low x (bit_xor z (2 ^ suc w - 1))
        ∙ ap (max (x % 2)) (xor-low z (2 ^ suc w - 1) ∙ ap (differ (z % 2)) one))
    ∙ bit_table (λ x y z. differ y (max x (differ z 1))) (round_bit f4) or_not_table x y z

form_none : (m : Mix) → form m 0 0 0 0 ≡ 0
form_none f1 = refl
form_none f2 = refl
form_none f3 = refl
form_none f4 = refl

mixed-form : (m : Mix) (x y z : ℕ) → mixed m x y z ≡ form m 32 x y z
unfolding mixed
mixed-form f1 x y z = refl
mixed-form f2 x y z = refl
mixed-form f3 x y z = refl
mixed-form f4 x y z = refl

mixed-bits :
    (m : Mix) (x y z : ℕ)
    → x < 2 ^ 32
    → y < 2 ^ 32
    → z < 2 ^ 32
    → mixed m x y z ≡ bits 32 (round_bit m) x y z
mixed-bits m x y z p q r =
    mixed-form m x y z
    ∙ bits_of (form m) (round_bit m) (form_none m) (form_half m) (form_low m) 32 x y z p q r

-- The words of a state are below 2 ^ 32.
pub record Narrow (q : State) : Type 0 where
  a : q.a < 2 ^ 32
  b : q.b < 2 ^ 32
  c : q.c < 2 ^ 32
  d : q.d < 2 ^ 32

abbrev with_word : State → ℕ → State
with_word q w = record { a = q.d; b = w; c = q.b; d = q.c }

step-rfc_step :
    (x : List ℕ) (s : Step) (q : State)
    → s.shift ≤ 32
    → Narrow q
    → (step x s q ≡ rfc_step x s q) × Narrow (rfc_step x s q)
unfolding step rfc_step
step-rfc_step x s q le n =
    let f = bits 32 (round_bit s.mix) q.b q.c q.d in
    let k = get_or x s.index 0 in
    let sum = (q.a + f + k + s.constant) % 2 ^ 32 in
    let same : add32 q.a (add32 f (add32 k s.constant)) ≡ sum = omega arith in
    let turned = rotate_lem 32 s.shift sum le (omega arith) in
    let b : add32 (rotated sum s.shift) q.b ≡ (q.b + rotated_left 32 s.shift sum) % 2 ^ 32 =
      ap (λ r. (r + q.b) % 2 ^ 32) turned ∙ omega arith in
    (
      rw (mixed-bits s.mix q.b q.c q.d n.b n.c n.d, same) (ap (with_word q) b),
      record { a = n.d; b = omega arith; c = n.b; d = n.c },
    )

abbrev all_small : List Step → Bool
all_small [] = true
all_small (s ∷ ss) = leb s.shift 32 && all_small ss

rotations_small :
    (s : Step) (ss : List Step) → all_small (s ∷ ss) ≡ true → (s.shift ≤ 32) × (all_small ss ≡ true)
rotations_small s ss e = ground (arith, e)

run-rfc_run :
    (x : List ℕ) (ss : List Step) (q : State)
    → all_small ss ≡ true
    → Narrow q
    → (run_steps x ss q ≡ rfc_run x ss q) × Narrow (rfc_run x ss q)
unfolding run_steps rfc_run
run-rfc_run x [] q small n = (refl, n)
run-rfc_run x (s ∷ ss) q small n =
    let (le, small') = rotations_small s ss small in
    let (e, n') = step-rfc_step x s q le n in
    let (e', n'') = run-rfc_run x ss (rfc_step x s q) small' n' in (ap (run_steps x ss) e ∙ e', n'')

-- `y | (x << c)`.
or-above : (c x y : ℕ) → y < 2 ^ c → bit_or y (x * 2 ^ c) ≡ x * 2 ^ c + y
or-above c x y lt = or_comm y (x * 2 ^ c) ∙ or-shift c x y lt

decode-rfc_words : (bytes : List ℕ) → Bytes bytes → decode bytes ≡ rfc_words bytes
unfolding decode rfc_words
decode-rfc_words [] b = refl
decode-rfc_words (p ∷ []) b = refl
decode-rfc_words (p ∷ q ∷ []) b = refl
decode-rfc_words (p ∷ q ∷ r ∷ []) b = refl
decode-rfc_words (p ∷ q ∷ r ∷ s ∷ bytes) (lp, (lq, (lr, (ls, b)))) =
    let one = or-above 8 q p (omega arith) in
    let two = or-above 16 r (q * 2 ^ 8 + p) (omega arith) in
    let three = or-above 24 s (r * 2 ^ 16 + (q * 2 ^ 8 + p)) (omega arith) in
    ap₂ ◌∷◌ (rw (one, two, three) (omega arith)) (decode-rfc_words bytes b)

pub start-Narrow : Narrow start
unfolding rfc_initial rfc_words
start-Narrow = record { a = omega arith; b = omega arith; c = omega arith; d = omega arith }

abbrev sums : State → State → State
sums q q' = record {
  a = add32 q.a q'.a;
  b = add32 q.b q'.b;
  c = add32 q.c q'.c;
  d = add32 q.d q'.d;
}

transform-rfc_block :
    (q : State) (block : List ℕ)
    → Narrow q
    → Bytes block
    → (transform q block ≡ rfc_block q block) × Narrow (rfc_block q block)
unfolding transform rfc_block
transform-rfc_block q block n b =
    let words = decode-rfc_words block b in
    let (e, n') = run-rfc_run (rfc_words block) steps q refl n in
    (
      ap (sums q) (
          ap (λ x. run_steps x steps q) words
          ∙ e
          ∙ ap (λ ss. rfc_run (rfc_words block) ss q) steps-sine),
      record { a = omega arith; b = omega arith; c = omega arith; d = omega arith },
    )

-- The loop over the blocks of a message.
pub blocks-rfc_blocks :
    (n : ℕ) (q : State) (bytes : List ℕ)
    → Narrow q
    → Bytes bytes
    → blocks n q bytes ≡ rfc_blocks n q bytes
unfolding blocks rfc_blocks
blocks-rfc_blocks zero q bytes narrow b = refl
blocks-rfc_blocks (suc n) q bytes narrow b =
    let (e, narrow') = transform-rfc_block q (take 64 bytes) narrow (take-Bytes 64 bytes b) in
    ap (λ q'. blocks n q' (drop 64 bytes)) e
    ∙ blocks-rfc_blocks n (rfc_block q (take 64 bytes)) (drop 64 bytes) narrow'
        (drop-Bytes 64 bytes b)
