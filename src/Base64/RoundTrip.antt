-- ===== src/Base64/RoundTrip.antt =====
-- Decoding an encoding gives the bytes back.
use foundation_lib.Prelude.{
  ℕ, zero, suc, ◌+◌, ◌-◌, ◌*◌, ◌/◌, ◌%◌, ◌≤◌, ◌<◌, ◌≡◌, refl, ap, ◌∙◌, true, false, Option, none,
  some, List, [], ◌∷◌, ◌++◌, arith, ltb, ◌==◌, ==_iff, length, take, take_all,
}
use foundation_lib.Prelude.Bits.{all_below, all_below-true, or-16, or-4, or-64}
use foundation_lib.Base64.{
  encode_all, encode, decode, block, next_valid, letter, meaning, bits1, bits2, bits3, bits4, bytes,
  output,
}

meaning_table : all_below 64 (λ v. meaning (letter v) == v + 62) ≡ true
unfolding all_below
meaning_table = refl

meaning-letter : (v : ℕ) → v < 64 → meaning (letter v) ≡ v + 62
meaning-letter v h = (==_iff _ _).0 (all_below-true 64 _ v meaning_table h)

next_valid-letter :
    (v : ℕ) (source : List ℕ) → v < 64 → next_valid (letter v ∷ source) ≡ (some v, source)
unfolding next_valid
next_valid-letter v source h = rw (meaning-letter v h) (ground arith)

block-letter :
    (k v : ℕ) (source : List ℕ)
    → v < 64
    → block (suc k) (letter v ∷ source) ≡ (v ∷ (block k source).0, (block k source).1)
unfolding block
block-letter k v source h =
    rw (next_valid-letter v source h, block) (rw (next_valid-letter v source h))

block-four :
    (v0 v1 v2 v3 : ℕ) (rest : List ℕ)
    → v0 < 64
    → v1 < 64
    → v2 < 64
    → v3 < 64
    → block 4 (letter v0 ∷ letter v1 ∷ letter v2 ∷ letter v3 ∷ rest)
      ≡ (v0 ∷ v1 ∷ v2 ∷ v3 ∷ [], rest)
unfolding block
block-four v0 v1 v2 v3 rest h0 h1 h2 h3 = rw (
  block-letter 3 v0 _ h0,
  block-letter 2 v1 _ h1,
  block-letter 1 v2 _ h2,
  block-letter 0 v3 rest h3,
)

-- The groups of six bits, as numbers.
groups :
    (a b c : ℕ)
    → a < 256
    → b < 256
    → c < 256
    → (bits2 a b ≡ a % 4 * 16 + b / 16) × (bits3 b c ≡ b % 16 * 4 + c / 64)
groups a b c ha hb hc = (
  or-16 (a % 4) (b / 16 % 16) (omega arith) (omega arith) ∙ omega arith,
  or-4 (b % 16) (c / 64 % 4) (omega arith) (omega arith) ∙ omega arith,
)

-- Three bytes come back from their four groups.
bytes-groups :
    (a b c : ℕ)
    → a < 256
    → b < 256
    → c < 256
    → bytes (bits1 a ∷ bits2 a b ∷ bits3 b c ∷ bits4 c ∷ []) ≡ a ∷ b ∷ c ∷ []
bytes-groups a b c ha hb hc =
    let (g2, g3) = groups a b c ha hb hc in
    let v2 = a % 4 * 16 + b / 16 in
    let v3 = b % 16 * 4 + c / 64 in
    let high : v3 * 64 % 256 ≡ c / 64 * 64 = omega arith in
    rw
      (
        g2,
        g3,
        high,
        or-4 (a / 4 % 64) (v2 / 16) (omega arith) (omega arith),
        or-16 v2 (v3 / 4) (omega arith) (omega arith),
        or-64 (c / 64) (c % 64) (omega arith) (omega arith),
      )
      (ground arith)

-- The padded blocks of two bytes and of one.
bytes-two :
    (a b : ℕ)
    → a < 256
    → b < 256
    → take 2 (bytes (bits1 a ∷ bits2 a b ∷ b % 16 * 4 ∷ [])) ≡ a ∷ b ∷ []
bytes-two a b ha hb =
    let (g2, _) = groups a b 0 ha hb (omega arith) in
    let v2 = a % 4 * 16 + b / 16 in
    rw
      (
        g2,
        or-4 (a / 4 % 64) (v2 / 16) (omega arith) (omega arith),
        or-16 v2 (b % 16 * 4 / 4) (omega arith) (omega arith),
      )
      (ground arith)

bytes-one : (a : ℕ) → a < 256 → take 1 (bytes (bits1 a ∷ a % 4 * 16 ∷ [])) ≡ a ∷ []
bytes-one a ha = rw (or-4 (a / 4 % 64) (a % 4 * 16 / 16) (omega arith) (omega arith)) (ground arith)

abbrev pub AllBytes : List ℕ → Type 0
AllBytes [] = Unit
AllBytes (b ∷ bs) = (b < 256) × AllBytes bs

block-two :
    (v0 v1 : ℕ)
    → v0 < 64
    → v1 < 64
    → block 4 (letter v0 ∷ letter v1 ∷ b'=' ∷ b'=' ∷ 0 ∷ []) ≡ (v0 ∷ v1 ∷ [], [])
unfolding block next_valid
block-two v0 v1 h0 h1 = rw (block-letter 3 v0 _ h0, block-letter 2 v1 _ h1)

block-three :
    (v0 v1 v2 : ℕ)
    → v0 < 64
    → v1 < 64
    → v2 < 64
    → block 4 (letter v0 ∷ letter v1 ∷ letter v2 ∷ b'=' ∷ 0 ∷ []) ≡ (v0 ∷ v1 ∷ v2 ∷ [], [])
unfolding block next_valid
block-three v0 v1 v2 h0 h1 h2 =
    rw (block-letter 3 v0 _ h0, block-letter 2 v1 _ h1, block-letter 1 v2 _ h2)

-- One turn of the loop.
abbrev turn : ℕ → ℕ → List ℕ × List ℕ → Option (List ℕ)
turn f room b =
    let out = output b.0 (suc room) in
    elim (decode f b.1 (suc room - length out)) [ none ↦ none | some more ↦ some (out ++ more) ]

decode-suc :
    (f room v : ℕ) (source : List ℕ)
    → decode (suc f) (v ∷ source) (suc room) ≡ turn f room (block 4 (v ∷ source))
unfolding decode
decode-suc f room v source = refl

decode-turn :
    (f room v : ℕ) (source chars rest out more : List ℕ)
    → block 4 (v ∷ source) ≡ (chars, rest)
    → take (length chars - 1) (bytes chars) ≡ out
    → length out ≤ suc room
    → decode f rest (suc room - length out) ≡ some more
    → decode (suc f) (v ∷ source) (suc room) ≡ some (out ++ more)
decode-turn f room v source chars rest out more e b fits d =
    let o : output chars (suc room) ≡ out = ap (take (suc room)) b ∙ take_all (suc room) out fits in
    decode-suc f room v source
    ∙ ap (turn f room) e
    ∙ rw (o, turn) (rw (d, turn) (ap (λ x. some (x ++ more)) o))

decode-end : (f room : ℕ) → decode f [] room ≡ some []
unfolding decode
decode-end f room = refl

decode-encode_all :
    (s : List ℕ) (f room : ℕ)
    → AllBytes s
    → length s ≤ room
    → length s < f
    → decode f (encode_all s) room ≡ some s
unfolding encode_all
decode-encode_all s zero room all fits fuel = absurd (omega arith)
decode-encode_all [] (suc f) zero all fits fuel = unfold decode in refl
decode-encode_all [] (suc f) (suc room) all fits fuel = unfold decode block next_valid in refl
decode-encode_all (a ∷ []) (suc f) zero all fits fuel = absurd (omega arith)
decode-encode_all (a ∷ []) (suc f) (suc room) all fits fuel =
    decode-turn f room _ _ _ [] (a ∷ []) []
      (block-two (bits1 a) (a % 4 * 16) (omega arith) (omega arith)) (bytes-one a all.0)
      (omega arith) (decode-end f _)
decode-encode_all (a ∷ b ∷ []) (suc f) zero all fits fuel = absurd (omega arith)
decode-encode_all (a ∷ b ∷ []) (suc f) (suc room) all fits fuel =
    let (g2, _) = groups a b 0 all.0 all.1.0 (omega arith) in
    decode-turn f room _ _ _ [] (a ∷ b ∷ []) []
      (block-three (bits1 a) (bits2 a b) (b % 16 * 4) (omega arith) (rw g2 (omega arith))
        (omega arith))
      (bytes-two a b all.0 all.1.0) (omega arith) (decode-end f _)
decode-encode_all (a ∷ b ∷ c ∷ s) (suc f) zero all fits fuel = absurd (omega arith)
decode-encode_all (a ∷ b ∷ c ∷ s) (suc f) (suc room) all fits fuel =
    let (g2, g3) = groups a b c all.0 all.1.0 all.1.1.0 in
    decode-turn f room _ _ _ (encode_all s) (a ∷ b ∷ c ∷ []) s
      (block-four (bits1 a) (bits2 a b) (bits3 b c) (bits4 c) (encode_all s) (omega arith)
        (rw g2 (omega arith)) (rw g3 (omega arith)) (omega arith))
      (bytes-groups a b c all.0 all.1.0 all.1.1.0) (omega arith)
      (decode-encode_all s f _ all.1.1.1 (omega arith) (omega arith))

-- Bytes that are encoded into enough room and decoded into enough room come back: if `capacity` leaves
-- room for all of the bytes, and the decoder is given room for as many. A round of the decoder for
-- every byte, and one more, is enough.
pub decode-encode :
    (s : List ℕ) (capacity room fuel : ℕ)
    → AllBytes s
    → 0 < capacity
    → length s ≤ (capacity - 1) / 4 * 3
    → length s ≤ room
    → length s < fuel
    → decode fuel (encode s capacity) room ≡ some s
unfolding encode
decode-encode s zero room fuel all pos fits le enough = absurd (omega arith)
decode-encode s (suc c) room fuel all pos fits le enough =
    let whole : ltb (c / 4 * 3) (length s) ≡ false = ground arith in
    rw whole (decode-encode_all s fuel room all le enough)
