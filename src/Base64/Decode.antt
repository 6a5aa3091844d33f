-- ===== src/Base64/Decode.antt =====
-- `base64_decode` on any input: it ends, stays inside its room, and skips what is no base64 character.
use foundation_lib.Prelude.{
  ℕ, zero, suc, ◌-◌, ◌≤◌, ◌<◌, ◌≡◌, refl, sym, ap, ◌∙◌, inl, inr, Option, none, some, List, [], ◌∷◌,
  ◌++◌, arith, ◌==◌, if◌then◌else◌, Option-cases, length, length-append, take, length-take,
}
use foundation_lib.Base64.{decode, block, next_valid, meaning, output, bytes}

length-next_valid : (s : List ℕ) → length (next_valid s).1 ≤ length s - 1
unfolding next_valid
length-next_valid [] = omega arith
length-next_valid (v ∷ s) = ground (arith, length-next_valid s)

length-block :
    (k : ℕ) (s : List ℕ)
    → (length (block k s).1 ≤ length s) × (0 < k → length (block k s).1 ≤ length s - 1)
unfolding block
length-block zero s = ground arith
length-block (suc k) [] = ground arith
length-block (suc k) (v ∷ s) =
    ground (arith, length-next_valid (v ∷ s), length-block k (next_valid (v ∷ s)).1)

-- What a character that is not skipped leaves: the input without the others.
pub valid : List ℕ → List ℕ
valid [] = []
valid (v ∷ s) = if meaning v == 0 then valid s else v ∷ valid s

-- Decoding ends within a block for every character, and writes no more bytes than there is room for.
pub decode_total :
    (fuel room : ℕ) (s : List ℕ)
    → length s ≤ fuel
    → (out : List ℕ) × (decode fuel s room ≡ some out) × (length out ≤ room)
unfolding decode
decode_total fuel room [] h = ([], refl, omega arith)
decode_total fuel zero (v ∷ s) h = ([], refl, omega arith)
decode_total zero (suc room) (v ∷ s) h = absurd (omega arith)
decode_total (suc f) (suc room) (v ∷ s) h =
    let (chars, rest) = block 4 (v ∷ s) in
    let out = output chars (suc room) in
    let small : length rest ≤ f = omega (arith, (length-block 4 (v ∷ s)).1 (omega arith)) in
    let (more, e, le) = decode_total f (suc room - length out) rest small in
    (
      out ++ more,
      rw (e, decode) refl,
      omega (
        arith,
        length-append out more,
        length-take (suc room) (take (length chars - 1) (bytes chars)),
      ),
    )

next_valid-valid :
    (s : List ℕ)
    → ((next_valid (valid s)).0 ≡ (next_valid s).0)
      × ((next_valid (valid s)).1 ≡ valid (next_valid s).1)
unfolding next_valid valid
next_valid-valid [] = (refl, refl)
next_valid-valid (v ∷ s) = ground (arith, next_valid-valid s)

-- `block` by what it does first.
block_on : ℕ → Option ℕ × List ℕ → List ℕ × List ℕ
block_on k (none, rest) = ((block k rest).0, (block k rest).1)
block_on k (some x, rest) = (x ∷ (block k rest).0, (block k rest).1)

block-suc : (k : ℕ) (s : List ℕ) → block (suc k) s ≡ block_on k (next_valid s)
unfolding block block_on next_valid
block-suc zero [] = refl
block-suc (suc k) [] = refl
block-suc k (v ∷ s) = elim (Option-cases (next_valid (v ∷ s)).0) [
  | inl e ↦ ground arith
  | inr (x, e) ↦ ground arith
]

abbrev Same : List ℕ × List ℕ → List ℕ × List ℕ → Type 0
Same b c = (b.0 ≡ c.0) × (b.1 ≡ valid c.1)

block_on-valid :
    (k : ℕ) (o : Option ℕ) (rest : List ℕ)
    → Same (block k (valid rest)) (block k rest)
    → Same (block_on k (o, valid rest)) (block_on k (o, rest))
unfolding block_on
block_on-valid k none rest h = h
block_on-valid k (some x) rest h = (ap (λ t. x ∷ t) h.0, h.1)

block-valid : (k : ℕ) (s : List ℕ) → Same (block k (valid s)) (block k s)
block-valid zero s = unfold block in (refl, refl)
block-valid (suc k) s =
    let (a, r) = next_valid-valid s in
    let e : next_valid (valid s) ≡ ((next_valid s).0, valid (next_valid s).1) = λ i. (a i, r i) in
    rw (block-suc k s, block-suc k (valid s), e)
      (block_on-valid k (next_valid s).0 (next_valid s).1 (block-valid k (next_valid s).1))

-- One turn of the loop, given its block.
abbrev turn : ℕ → ℕ → List ℕ → List ℕ → Option (List ℕ)
turn f room chars rest =
    let out = output chars (suc room) in
    elim (decode f rest (suc room - length out)) [ none ↦ none | some more ↦ some (out ++ more) ]

decode-turn :
    (f room v : ℕ) (s : List ℕ)
    → decode (suc f) (v ∷ s) (suc room) ≡ turn f room (block 4 (v ∷ s)).0 (block 4 (v ∷ s)).1
unfolding decode
decode-turn f room v s = refl

decode-end : (f room : ℕ) → decode f [] room ≡ some []
unfolding decode
decode-end f room = refl

-- Also a block that has nothing in it is a turn.
decode-block :
    (f room : ℕ) (s : List ℕ)
    → decode (suc f) s (suc room) ≡ turn f room (block 4 s).0 (block 4 s).1
decode-block f room [] = decode-end (suc f) (suc room) ∙ unfold block decode in refl
decode-block f room (v ∷ s) = decode-turn f room v s

decode-full : (f : ℕ) (s : List ℕ) → decode f s 0 ≡ some []
unfolding decode
decode-full f [] = refl
decode-full f (v ∷ s) = refl

shorter : (s : List ℕ) (f : ℕ) → length s ≤ suc f → length (block 4 s).1 ≤ f
shorter s f h = omega (arith, (length-block 4 s).1 (omega arith))

-- Characters that are no base64 characters, and line ends and padding among them, do not count.
pub decode-valid :
    (fuel room : ℕ) (s : List ℕ) → length s ≤ fuel → decode fuel s room ≡ decode fuel (valid s) room
decode-valid zero room [] h = unfold valid in refl
decode-valid zero room (v ∷ s) h = absurd (omega arith)
decode-valid (suc f) zero s h = decode-full (suc f) s ∙ sym (decode-full (suc f) (valid s))
decode-valid (suc f) (suc room) s h =
    let (chars, rest) = block-valid 4 s in
    let out = output (block 4 s).0 (suc room) in
    let ih = decode-valid f (suc room - length out) (block 4 s).1 (shorter s f h) in
    rw (decode-block f room s, decode-block f room (valid s), chars, rest)
      (ap (λ d. elim d [ none ↦ none | some more ↦ some (out ++ more) ]) ih)
