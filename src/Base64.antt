-- ===== src/Base64.antt =====
-- foundation/base64.c. Bytes and characters are numbers below 256; the lists that the functions
-- return are what they leave in `destination`, and the counts are the lists' lengths.
pub mod Tables
pub mod Encode
pub mod Decode
pub mod RoundTrip
mod Tests
use Prim.Native.Nat.{bit_or}
use foundation_lib.Prelude.{
  ℕ, zero, suc, ◌+◌, ◌-◌, ◌*◌, ◌/◌, ◌%◌, ◌≤◌, Bool, true, false, ◌||◌, Option, none, some, List, [],
  ◌∷◌, ◌++◌, ltb, ◌==◌, if◌then◌else◌, length, take, get_or,
}
use foundation_lib.Base64.Tables.{encode_table, decode_table}

-- The four groups of six bits of three bytes.
abbrev pub bits1 : ℕ → ℕ
bits1 a = a / 4 % 64

abbrev pub bits2 : ℕ → ℕ → ℕ
bits2 a b = bit_or (a % 4 * 16) (b / 16 % 16)

abbrev pub bits3 : ℕ → ℕ → ℕ
bits3 b c = bit_or (b % 16 * 4) (c / 64 % 4)

abbrev pub bits4 : ℕ → ℕ
bits4 c = c % 64

abbrev pub letter : ℕ → ℕ
letter bits = get_or encode_table bits 0

-- The loop of `base64_encode`, what it does with one or two bytes that are left, and the zero behind.
pub encode_all : List ℕ → List ℕ
encode_all [] = 0 ∷ []
encode_all (a ∷ []) = letter (bits1 a) ∷ letter (a % 4 * 16) ∷ b'=' ∷ b'=' ∷ 0 ∷ []
encode_all (a ∷ b ∷ []) =
    letter (bits1 a) ∷ letter (bits2 a b) ∷ letter (b % 16 * 4) ∷ b'=' ∷ 0 ∷ []
encode_all (a ∷ b ∷ c ∷ rest) =
    letter (bits1 a) ∷ letter (bits2 a b) ∷ letter (bits3 b c) ∷ letter (bits4 c) ∷ encode_all rest

-- `base64_encode`.
pub encode : List ℕ → ℕ → List ℕ
unfolding encode_all
encode source zero = []
encode source (suc room) =
    let maxsize = room / 4 * 3 in
    encode_all (if ltb maxsize (length source) then take maxsize source else source)

-- What a character stands for: 62 more than its six bits, or 0 if it is to be skipped.
abbrev pub meaning : ℕ → ℕ
meaning v = if ltb v 43 || ltb 122 v then 0 else get_or decode_table (v - 43) 0

-- The innermost loop of `base64_decode`: the next character that is not skipped.
pub next_valid : List ℕ → Option ℕ × List ℕ
next_valid [] = (none, [])
next_valid (v ∷ source) =
    let m = meaning v in if m == 0 then next_valid source else (some (m - 62), source)

-- The loop over `i`: a block of `slots` characters at most, and the rest of the input.
pub block : ℕ → List ℕ → List ℕ × List ℕ
block zero source = ([], source)
block (suc slots) [] = ([], [])
block (suc slots) (v ∷ source) =
    let (found, rest) = next_valid (v ∷ source) in
    let (others, rest') = block slots rest in
    elim found [ none ↦ (others, rest') | some x ↦ (x ∷ others, rest') ]

-- The three bytes of a block whose missing characters are 0.
abbrev pub bytes : List ℕ → List ℕ
bytes chars =
    let in0 = get_or chars 0 0 in
    let in1 = get_or chars 1 0 in
    let in2 = get_or chars 2 0 in
    let in3 = get_or chars 3 0 in
    bit_or (in0 * 4) (in1 / 16) % 256
    ∷ bit_or (in1 * 16) (in2 / 4) % 256
    ∷ bit_or (in2 * 64 % 256) in3 % 256
    ∷ []

-- What a block adds to the output: a byte less than it has characters, as far as there is room.
abbrev pub output : List ℕ → ℕ → List ℕ
output chars room = take room (take (length chars - 1) (bytes chars))

-- `base64_decode`; `room` is what is left of `capacity`. `none`: the fuel, one unit for each block,
-- ran out.
pub decode : ℕ → List ℕ → ℕ → Option (List ℕ)
unfolding block next_valid
decode fuel [] room = some []
decode fuel (v ∷ source) zero = some []
decode zero (v ∷ source) (suc room) = none
decode (suc fuel) (v ∷ source) (suc room) =
    let (chars, rest) = block 4 (v ∷ source) in
    let out = output chars (suc room) in
    elim (decode fuel rest (suc room - length out)) [ none ↦ none | some more ↦ some (out ++ more) ]
