-- ===== src/Blowfish.antt =====
-- foundation/blowfish.c. A block is two `uint32_t`, and the data that is encrypted the list of them.
pub mod Tables
pub mod Words
pub mod Blocks
pub mod Schedule
mod Tests
use Prim.Native.Nat.{bit_and, bit_or, bit_xor}
use foundation_lib.Prelude.{
  ℕ, zero, suc, ◌+◌, ◌-◌, ◌*◌, ◌/◌, ◌%◌, ◌^◌, ◌≤◌, ◌<◌, min, max, ◌≡◌, refl, sym, ap, ap₂, ◌∙◌, ◌≢◌,
  ◌↔◌, ◌⊎◌, inl, inr, Bool, true, false, not, ◌&&◌, ◌||◌, Option, none, some, List, [], ◌∷◌, ◌++◌,
  map, append_assoc, append-nil, arith, dec_lt, ℕ_discrete, ltb, leb, ◌==◌, if◌then◌else◌, ltb→lt,
  lt→ltb, leb→le, ==_iff, tests, Bool-cases, Option-cases, length, get_elem?, length-append,
  length-set, get_elem?-set_self, get_elem?-set_ne, get_or, take, drop, replicate, take-append-drop,
  length-take, length-drop, length-replicate, length-map, slice, overwrite, length-overwrite,
  take-append_le, take-append_ge, drop-append_le, drop-append_ge, take_all, drop_all, drop-nil,
  take-nil, drop-drop, take-take, drop-take, take-add, take-overwrite, drop-overwrite_end,
  drop-overwrite_ge, drop-overwrite_le, slice-overwrite, take-eq_nil, take-overwrite-max,
  overwrite-nil, drop-overwrite_self, get_or-set_self, get_or-set_ne, get_or-replicate,
  take-set_end, add64, sub64, add32, sub32, set,
}
use foundation_lib.Blowfish.Tables.{parray_init, sbox0_init, sbox1_init, sbox2_init, sbox3_init}

-- `blowfish_t`.
pub record Blowfish : Type 0 where
  pub parray : List ℕ
  pub sboxes : List (List ℕ)

-- `blowfish->parray[i]` and `blowfish->sboxes[box][entry]`.
abbrev pub subkey : Blowfish → ℕ → ℕ
subkey b i = get_or b.parray i 0

abbrev pub sbox : Blowfish → ℕ → ℕ → ℕ
sbox b box entry = get_or (get_or b.sboxes box []) entry 0

-- `FEISTEL`.
pub feistel : Blowfish → ℕ → ℕ
feistel b val =
    let sum = add32 (sbox b 0 (val / 2 ^ 24 % 256)) (sbox b 1 (val / 2 ^ 16 % 256)) in
    add32 (bit_xor sum (sbox b 2 (val / 2 ^ 8 % 256))) (sbox b 3 (val % 256))

-- Two words, `lval` and `hval` or `chain[0]` and `chain[1]`.
abbrev pub Pair : Type 0
Pair = ℕ × ℕ

abbrev pub xor_pair : Pair → Pair → Pair
xor_pair (x, y) (x', y') = (bit_xor x x', bit_xor y y')

-- A round, after which the two words change places: `hval ^= FEISTEL(lval) ^ parray[i]`.
abbrev pub round : Blowfish → ℕ → Pair → Pair
round b i (lval, hval) = (bit_xor hval (bit_xor (feistel b lval) (subkey b i)), lval)

-- Rounds with the subkeys of a list of indices.
pub rounds : Blowfish → List ℕ → Pair → Pair
rounds b [] words = words
rounds b (i ∷ is) words = rounds b is (round b i words)

-- The order in which the subkeys are used.
abbrev pub forward : List ℕ
forward = 1 ∷ 2 ∷ 3 ∷ 4 ∷ 5 ∷ 6 ∷ 7 ∷ 8 ∷ 9 ∷ 10 ∷ 11 ∷ 12 ∷ 13 ∷ 14 ∷ 15 ∷ 16 ∷ []

abbrev pub backward : List ℕ
backward = 16 ∷ 15 ∷ 14 ∷ 13 ∷ 12 ∷ 11 ∷ 10 ∷ 9 ∷ 8 ∷ 7 ∷ 6 ∷ 5 ∷ 4 ∷ 3 ∷ 2 ∷ 1 ∷ []

-- `_blowfish_encrypt_words`.
pub encrypt_words : Blowfish → Pair → Pair
unfolding rounds
encrypt_words b (lval, hval) =
    let (l, h) = rounds b forward (bit_xor lval (subkey b 0), hval) in (bit_xor h (subkey b 17), l)

-- `_blowfish_decrypt_words`.
pub decrypt_words : Blowfish → Pair → Pair
unfolding rounds
decrypt_words b (lval, hval) =
    let (l, h) = rounds b backward (bit_xor lval (subkey b 17), hval) in (bit_xor h (subkey b 0), l)

-- `blockcipher_mode_t`.
pub data BlockcipherMode : Type 0 where
  blockcipher_ecb blockcipher_cbc blockcipher_cfb blockcipher_ofb : BlockcipherMode

-- One turn of the loop of `blowfish_encrypt` for a mode: the block, and the chain behind it.
pub encrypt_block : Blowfish → BlockcipherMode → (chain block : Pair) → Pair × Pair
encrypt_block b blockcipher_ecb chain block = (encrypt_words b block, chain)
encrypt_block b blockcipher_cbc chain block =
    let out = encrypt_words b (xor_pair block chain) in (out, out)
encrypt_block b blockcipher_cfb chain block =
    let out = xor_pair block (encrypt_words b chain) in (out, out)
encrypt_block b blockcipher_ofb chain block =
    let chain' = encrypt_words b chain in (xor_pair block chain', chain')

-- One turn of the loop of `blowfish_decrypt`.
pub decrypt_block : Blowfish → BlockcipherMode → (chain block : Pair) → Pair × Pair
decrypt_block b blockcipher_ecb chain block = (decrypt_words b block, chain)
decrypt_block b blockcipher_cbc chain block = (xor_pair (decrypt_words b block) chain, block)
decrypt_block b blockcipher_cfb chain block = (xor_pair block (encrypt_words b chain), block)
decrypt_block b blockcipher_ofb chain block =
    let chain' = encrypt_words b chain in (xor_pair block chain', chain')

-- The loop of either function over the blocks at `cur`.
pub each_block : (Pair → Pair → Pair × Pair) → ℕ → Pair → List ℕ → List ℕ
each_block step zero chain words = words
each_block step (suc n) chain [] = []
each_block step (suc n) chain (x ∷ []) = x ∷ []
each_block step (suc n) chain (x ∷ y ∷ words) =
    let ((x', y'), chain') = step chain (x, y) in x' ∷ y' ∷ each_block step n chain' words

-- The start of the chain.
abbrev pub start : ℕ → Pair
start vec = (vec / 2 ^ 32 % 2 ^ 32, vec % 2 ^ 32)

-- `blowfish_encrypt`; `size` is its `length`, in bytes.
pub encrypt : Blowfish → List ℕ → (size : ℕ) → BlockcipherMode → (vec : ℕ) → List ℕ
unfolding encrypt_block each_block
encrypt b words size mode vec =
    each_block (encrypt_block b mode) ((size - size % 8) / 8) (start vec) words

-- `blowfish_decrypt`.
pub decrypt : Blowfish → List ℕ → (size : ℕ) → BlockcipherMode → (vec : ℕ) → List ℕ
unfolding decrypt_block each_block
decrypt b words size mode vec =
    each_block (decrypt_block b mode) ((size - size % 8) / 8) (start vec) words

-- The loop over `iword` in `blowfish_initialize`.
pub key_data : (fuel : ℕ) → List ℕ → (capped_length ikey key_word : ℕ) → ℕ
key_data zero key capped_length ikey key_word = key_word
key_data (suc n) key capped_length ikey key_word =
    key_data n key capped_length (ikey + 1)
      (bit_or (key_word * 2 ^ 8 % 2 ^ 32) (get_or key (ikey % capped_length) 0))

-- The first loop over `isub`.
pub mix_key : List ℕ → (capped_length ikey : ℕ) → List ℕ → List ℕ
unfolding key_data
mix_key key capped_length ikey [] = []
mix_key key capped_length ikey (p ∷ ps) =
    bit_xor p (key_data 4 key capped_length ikey 0) ∷ mix_key key capped_length (ikey + 4) ps

-- Two words of an array from `i` on.
abbrev pub put_pair : List ℕ → ℕ → Pair → List ℕ
put_pair words i (x, y) = set (set words i x) (i + 1) y

-- The second loop over `isub`: `n` turns from `isub` on.
pub fill_subkeys : (n isub : ℕ) → Blowfish → Pair → Blowfish × Pair
fill_subkeys zero isub b words = (b, words)
fill_subkeys (suc n) isub b words =
    let words' = encrypt_words b words in
    fill_subkeys n (isub + 2) (record b { parray = put_pair b.parray isub words' }) words'

-- The loop over `ientry` for a box.
pub fill_box : (n ibox ientry : ℕ) → Blowfish → Pair → Blowfish × Pair
fill_box zero ibox ientry b words = (b, words)
fill_box (suc n) ibox ientry b words =
    let words' = encrypt_words b words in
    let box = put_pair (get_or b.sboxes ibox []) ientry words' in
    fill_box n ibox (ientry + 2) (record b { sboxes = set b.sboxes ibox box }) words'

-- The loop over `ibox`.
pub fill_boxes : (n ibox : ℕ) → Blowfish → Pair → Blowfish × Pair
unfolding fill_box
fill_boxes zero ibox b words = (b, words)
fill_boxes (suc n) ibox b words =
    let (b', words') = fill_box 128 ibox 0 b words in fill_boxes n (ibox + 1) b' words'

-- `blowfish_initialize`.
pub initialize : List ℕ → (size : ℕ) → Blowfish
unfolding mix_key fill_subkeys fill_boxes
initialize key size =
    let capped_length = if leb size 56 then size else 56 in
    let b : Blowfish = record {
      parray = mix_key key capped_length 0 parray_init;
      sboxes = sbox0_init ∷ sbox1_init ∷ sbox2_init ∷ sbox3_init ∷ [];
    } in
    let (b', words) = fill_subkeys 9 0 b (0, 0) in (fill_boxes 4 0 b' words).0
