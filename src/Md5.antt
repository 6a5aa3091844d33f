-- ===== src/Md5.antt =====
-- foundation/md5.c. Buffers are lists of bytes, and words are `uint32_t`.
pub mod Steps
pub mod Blocks
pub mod Chunks
pub mod Rfc
pub mod Transform
pub mod Reference
mod Tests
use Prim.Native.Nat.{bit_and, bit_or, bit_xor}
use foundation_lib.Prelude.{
  ℕ, zero, suc, ◌+◌, ◌-◌, ◌*◌, ◌/◌, ◌%◌, ◌^◌, ◌≤◌, ◌<◌, min, max, ◌≡◌, refl, sym, ap, ap₂, ◌∙◌, ◌≢◌,
  ◌↔◌, ◌⊎◌, inl, inr, Bool, true, false, not, ◌&&◌, ◌||◌, Option, none, some, List, [], ◌∷◌, ◌++◌,
  map, append_assoc, append-nil, arith, dec_lt, ℕ_discrete, ltb, leb, ◌==◌, if◌then◌else◌, ltb→lt,
  lt→ltb, leb→le, ==_iff, tests, Bool-cases, Option-cases, length, get_elem?, length-append,
  length-set, get_elem?-set_self, get_elem?-set_ne, get_or, take, drop, replicate, take-append-drop,
  length-take, length-drop, length-replicate, length-map, slice, overwrite, length-overwrite,
  take-append_le, take-append_ge, drop-append_le, drop-append_ge, take_all, drop_all, drop-nil,
  take-nil, drop-drop, take-take, drop-take, take-add, take-overwrite, drop-overwrite_end,
  drop-overwrite_ge, drop-overwrite_le, slice-overwrite, take-eq_nil, take-overwrite-max,
  overwrite-nil, drop-overwrite_self, get_or-set_self, get_or-set_ne, get_or-replicate,
  take-set_end, add64, sub64, add32, sub32,
}
use foundation_lib.Md5.Steps.{Mix, f1, f2, f3, f4, Step, steps}

-- `md5_t::state`.
pub record State : Type 0 where
  pub a : ℕ
  pub b : ℕ
  pub c : ℕ
  pub d : ℕ

-- `md5_t`; `count0` and `count1` are `count[0]` and `count[1]`.
pub record Md5 : Type 0 where
  pub init : Bool
  pub state : State
  pub count0 : ℕ
  pub count1 : ℕ
  pub buffer : List ℕ
  pub digest : List ℕ

-- `~` of a `uint32_t`.
abbrev pub complement : ℕ → ℕ
complement z = bit_xor z 0xFFFFFFFF

-- `MD5_F1` to `MD5_F4`.
pub mixed : Mix → (x y z : ℕ) → ℕ
mixed f1 x y z = bit_xor z (bit_and x (bit_xor y z))
mixed f2 x y z = bit_xor y (bit_and z (bit_xor x y))
mixed f3 x y z = bit_xor (bit_xor x y) z
mixed f4 x y z = bit_xor y (bit_or x (complement z))

-- `(a << s) | (a >> (32 - s))`.
abbrev pub rotated : ℕ → ℕ → ℕ
rotated w s = bit_or (w * 2 ^ s % 2 ^ 32) (w / 2 ^ (32 - s))

-- `MD5_STEP`, after which the words change places for the next step.
pub step : List ℕ → Step → State → State
unfolding mixed
step x s q =
    let sum = add32 q.a (add32 (mixed s.mix q.b q.c q.d) (add32 (get_or x s.index 0) s.constant)) in
    record { a = q.d; b = add32 (rotated sum s.shift) q.b; c = q.b; d = q.c }

pub run_steps : List ℕ → List Step → State → State
unfolding step
run_steps x [] q = q
run_steps x (s ∷ ss) q = run_steps x ss (step x s q)

-- `md5_encode`.
pub encode : List ℕ → List ℕ
encode [] = []
encode (w ∷ ws) = w % 256 ∷ w / 2 ^ 8 % 256 ∷ w / 2 ^ 16 % 256 ∷ w / 2 ^ 24 % 256 ∷ encode ws

-- `md5_decode`.
pub decode : List ℕ → List ℕ
decode (p ∷ q ∷ r ∷ s ∷ bytes) =
    bit_or (bit_or (bit_or p (q * 2 ^ 8)) (r * 2 ^ 16)) (s * 2 ^ 24) ∷ decode bytes
decode bytes = []

-- `md5_transform`.
pub transform : State → List ℕ → State
unfolding decode run_steps
transform q buffer =
    let q' = run_steps (decode buffer) steps q in
    record { a = add32 q.a q'.a; b = add32 q.b q'.b; c = add32 q.c q'.c; d = add32 q.d q'.d }

abbrev pub initial : State
initial = record { a = 0x67452301; b = 0xefcdab89; c = 0x98badcfe; d = 0x10325476 }

-- `md5_initialize`.
pub initialize : Md5 → Md5
initialize m = record m {
  init = false;
  state = initial;
  count0 = 0;
  count1 = 0;
  buffer = replicate 64 0;
}

-- The loop over `index_in` in `md5_digest`, of `n` turns.
pub blocks : ℕ → State → List ℕ → State
blocks zero q bytes = q
blocks (suc n) q bytes = blocks n (transform q (take 64 bytes)) (drop 64 bytes)

-- The counts of bits, with the carry.
abbrev pub count_bits : ℕ → Md5 → Md5
count_bits size m =
    let count0 = add32 m.count0 (size * 8 % 2 ^ 32) in
    let count1 = add32 m.count1 (size / 2 ^ 29 % 2 ^ 32) in
    record m { count0 = count0; count1 = if ltb count0 m.count0 then add32 count1 1 else count1 }

-- `md5_digest` of an initialized digest.
pub absorb : Md5 → List ℕ → Md5
unfolding blocks
absorb m bytes =
    let size = length bytes in
    let index_buf = m.count0 / 2 ^ 3 % 64 in
    let m' = count_bits size m in
    let space_buf = 64 - index_buf in
    if leb space_buf size
    then (let full = overwrite m'.buffer index_buf (take space_buf bytes) in
        let rest = drop space_buf bytes in
        let n = (size - space_buf) / 64 in
        record m' {
          state = blocks n (transform m'.state full) rest;
          buffer = overwrite full 0 (drop (n * 64) rest);
        })
    else record m' { buffer = overwrite m'.buffer index_buf bytes }

-- `md5_digest`.
pub digest : Md5 → List ℕ → Md5
unfolding absorb initialize
digest m bytes = absorb (if m.init then initialize m else m) bytes

-- The static array of `md5_digest_finalize`.
abbrev pub padding : List ℕ
padding = 0x80 ∷ replicate 63 0

-- `md5_digest_finalize`.
pub digest_finalize : Md5 → Md5
unfolding digest encode
digest_finalize m =
    let bits = encode (m.count0 ∷ m.count1 ∷ []) in
    let idx = m.count0 / 2 ^ 3 % 64 in
    let size_pad = if ltb idx 56 then 56 - idx else 120 - idx in
    let m' = digest (digest m (take size_pad padding)) bits in
    record m' {
      digest = encode (m'.state.a ∷ m'.state.b ∷ m'.state.c ∷ m'.state.d ∷ []);
      buffer = replicate 64 0;
      init = true;
    }
