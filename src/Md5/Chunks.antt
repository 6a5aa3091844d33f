-- ===== src/Md5/Chunks.antt =====
-- A digest that took in a message in chunks.
use mathlib.Core.Path.{subst}
use foundation_lib.Prelude.{
  if_true, if_false, ℕ, suc, ◌+◌, ◌-◌, ◌*◌, ◌/◌, ◌%◌, ◌^◌, ◌≤◌, ◌<◌, ◌≡◌, refl, sym, ap, ap₂, ◌∙◌,
  true, false, List, [], ◌++◌, arith, dec_lt, ltb, leb, length, length-append, take, drop,
  length-take, length-drop, overwrite, length-overwrite, take-append_ge, drop-append_le,
  drop-append_ge, take_all, drop-drop, take-overwrite, add32,
}
use foundation_lib.Md5.{Md5, initial, initialize, transform, blocks, absorb, digest, count_bits}
use foundation_lib.Md5.Blocks.{blocks-append, blocks-parts}

-- The digest has taken in `bytes`: the whole blocks are in its state, the rest is in its buffer, and
-- the bits are counted to 64 bits.
pub record Holds (m : Md5) (bytes : List ℕ) : Type 0 where
  pub ready : m.init ≡ false
  pub absorbed : m.state ≡ blocks (length bytes / 64) initial bytes
  pub size : length m.buffer ≡ 64
  pub pending : take (length bytes % 64) m.buffer ≡ drop (length bytes / 64 * 64) bytes
  pub low : m.count0 < 2 ^ 32
  pub high : m.count1 < 2 ^ 32
  pub counted : m.count0 + 2 ^ 32 * m.count1 ≡ 8 * length bytes % 2 ^ 64

pub initialize-Holds : (m : Md5) → Holds (initialize m) []
unfolding initialize blocks
initialize-Holds m = record {
  ready = refl;
  absorbed = refl;
  size = refl;
  pending = refl;
  low = omega arith;
  high = omega arith;
  counted = omega arith;
}

carried :
    (c d l u len size : ℕ)
    → c + 2 ^ 32 * d ≡ 8 * len % 2 ^ 64
    → size * 8 ≡ l + 2 ^ 32 * u
    → add32 c l + 2 ^ 32 ≡ c + l
    → c < 2 ^ 32
    → d < 2 ^ 32
    → add32 c l + 2 ^ 32 * add32 (add32 d (u % 2 ^ 32)) 1 ≡ 8 * (len + size) % 2 ^ 64
carried c d l u len size e parts carry low high = omega arith

plain :
    (c d l u len size : ℕ)
    → c + 2 ^ 32 * d ≡ 8 * len % 2 ^ 64
    → size * 8 ≡ l + 2 ^ 32 * u
    → add32 c l ≡ c + l
    → c < 2 ^ 32
    → d < 2 ^ 32
    → add32 c l + 2 ^ 32 * add32 d (u % 2 ^ 32) ≡ 8 * (len + size) % 2 ^ 64
plain c d l u len size e parts carry low high = omega arith

-- The counts after `size` more bytes.
counts :
    (m : Md5) (len size : ℕ)
    → m.count0 < 2 ^ 32
    → m.count1 < 2 ^ 32
    → m.count0 + 2 ^ 32 * m.count1 ≡ 8 * len % 2 ^ 64
    → let m' = count_bits size m in
      (m'.count0 < 2 ^ 32)
      × (m'.count1 < 2 ^ 32)
      × (m'.count0 + 2 ^ 32 * m'.count1 ≡ 8 * (len + size) % 2 ^ 64)
counts m len size low high e =
    let l = size * 8 % 2 ^ 32 in
    let u = size / 2 ^ 29 in
    let parts : size * 8 ≡ l + 2 ^ 32 * u = omega arith in
    elim (dec_lt (add32 m.count0 l) m.count0) [
      | yes p ↦
          let t : ltb (add32 m.count0 l) m.count0 ≡ true = ground arith in
          rw t (
            omega arith,
            omega arith,
            carried m.count0 m.count1 l u len size e parts (omega arith) low high,
          )
      | no np ↦
          let t : ltb (add32 m.count0 l) m.count0 ≡ false = ground arith in
          rw t (
            omega arith,
            omega arith,
            plain m.count0 m.count1 l u len size e parts (omega arith) low high,
          )
    ]

-- Where the buffer goes on.
index : {m : Md5} {bytes : List ℕ} → Holds m bytes → m.count0 / 2 ^ 3 % 64 ≡ length bytes % 64
index {m} {bytes} h = let c = h.counted in let l = h.low in let k = h.high in omega arith

-- The buffer has room for the bytes.
within :
    {m : Md5} {bytes : List ℕ} (more : List ℕ)
    → Holds m bytes
    → length bytes % 64 + length more < 64
    → absorb m more
      ≡ record (count_bits (length more) m) { buffer = overwrite m.buffer (length bytes % 64) more }
unfolding absorb
within {m} {bytes} more h room =
    let i = index h in
    let t : leb (64 - length bytes % 64) (length more) ≡ false = ground arith in rw (i, t) refl

-- It has not.
beyond :
    {m : Md5} {bytes : List ℕ} (more : List ℕ)
    → Holds m bytes
    → 64 ≤ length bytes % 64 + length more
    → let space = 64 - length bytes % 64 in
      let full = overwrite m.buffer (length bytes % 64) (take space more) in
      let n = (length more - space) / 64 in
      absorb m more ≡ record (count_bits (length more) m) {
        state = blocks n (transform m.state full) (drop space more);
        buffer = overwrite full 0 (drop (n * 64) (drop space more));
      }
unfolding absorb
beyond {m} {bytes} more h room =
    let i = index h in
    let t : leb (64 - length bytes % 64) (length more) ≡ true = ground arith in rw (i, t) refl

within-Holds :
    {m : Md5} {bytes : List ℕ} (more : List ℕ)
    → Holds m bytes
    → length bytes % 64 + length more < 64
    → Holds (absorb m more) (bytes ++ more)
within-Holds {m} {bytes} more h room =
    let len = length bytes in
    let r = len % 64 in
    let sum = length-append bytes more in
    let same : length (bytes ++ more) / 64 ≡ len / 64 = omega arith in
    let left : length (bytes ++ more) % 64 ≡ r + length more = omega arith in
    let size = h.size in
    let (low, high, counted) = counts m len (length more) h.low h.high h.counted in
    rw (within more h room) (record {
      ready = h.ready;
      absorbed =
          h.absorbed
          ∙ sym (blocks-append (len / 64) initial bytes more (omega arith))
          ∙ ap (λ n. blocks n initial (bytes ++ more)) (sym same);
      size = length-overwrite m.buffer r more (omega arith) ∙ size;
      pending =
          ap (λ n. take n (overwrite m.buffer r more)) left
          ∙ take-overwrite m.buffer r more (omega arith)
          ∙ ap (λ l. l ++ more) h.pending
          ∙ sym (drop-append_le (len / 64 * 64) bytes more (omega arith))
          ∙ ap (λ n. drop (n * 64) (bytes ++ more)) (sym same);
      low = low;
      high = high;
      counted = counted ∙ ap (λ n. 8 * n % 2 ^ 64) (sym sum);
    })

-- The buffer is filled up: it holds the rest of the message and the first bytes of the chunk.
full_buffer :
    {m : Md5} {bytes : List ℕ} (more : List ℕ)
    → Holds m bytes
    → 64 ≤ length bytes % 64 + length more
    → let space = 64 - length bytes % 64 in
      overwrite m.buffer (length bytes % 64) (take space more)
      ≡ take 64 (drop (length bytes / 64 * 64) bytes ++ more)
full_buffer {m} {bytes} more h room =
    let len = length bytes in
    let r = len % 64 in
    let space = 64 - r in
    let rest = drop (len / 64 * 64) bytes in
    let first = take space more in
    let size = h.size in
    let n : length first ≡ space = omega (arith, length-take space more) in
    let k : length rest ≡ r = omega (arith, length-drop (len / 64 * 64) bytes) in
    let full = overwrite m.buffer r first in
    let long : length full ≡ 64 = length-overwrite m.buffer r first (omega arith) ∙ size in
    let all : 64 ≡ r + length first = omega arith in
    let room' : 64 - length rest ≡ space = omega arith in
    sym (take_all 64 full (omega arith))
    ∙ ap (λ n. take n full) all
    ∙ take-overwrite m.buffer r first (omega arith)
    ∙ ap (λ l. l ++ first) h.pending
    ∙ sym (take-append_ge 64 rest more (omega arith) ∙ ap (λ n. rest ++ take n more) room')

beyond-Holds :
    {m : Md5} {bytes : List ℕ} (more : List ℕ)
    → Holds m bytes
    → 64 ≤ length bytes % 64 + length more
    → Holds (absorb m more) (bytes ++ more)
unfolding blocks
beyond-Holds {m} {bytes} more h room =
    let len = length bytes in
    let q = len / 64 in
    let r = len % 64 in
    let space = 64 - r in
    let n = (length more - space) / 64 in
    let rest = drop (q * 64) bytes in
    let tail = drop (n * 64) (drop space more) in
    let sum = length-append bytes more in
    let turns : length (bytes ++ more) / 64 ≡ q + suc n = omega arith in
    let full = overwrite m.buffer r (take space more) in
    let e = full_buffer more h room in
    let long : length full ≡ 64 =
      length-overwrite m.buffer r (take space more) (omega (arith, h.size, length-take space more))
      ∙ h.size in
    let behind : drop 64 (rest ++ more) ≡ drop space more =
      drop-append_ge 64 rest more (omega (arith, length-drop (q * 64) bytes))
      ∙ ap (λ k. drop k more) (omega (arith, length-drop (q * 64) bytes)) in
    let left : length (bytes ++ more) % 64 ≡ 0 + length tail =
      omega (arith, length-drop (n * 64) (drop space more), length-drop space more) in
    let (low, high, counted) = counts m len (length more) h.low h.high h.counted in
    rw (beyond more h room) (record {
      ready = h.ready;
      absorbed =
          ap₂ (λ a b. blocks n (transform a b) (drop space more)) h.absorbed e
          ∙ ap (blocks n (transform (blocks q initial bytes) (take 64 (rest ++ more)))) (sym behind)
          ∙ sym (blocks-parts q (suc n) initial bytes more (omega arith))
          ∙ ap (λ n. blocks n initial (bytes ++ more)) (sym turns);
      size = length-overwrite full 0 tail (omega arith) ∙ long;
      pending =
          ap (λ k. take k (overwrite full 0 tail)) left
          ∙ take-overwrite full 0 tail (omega arith)
          ∙ drop-drop (n * 64) space more
          ∙ ap (λ k. drop k more) (omega arith)
          ∙ sym (drop-append_ge (length (bytes ++ more) / 64 * 64) bytes more (omega arith));
      low = low;
      high = high;
      counted = counted ∙ ap (λ n. 8 * n % 2 ^ 64) (sym sum);
    })

-- `md5_digest` adds the chunk to the message that the digest has taken in, whatever the chunk's length.
pub absorb-Holds :
    {m : Md5} {bytes : List ℕ} (more : List ℕ)
    → Holds m bytes
    → Holds (absorb m more) (bytes ++ more)
absorb-Holds {m} {bytes} more h = elim (dec_lt (length bytes % 64 + length more) 64) [
  | yes p ↦ within-Holds more h p
  | no np ↦ beyond-Holds more h (omega arith)
]

pub digest-Holds :
    {m : Md5} {bytes : List ℕ} (more : List ℕ)
    → Holds m bytes
    → Holds (digest m more) (bytes ++ more)
unfolding digest
digest-Holds {m} {bytes} more h =
    subst (λ d. Holds (absorb d more) (bytes ++ more)) (sym (if_false (initialize m) h.ready))
      (absorb-Holds more h)

-- A digest that is fresh, or finished.
pub digest-restart : (m : Md5) (more : List ℕ) → m.init ≡ true → Holds (digest m more) more
unfolding digest
digest-restart m more t =
    subst (λ d. Holds (absorb d more) more) (sym (if_true m t))
      (absorb-Holds more (initialize-Holds m))
