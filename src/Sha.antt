-- ===== src/Sha.antt =====
-- foundation/sha.c: the two digests in chunks. `sha256_t` and `sha512_t` differ in the length of a
-- block, in the places of the padding and in their compression; what they share is written once.
pub mod Constants
pub mod Compress
pub mod Variants
pub mod Chunks
pub mod Filling
pub mod Fips
pub mod FipsWords
pub mod FipsBlocks
pub mod FipsMessage
pub mod FipsVariants
pub mod FipsHash
pub mod Finalize
mod Tests
use foundation_lib.Prelude.{
  ℕ, false, zero, suc, ◌+◌, ◌-◌, ◌*◌, ◌/◌, ◌%◌, ◌^◌, ◌≤◌, ◌<◌, min, ◌≡◌, Bool, true, not, some,
  List, [], ◌∷◌, ltb, leb, ◌==◌, if◌then◌else◌, length, take, drop, replicate, overwrite, add64,
}

-- What a digest is made of, and what its numbers have to fulfil. The padding goes into the last block if the message and one byte end at
-- `limit` at most, and the length of the message stands from `place` on.
pub record Hash : Type 0 where
  pub block_size : ℕ
  pub limit : ℕ
  pub place : ℕ
  pub initial : List ℕ
  pub compress : List ℕ → List ℕ → List ℕ
  pub place_end : place + 8 ≡ block_size
  pub limit-le : limit ≤ place
  pub limit-pos : 0 < limit

-- `sha256_t` and `sha512_t`; `bits` is `length`.
pub record Sha : Type 0 where
  pub init : Bool
  pub current : ℕ
  pub bits : ℕ
  pub state : List ℕ
  pub buffer : List ℕ

-- `sha_store64`: the bytes of a word, the highest first.
unfoldable pub store64 : ℕ → List ℕ
store64 val =
    val / 2 ^ 56 % 256
    ∷ val / 2 ^ 48 % 256
    ∷ val / 2 ^ 40 % 256
    ∷ val / 2 ^ 32 % 256
    ∷ val / 2 ^ 24 % 256
    ∷ val / 2 ^ 16 % 256
    ∷ val / 2 ^ 8 % 256
    ∷ val % 256
    ∷ []

module _ (h : Hash) where
  open h use {block_size, limit, place, initial, compress}

  -- `sha256_initialize`.
  pub initialize : Sha → Sha
  initialize m = record m { init = false; current = 0; bits = 0; state = initial }

  -- A block is compressed, and its bits are counted.
  abbrev pub compressed : List ℕ → Sha → Sha
  compressed block m = record m {
    state = compress m.state block;
    bits = add64 m.bits (block_size * 8);
  }

  -- The bytes that complete a block in the buffer.
  pub complete : Sha → List ℕ → Sha × List ℕ
  complete m bytes =
      let remain = block_size - m.current in
      let this_block = min (length bytes) remain in
      let m' = record m {
        buffer = overwrite m.buffer m.current (take this_block bytes);
        current = m.current + this_block;
      } in
      (
        if m'.current == block_size then record (compressed m'.buffer m') { current = 0 } else m',
        drop this_block bytes,
      )

  -- The loop over whole blocks. The fuel is the number of bytes, and a turn takes some.
  pub whole_blocks : ℕ → Sha → List ℕ → Sha × List ℕ
  whole_blocks zero m bytes = (m, bytes)
  whole_blocks (suc fuel) m bytes =
      let rest = whole_blocks fuel (compressed (take block_size bytes) m) (drop block_size bytes) in
      if leb block_size (length bytes) then rest else (m, bytes)

  -- The rest goes into the buffer.
  pub keep : Sha → List ℕ → Sha
  keep m bytes =
      if length bytes == 0
      then m
      else record m { buffer = overwrite m.buffer 0 bytes; current = m.current + length bytes }

  -- `sha256_digest` of an initialized digest.
  pub absorb : Sha → List ℕ → Sha
  unfolding complete whole_blocks keep
  absorb m bytes =
      let (m', bytes') = if m.current == 0 then (m, bytes) else complete m bytes in
      let (m'', rest) = whole_blocks (length bytes') m' bytes' in keep m'' rest

  -- `sha256_digest`.
  pub digest : Sha → List ℕ → Sha
  unfolding absorb initialize
  digest m bytes = absorb (if m.init then initialize m else m) bytes

  -- The block that the padding does not fit in is filled up with zeros.
  pub spill : Sha → Sha
  spill m =
      if ltb limit m.current
      then record m {
        state =
            compress m.state (overwrite m.buffer m.current (replicate (block_size - m.current) 0));
        buffer = overwrite m.buffer m.current (replicate (block_size - m.current) 0);
        current = 0;
      }
      else m

  -- `sha256_digest_finalize`.
  pub digest_finalize : Sha → Sha
  unfolding spill store64
  digest_finalize m =
      let m' = spill (record m {
        bits = add64 m.bits (m.current * 8);
        buffer = overwrite m.buffer m.current (0x80 ∷ []);
        current = m.current + 1;
      }) in
      let zeroed =
        if ltb m'.current place
        then overwrite m'.buffer m'.current (replicate (place - m'.current) 0)
        else m'.buffer in
      let block = overwrite zeroed place (store64 m'.bits) in
      record m' { state = compress m'.state block; buffer = block; init = true }
