-- ===== src/BitBuffer.antt =====
-- foundation/bitbuffer.c: bits packed into 32 bit words, lowest first, in a block of memory or in a
-- stream. The block is the list of its words, and `position` says how far `buffer` has moved.
pub mod Bits
pub mod Words
pub mod Writer
pub mod Fields
pub mod Reader
pub mod Reads
pub mod RoundTrip
mod Tests
use Prim.Native.Nat.{bit_or}
use foundation_lib.Prelude.{
  ℕ, suc, ◌+◌, ◌-◌, ◌*◌, ◌/◌, ◌%◌, ◌^◌, ◌<◌, ◌≡◌, Bool, true, false, not, ◌&&◌, Option, none, some,
  List, [], ltb, leb, ◌==◌, if◌then◌else◌, length, get_or, set, add64, sub32, add32,
}

-- `stream_read_uint32` and `stream_write_uint32` of foundation/stream.c on a stream of any kind; they
-- swap the bytes by the stream's own byte order.
pub record WordStream : Type 1 where
  pub State : Type 0
  pub read_uint32 : State → ℕ × State
  pub write_uint32 : State → ℕ → State

-- `byteorder_swap32`.
pub swap32 : ℕ → ℕ
swap32 w =
    w % 2 ^ 8 * 2 ^ 24
    + w / 2 ^ 8 % 2 ^ 8 * 2 ^ 16
    + w / 2 ^ 16 % 2 ^ 8 * 2 ^ 8
    + w / 2 ^ 24 % 2 ^ 8

-- `bitbuffer_t`, over the states of a stream.
pub record BitBuffer (S : Type 0) : Type 0 where
  pub words : List ℕ
  pub position : ℕ
  pub stream : Option S
  pub swap : Bool
  pub pending_read : ℕ
  pub pending_write : ℕ
  pub offset_read : ℕ
  pub offset_write : ℕ
  pub count_read : ℕ
  pub count_write : ℕ

-- `bitbuffer_initialize_buffer`: all fields 0 but those given.
pub initialize_buffer : {S : Type 0} → List ℕ → Bool → BitBuffer S
initialize_buffer words swap = record {
  words = words;
  position = 0;
  stream = none;
  swap = swap;
  pending_read = 0;
  pending_write = 0;
  offset_read = 32;
  offset_write = 0;
  count_read = 0;
  count_write = 0;
}

-- `bitbuffer_initialize_stream`.
pub initialize_stream : {S : Type 0} → S → BitBuffer S
initialize_stream stream = record {
  words = [];
  position = 0;
  stream = some stream;
  swap = false;
  pending_read = 0;
  pending_write = 0;
  offset_read = 32;
  offset_write = 0;
  count_read = 0;
  count_write = 0;
}

abbrev pub swapped : Bool → ℕ → ℕ
swapped swap w = if swap then swap32 w else w

-- The bits of `v` below the first `n`.
abbrev pub mask : ℕ → ℕ → ℕ
mask n v = v % 2 ^ n

module _ (s : WordStream) where
  open s use {State, read_uint32, write_uint32}

  -- The stream's part of `_bitbuffer_get`.
  abbrev pub get_stream : BitBuffer State → Option State → BitBuffer State
  get_stream b none = record b { pending_read = 0; offset_read = 0 }
  get_stream b (some stream) =
      let (w, stream') = read_uint32 stream in
      record b { pending_read = w; stream = some stream'; offset_read = 0 }

  -- `_bitbuffer_get`.
  pub get : BitBuffer State → BitBuffer State
  get b =
      if ltb b.position (length b.words)
      then record b {
        pending_read = swapped b.swap (get_or b.words b.position 0);
        position = b.position + 1;
        offset_read = 0;
      }
      else get_stream b b.stream

  abbrev pub put_stream : BitBuffer State → Option State → BitBuffer State
  put_stream b none = record b { offset_write = 0; pending_write = 0 }
  put_stream b (some stream) = record b {
    stream = some (write_uint32 stream b.pending_write);
    offset_write = 0;
    pending_write = 0;
  }

  -- `_bitbuffer_put`.
  pub put : BitBuffer State → BitBuffer State
  put b =
      if ltb b.position (length b.words)
      then record b {
        words = set b.words b.position (swapped b.swap b.pending_write);
        position = b.position + 1;
        offset_write = 0;
        pending_write = 0;
      }
      else put_stream b b.stream

  -- The second part of `bitbuffer_read32`, where `bits` go beyond the pending word.
  pub read_more : (bits curbits ret : ℕ) → BitBuffer State → ℕ × BitBuffer State
  read_more bits curbits ret b =
      let b' = get b in
      (
        bit_or (mask (bits - curbits) b'.pending_read * 2 ^ curbits) ret,
        record b' {
          offset_read = bits - curbits;
          count_read = add64 b'.count_read (bits - curbits);
        },
      )

  -- `bitbuffer_read32` of 1 to 32 bits from a pending word that is not used up.
  pub read_pending : ℕ → BitBuffer State → ℕ × BitBuffer State
  unfolding read_more
  read_pending bits b =
      let left = 32 - b.offset_read in
      let curbits = if ltb bits left then bits else left in
      let ret =
        if curbits == 32
        then b.pending_read
        else mask curbits (b.pending_read / 2 ^ b.offset_read) in
      let b' = record b {
        offset_read = b.offset_read + curbits;
        count_read = add64 b.count_read curbits;
      } in
      if curbits == bits then (ret, b') else read_more bits curbits ret b'

  -- `bitbuffer_read32`.
  pub read32 : BitBuffer State → ℕ → ℕ × BitBuffer State
  unfolding read_pending
  read32 b bits =
      if bits == 0
      then (0, b)
      else read_pending (if ltb 32 bits then 32 else bits)
          (if leb 32 b.offset_read then get b else b)

  -- `bitbuffer_read64`.
  pub read64 : BitBuffer State → ℕ → ℕ × BitBuffer State
  read64 b bits =
      if leb bits 32
      then read32 b bits
      else let bits' = if ltb 64 bits then 64 else bits in
        let (val0, b') = read32 b 32 in
        let (val1, b'') = read32 b' (bits' - 32) in (bit_or (val1 * 2 ^ 32) val0, b'')

  -- `bitbuffer_write32` of 1 to 32 bits.
  pub write_pending : ℕ → ℕ → BitBuffer State → BitBuffer State
  write_pending value bits b =
      let left = 32 - b.offset_write in
      let curbits = if ltb bits left then bits else left in
      let low = if curbits == 32 then value else mask curbits value in
      let b' = record b {
        pending_write = bit_or (low * 2 ^ b.offset_write % 2 ^ 32) b.pending_write;
        offset_write = b.offset_write + curbits;
        count_write = add64 b.count_write bits;
      } in
      let b'' = if b'.offset_write == 32 then put b' else b' in
      if curbits == bits then b'' else record b'' {
        pending_write = mask (bits - curbits) (value / 2 ^ curbits);
        offset_write = bits - curbits;
      }

  -- `bitbuffer_write32`.
  pub write32 : BitBuffer State → (value bits : ℕ) → BitBuffer State
  unfolding write_pending
  write32 b value bits =
      if bits == 0 then b else write_pending value (if ltb 32 bits then 32 else bits) b

  -- `bitbuffer_write64`.
  pub write64 : BitBuffer State → (value bits : ℕ) → BitBuffer State
  write64 b value bits =
      if leb bits 32
      then write32 b (value % 2 ^ 32) bits
      else let bits' = if ltb 64 bits then 64 else bits in
        write32 (write32 b (value % 2 ^ 32) 32) (value / 2 ^ 32 % 2 ^ 32) (bits' - 32)

  abbrev pub skip_read : BitBuffer State → BitBuffer State
  skip_read b = record b {
    count_read = (b.count_read + 32 - b.offset_read) % 2 ^ 64;
    offset_read = 32;
  }

  -- `bitbuffer_align_read`.
  pub align_read : BitBuffer State → Bool → BitBuffer State
  align_read b force =
      if b.offset_read % 32 == 0
      then if not force then b else skip_read (if b.offset_read == 0 then b else get b)
      else skip_read b

  -- `bitbuffer_align_write`.
  pub align_write : BitBuffer State → Bool → BitBuffer State
  align_write b force =
      if b.offset_write == 0 && not force
      then b
      else put (record b { count_write = (b.count_write + 32 - b.offset_write) % 2 ^ 64 })

-- `bitbuffer_discard_read`.
pub discard_read : {S : Type 0} → BitBuffer S → BitBuffer S
discard_read b = if b.offset_read == 32 then b else record b { offset_read = 0 }

-- `bitbuffer_discard_write`.
pub discard_write : {S : Type 0} → BitBuffer S → BitBuffer S
discard_write b = record b { offset_write = 0; pending_write = 0 }
