-- ===== src/RingBuffer/Contents.antt =====
-- The queue of bytes that a ring buffer holds, and when its fields make sense together.
use foundation_lib.Prelude.{
  ℕ, ◌+◌, ◌-◌, ◌^◌, ◌<◌, ◌≡◌, List, ◌++◌, ltb, if◌then◌else◌, length, slice, take, drop,
  length-append, length-take, length-drop, arith,
}
use foundation_lib.RingBuffer.{RingBuffer}

pub record IsValid (b : RingBuffer) : Type 0 where
  pub storage : length b.buffer ≡ b.buffer_size
  pub word : b.buffer_size < 2 ^ 64
  pub read_in : b.offset_read < b.buffer_size
  pub write_in : b.offset_write < b.buffer_size
  pub total_read : b.total_read < 2 ^ 64
  pub total_write : b.total_write < 2 ^ 64

-- Oldest first.
abbrev pub contents : RingBuffer → List ℕ
contents b =
    if ltb b.offset_write b.offset_read
    then drop b.offset_read b.buffer ++ take b.offset_write b.buffer
    else slice b.offset_read (b.offset_write - b.offset_read) b.buffer

-- How many bytes it holds.
abbrev pub used : RingBuffer → ℕ
used b =
    if ltb b.offset_write b.offset_read
    then b.buffer_size - b.offset_read + b.offset_write
    else b.offset_write - b.offset_read

pub length-contents : {b : RingBuffer} → IsValid b → length (contents b) ≡ used b
length-contents {b} v = ground (
  arith,
  length-append (drop b.offset_read b.buffer) (take b.offset_write b.buffer),
  length-drop b.offset_read b.buffer,
  length-take b.offset_write b.buffer,
  length-take (b.offset_write - b.offset_read) (drop b.offset_read b.buffer),
)
