-- ===== src/RingBuffer.antt =====
-- foundation/ringbuffer.c: the ring buffer's state and its operations. The bytes that `memcpy` moves
-- are numbers, and the list that a read returns is what it leaves in `dest`.
pub mod Contents
pub mod Read
pub mod Write
pub mod Queue
mod Tests
use foundation_lib.Prelude.{
  ℕ, zero, suc, ◌+◌, ◌<◌, ◌≡◌, Bool, ◌&&◌, Option, none, some, List, [], ◌++◌, ltb, ◌==◌,
  if◌then◌else◌, length, slice, take, drop, overwrite, replicate, add64, sub64,
}

-- `ringbuffer_t`: the buffer behind the header is a list of `buffer_size` bytes.
pub record RingBuffer : Type 0 where
  pub total_read : ℕ
  pub total_write : ℕ
  pub offset_read : ℕ
  pub offset_write : ℕ
  pub buffer_size : ℕ
  pub buffer : List ℕ

-- `ringbuffer_initialize`; the memory's bytes are what they were.
pub initialize : List ℕ → ℕ → RingBuffer
initialize memory size = record {
  total_read = 0;
  total_write = 0;
  offset_read = 0;
  offset_write = 0;
  buffer_size = size;
  buffer = memory;
}

-- `ringbuffer_allocate`: the new block's bytes are given.
pub allocate : (memory : List ℕ) → RingBuffer
unfolding initialize
allocate memory = initialize memory (length memory)

-- `ringbuffer_reset`.
pub reset : RingBuffer → RingBuffer
reset b = record b { total_read = 0; total_write = 0; offset_read = 0; offset_write = 0 }

-- `max_read` in `ringbuffer_read`.
abbrev pub max_read : RingBuffer → ℕ
max_read b =
    if ltb b.offset_write b.offset_read
    then sub64 b.buffer_size b.offset_read
    else sub64 b.offset_write b.offset_read

-- An offset that reaches the end of the buffer starts again.
abbrev pub wrap : ℕ → ℕ → ℕ
wrap size offset = if offset == size then 0 else offset

-- The bookkeeping of `ringbuffer_read` after it has copied `n` bytes.
abbrev pub skip : ℕ → RingBuffer → RingBuffer
skip n b = record b {
  offset_read = wrap b.buffer_size (add64 b.offset_read n);
  total_read = add64 b.total_read n;
}

-- What a call returns: the count, the bytes in `dest`, and the buffer.
abbrev pub Out : Type 0
Out = ℕ × List ℕ × RingBuffer

-- The recursive call's count and bytes come behind those of the call that made it.
abbrev pub join : ℕ → List ℕ → Option Out → Option Out
join n bytes none = none
join n bytes (some (m, more, b)) = some (add64 n m, bytes ++ more, b)

-- `ringbuffer_read`; `none` says that the fuel, which bounds the depth of the recursion, ran out.
pub read : ℕ → RingBuffer → ℕ → Option Out
read zero b num = none
read (suc fuel) b num =
    let most = max_read b in
    let n = if ltb most num then most else num in
    let bytes = slice b.offset_read n b.buffer in
    let b' = skip n b in
    let rest = read fuel b' (sub64 num n) in
    if n == 0
    then some (0, [], b)
    else if ltb n num && (b'.offset_read == 0 && ltb 0 b.offset_write)
    then join n bytes rest
    else some (n, bytes, b')

-- `max_write` in `ringbuffer_write`: one byte stays free, so that a full buffer is no empty one.
abbrev pub max_write : RingBuffer → ℕ
max_write b =
    if ltb b.offset_write b.offset_read
    then sub64 b.offset_read (add64 b.offset_write 1)
    else let room = sub64 b.buffer_size b.offset_write in
      if ltb 0 room && b.offset_read == 0 then sub64 room 1 else room

-- The copy and the bookkeeping of `ringbuffer_write` for the bytes of one call.
abbrev pub put : List ℕ → RingBuffer → RingBuffer
put bytes b = record b {
  offset_write = wrap b.buffer_size (add64 b.offset_write (length bytes));
  total_write = add64 b.total_write (length bytes);
  buffer = overwrite b.buffer b.offset_write bytes;
}

abbrev pub add_count : ℕ → Option (ℕ × RingBuffer) → Option (ℕ × RingBuffer)
add_count n none = none
add_count n (some (m, b)) = some (add64 n m, b)

-- `ringbuffer_write` of all the bytes of `source`.
pub write : ℕ → RingBuffer → List ℕ → Option (ℕ × RingBuffer)
write zero b source = none
write (suc fuel) b source =
    let num = length source in
    let most = max_write b in
    let n = if ltb most num then most else num in
    let b' = put (take n source) b in
    let rest = write fuel b' (drop n source) in
    if n == 0
    then some (0, b)
    else if ltb n num && (b'.offset_write == 0 && ltb 0 b.offset_read)
    then add_count n rest
    else some (n, b')
