-- ===== src/BufferStream.antt =====
-- foundation/bufferstream.c: a stream over a block of memory. The stream's bytes are numbers, and
-- `time_current` is an argument of the calls that ask for the time.
pub mod View
pub mod Write
pub mod Truncate
pub mod Seek
mod Tests
use Prim.Native.Nat.{bit_and}
use foundation_lib.Prelude.{
  ℕ, suc, ◌+◌, ◌-◌, ◌/◌, ◌%◌, ◌^◌, ◌<◌, ◌≡◌, Bool, true, false, not, ◌&&◌, ◌||◌, Option, none, some,
  List, [], ◌++◌, ltb, leb, ◌==◌, if◌then◌else◌, length, slice, take, drop, overwrite, add64, sub64,
}
use foundation_lib.Prelude.Int.{ℤ, pos, negsuc, abs}
use foundation_lib.Memory.{Memory}

-- `stream_buffer_t`: the fields that this file reads and writes.
pub record BufferStream : Type 0 where
  pub mode : ℕ
  pub buffer : List ℕ
  pub size : ℕ
  pub capacity : ℕ
  pub current : ℕ
  pub own : Bool
  pub grow : Bool
  pub lastmod : ℕ

-- `STREAM_IN`, `STREAM_OUT`, `STREAM_TRUNCATE`, `STREAM_ATEND`, `STREAM_BINARY`.
abbrev pub stream_in : ℕ
stream_in = 0x1

abbrev pub stream_out : ℕ
stream_out = 0x2

abbrev pub stream_truncate : ℕ
stream_truncate = 0x4

abbrev pub stream_atend : ℕ
stream_atend = 0x10

abbrev pub stream_binary : ℕ
stream_binary = 0x20

-- `mode & flag`, for one flag.
abbrev pub has : ℕ → ℕ → Bool
has mode flag = (mode / flag) % 2 == 1

-- `stream_seek_mode_t`.
pub data SeekMode : Type 0 where
  seek_begin seek_current seek_end : SeekMode

-- `size` and `capacity` as `buffer_stream_initialize` first sets them right.
abbrev pub fit : Option (List ℕ) → ℕ → ℕ → ℕ × ℕ
fit none size capacity = (0, 0)
fit (some memory) size capacity = (if ltb capacity size then capacity else size, capacity)

abbrev pub block : Option (List ℕ) → List ℕ
block none = []
block (some memory) = memory

-- `buffer_stream_initialize`; `none` for the buffer is a null pointer.
pub initialize :
    (buffer : Option (List ℕ)) (mode size capacity : ℕ) (adopt grow : Bool) (now : ℕ) → BufferStream
initialize buffer mode size capacity adopt grow now =
    let (size', capacity') = fit buffer size capacity in
    let grow' = if not adopt && grow then false else grow in
    let size'' = if has mode stream_out && has mode stream_truncate then 0 else size' in
    record {
      mode = bit_and mode 0x23;
      buffer = block buffer;
      size = size'';
      capacity = capacity';
      current = if has mode stream_atend then size'' else 0;
      own = adopt;
      grow = adopt && grow';
      lastmod = now;
    }

-- `_buffer_stream_read`: the count, the bytes in `dest`, and the stream.
pub read : BufferStream → ℕ → ℕ × List ℕ × BufferStream
read b num =
    let available = sub64 b.size b.current in
    let n = if ltb num available then num else available in
    if ltb 0 n
    then (n, slice b.current n b.buffer, record b { current = add64 b.current n })
    else (0, [], b)

-- The end of `_buffer_stream_write`, with the space that the stream made.
pub store : ℕ → List ℕ → ℕ → BufferStream → ℕ × BufferStream
store now source available b =
    let n = if ltb (length source) available then length source else available in
    if ltb 0 n
    then (
      n,
      record b {
        current = add64 b.current n;
        buffer = overwrite b.buffer b.current (take n source);
        lastmod = now;
      },
    )
    else (0, record b { lastmod = now })

-- The capacity that a growing stream takes for `size` bytes.
abbrev pub grown : ℕ → ℕ
grown size = if ltb size 1024 then 1024 else add64 size 1024

module _ (m : Memory) where
  -- `_buffer_stream_write`.
  pub write : ℕ → BufferStream → List ℕ → ℕ × BufferStream
  write now b source =
      let available = sub64 b.size b.current in
      let want = length source in
      let end = add64 b.current want in
      if ltb available want
      then if leb end b.capacity
        then store now source want (record b { size = end })
        else if b.grow
        then store now source want (record b {
          size = end;
          capacity = grown end;
          buffer = m.reallocate b.buffer (grown end) b.capacity;
        })
        else store now source (sub64 b.capacity b.current) (record b { size = b.capacity })
      else store now source available b

  -- The size that `_buffer_stream_truncate` gives the stream.
  pub resize : BufferStream → ℕ → BufferStream
  resize b size =
      if leb size b.capacity
      then record b { size = size }
      else if b.grow
      then record b { capacity = size; buffer = m.reallocate b.buffer size b.current; size = size }
      else record b { size = b.capacity }

  -- `_buffer_stream_truncate`.
  pub truncate : ℕ → BufferStream → ℕ → BufferStream
  unfolding resize
  truncate now b size =
      let b' = resize b size in
      record b' { current = if ltb b'.size b'.current then b'.size else b'.current; lastmod = now }

-- `_buffer_stream_eos`.
pub eos : BufferStream → Bool
eos b = leb b.size b.current

abbrev pub is_negative : ℤ → Bool
is_negative (pos n) = false
is_negative (negsuc n) = true

-- `new_current` in `_buffer_stream_seek`.
abbrev pub target : BufferStream → ℤ → SeekMode → ℕ
target b offset seek_current =
    if is_negative offset
    then if ltb b.current (abs offset) then 0 else sub64 b.current (abs offset)
    else add64 b.current (abs offset)
target b offset seek_begin = if is_negative offset then 0 else abs offset
target b offset seek_end = if is_negative offset then sub64 b.size (abs offset) else b.size

-- `_buffer_stream_seek`.
pub seek : BufferStream → ℤ → SeekMode → BufferStream
seek b offset direction =
    let new_current = target b offset direction in
    record b { current = if ltb b.size new_current then b.size else new_current }

-- `_buffer_stream_tell`, `_buffer_stream_size`, `_buffer_stream_available_read`.
pub tell : BufferStream → ℕ
tell b = b.current

pub available_read : BufferStream → ℕ
available_read b = sub64 b.size b.current
