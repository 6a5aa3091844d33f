-- ===== src/BufferStream/View.antt =====
-- The text that a buffer stream holds, its invariant, and reads.
use foundation_lib.Prelude.{
  ℕ, ◌+◌, ◌-◌, ◌≤◌, ◌<◌, ◌^◌, ◌≡◌, Bool, true, Option, none, some, List, length, slice, take, drop,
  min, length-take, drop-take, take-take, take_all, arith,
}
use foundation_lib.BufferStream.{BufferStream, initialize, block, read}

-- Blocks of memory are smaller than half the address space (`ssize_t` counts their bytes).
pub record IsValid (b : BufferStream) : Type 0 where
  pub storage : length b.buffer ≡ b.capacity
  pub word : b.capacity < 2 ^ 63
  pub size_in : b.size ≤ b.capacity
  pub current_in : b.current ≤ b.size

-- The bytes of the stream from its beginning to its end.
abbrev pub view : BufferStream → List ℕ
view b = take b.size b.buffer

pub length-view : {b : BufferStream} → IsValid b → length (view b) ≡ b.size
length-view {b} v = omega (arith, length-take b.size b.buffer)

-- `buffer_stream_initialize` makes a valid stream of any block, whatever size, mode and flags it is
-- given, and a stream that can grow owns its block.
pub initialize-IsValid :
    (buffer : Option (List ℕ)) (mode size : ℕ) (adopt grow : Bool) (now : ℕ)
    → length (block buffer) < 2 ^ 63
    → let b = initialize buffer mode size (length (block buffer)) adopt grow now in
      IsValid b × (b.grow ≡ true → b.own ≡ true)
unfolding initialize
initialize-IsValid none mode size adopt grow now h = ground arith
initialize-IsValid (some memory) mode size adopt grow now h = ground arith

-- A read returns the next bytes of the text, as many as asked for and there, moves behind them, and
-- changes nothing else.
pub read-view :
    (num : ℕ) {b : BufferStream}
    → IsValid b
    → let (n, bytes, b') = read b num in
      (n ≡ min num (b.size - b.current))
      × (bytes ≡ take num (drop b.current (view b)))
      × (b' ≡ record b { current = b.current + n })
      × IsValid b'
unfolding read
read-view num {b} v =
    let n = min num (b.size - b.current) in
    ground (
      arith,
      drop-take b.current b.size b.buffer,
      take-take num (b.size - b.current) (drop b.current b.buffer),
      take_all num (slice b.current (b.size - b.current) b.buffer),
      length-take (b.size - b.current) (drop b.current b.buffer),
    )
