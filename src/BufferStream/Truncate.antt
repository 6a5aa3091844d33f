-- ===== src/BufferStream/Truncate.antt =====
-- `_buffer_stream_truncate` cuts the text, or makes it longer.
use foundation_lib.Prelude.{
  ℕ, ◌^◌, ◌≤◌, ◌<◌, min, ◌≡◌, true, [], ◌∷◌, arith, if◌then◌else◌, take, take-take,
}
use foundation_lib.Memory.{Memory, zeroing, zero_filled}
use foundation_lib.BufferStream.{BufferStream, truncate}
use foundation_lib.BufferStream.View.{IsValid, view}

-- Truncating a valid stream to `size` bytes gives it that size, or the size of its block if it is
-- shorter and may not grow. The position moves back to the end of the text if it was behind it, the
-- bytes before the new position stay, and the stream is valid.
pub truncate-view :
    (m : Memory) (now size : ℕ) {b : BufferStream}
    → IsValid b
    → size < 2 ^ 63
    → let b' = truncate m now b size in
      IsValid b'
      × (b'.size ≡ (if b.grow then size else min size b.capacity))
      × (b'.current ≡ min b.current b'.size)
      × (take b'.current (view b') ≡ take b'.current (view b))
unfolding truncate
truncate-view m now size {b} v word =
    let b' = truncate m now b size in
    ground (
      arith,
      m.length-reallocate b.buffer size b.current,
      m.keeps b.buffer size b.current (min b.current b'.size),
      take-take b'.current b'.size b'.buffer,
      take-take b'.current b.size b.buffer,
    )

-- A truncation to no more bytes than the block holds keeps the block: what it leaves of the text is
-- the text's beginning.
pub truncate-shrink :
    (m : Memory) (now size : ℕ) {b : BufferStream}
    → IsValid b
    → size ≤ b.size
    → view (truncate m now b size) ≡ take size (view b)
unfolding truncate
truncate-shrink m now size {b} v h = ground (arith, take-take size b.size b.buffer)

-- It is not true that a truncation to more bytes keeps the text: where the block has to grow,
-- `memory_reallocate` is told that only the bytes before the position matter.
pub truncate_may_lose : ¬ (
    (m : Memory) (now size : ℕ) (b : BufferStream)
    → IsValid b
    → size < 2 ^ 63
    → b.size ≤ size
    → take b.size (view (truncate m now b size)) ≡ view b)
unfolding truncate zero_filled
truncate_may_lose all = cc (
    all zeroing 0 3
      (record {
        mode = 3;
        buffer = 1 ∷ 2 ∷ [];
        size = 2;
        capacity = 2;
        current = 0;
        own = true;
        grow = true;
        lastmod = 0;
      })
      (omega arith) (omega arith) (omega arith))
