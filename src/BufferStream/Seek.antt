-- ===== src/BufferStream/Seek.antt =====
-- `_buffer_stream_seek`, and what is read back after a write.
use foundation_lib.Prelude.{
  ℕ, suc, ◌+◌, ◌-◌, ◌^◌, ◌<◌, min, ◌≡◌, ap, ◌↔◌, true, List, arith, leb, if◌then◌else◌, length,
  take, drop, take-append_le, take_all, drop-overwrite_self,
}
use foundation_lib.Prelude.Int.{ℤ, pos, negsuc, abs}
use foundation_lib.Memory.{Memory}
use foundation_lib.BufferStream.{
  BufferStream, SeekMode, seek_begin, seek_current, seek_end, seek, read, write, tell, eos,
  available_read,
}
use foundation_lib.BufferStream.View.{IsValid, view, length-view, read-view}
use foundation_lib.BufferStream.Write.{write-view}

-- The position `offset` bytes from `from`, held inside `[0, size]`.
abbrev pub clamp : ℕ → ℕ → ℤ → ℕ
clamp size from (pos n) = min (from + n) size
clamp size from (negsuc n) = min (from - suc n) size

-- Where a seek from the end leads: before the beginning it wraps, and the stream stays at its end.
abbrev pub from_end : ℕ → ℤ → ℕ
from_end size (pos n) = size
from_end size (negsuc n) = if leb (suc n) size then size - suc n else size

abbrev pub landing : BufferStream → ℤ → SeekMode → ℕ
landing b offset seek_begin = clamp b.size 0 offset
landing b offset seek_current = clamp b.size b.current offset
landing b offset seek_end = from_end b.size offset

-- A seek moves the position and nothing else. From the beginning and from the current position it
-- goes where the offset says, and stops at either end of the text. From the end it goes back by a
-- negative offset that stays inside the text, and to the end by any other.
pub seek-landing :
    (offset : ℤ) (direction : SeekMode) {b : BufferStream}
    → IsValid b
    → abs offset < 2 ^ 63
    → let b' = seek b offset direction in
      (b' ≡ record b { current = b'.current })
      × (b'.current ≡ landing b offset direction)
      × IsValid b'
unfolding seek
seek-landing (pos n) seek_begin {b} v h = ground arith
seek-landing (pos n) seek_current {b} v h = ground arith
seek-landing (pos n) seek_end {b} v h = ground arith
seek-landing (negsuc n) seek_begin {b} v h = ground arith
seek-landing (negsuc n) seek_current {b} v h = ground arith
seek-landing (negsuc n) seek_end {b} v h = ground arith

-- What a stream can still deliver is what lies between its position and its end, and it is at its end
-- just when that is nothing.
pub available_read-eos :
    {b : BufferStream}
    → IsValid b
    → (available_read b ≡ b.size - tell b) × ((eos b ≡ true) ↔ (available_read b ≡ 0))
unfolding available_read tell eos
available_read-eos v = ground arith

-- What a growing stream is given it gives back: a write of `source` and a seek to where it began are
-- followed by a read of as many bytes, which are `source`.
pub read-write :
    (m : Memory) (now : ℕ) (source : List ℕ) {b : BufferStream}
    → IsValid b
    → b.grow ≡ true
    → b.current + length source + 1024 < 2 ^ 63
    → let (n, b') = write m now b source in
      let (k, bytes, _) = read (seek b' (pos b.current) seek_begin) n in
      (k ≡ length source) × (bytes ≡ source)
read-write m now source {b} v g word =
    let w = write-view m now source v word in
    let (n, b') = write m now b source in
    let c = seek b' (pos b.current) seek_begin in
    let s = seek-landing (pos b.current) seek_begin w.valid (omega arith) in
    let r = read-view n s.2 in
    let whole : n ≡ length source = ground arith in
    let size : c.size ≡ b'.size = ap (λ (x : BufferStream). x.size) s.0 in
    let text : view c ≡ view b' = ap (λ (x : BufferStream). view x) s.0 in
    let back : c.current ≡ b.current = omega (arith, w.current, w.valid.current_in, s.1) in
    let all : take n source ≡ source = take_all n source (omega arith) in
    let tail = drop (b.current + length source) (view b) in
    (
      omega (arith, r.0, w.current, w.valid.current_in),
      rw
          (
            r.1,
            text,
            back,
            w.text,
            all,
            drop-overwrite_self (view b) b.current source (omega (arith, length-view v)),
            whole,
            take-append_le (length source) source tail (omega arith),
          )
          (take_all (length source) source (omega arith)),
    )
