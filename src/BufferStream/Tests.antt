-- ===== src/BufferStream/Tests.antt =====
-- Buffer streams at small blocks: what the operations do, and the theorems at inputs.
use foundation_lib.Prelude.{◌+◌, min, ◌≡◌, refl, true, false, some, [], ◌∷◌, arith, take, overwrite}
use foundation_lib.Prelude.Int.{pos, negsuc}
use foundation_lib.Memory.{zeroing, zero_filled}
use foundation_lib.BufferStream.{
  BufferStream, initialize, store, read, write, truncate, seek, seek_begin, seek_current, seek_end,
  tell,
}
use foundation_lib.BufferStream.View.{IsValid, view, initialize-IsValid, read-view}
use foundation_lib.BufferStream.Write.{Writes, write-view}
use foundation_lib.BufferStream.Truncate.{truncate-view, truncate-shrink}
use foundation_lib.BufferStream.Seek.{seek-landing, read-write}

-- Five bytes of eight, at the second; it may not grow.
abbrev fixed : BufferStream
fixed = record {
  mode = 3;
  buffer = 10 ∷ 11 ∷ 12 ∷ 13 ∷ 14 ∷ 15 ∷ 16 ∷ 17 ∷ [];
  size = 5;
  capacity = 8;
  current = 1;
  own = true;
  grow = false;
  lastmod = 0;
}

abbrev growing : BufferStream
growing = record fixed { grow = true }

fixed-IsValid : IsValid fixed
fixed-IsValid = omega arith

growing-IsValid : IsValid growing
growing-IsValid = omega arith

-- The block has room for seven of the eight bytes.
write-fixed :
    view (write zeroing 9 fixed (1 ∷ 2 ∷ 3 ∷ 4 ∷ 5 ∷ 6 ∷ 7 ∷ 8 ∷ [])).1
    ≡ 10 ∷ 1 ∷ 2 ∷ 3 ∷ 4 ∷ 5 ∷ 6 ∷ 7 ∷ []
unfolding write store overwrite
write-fixed = refl

write-growing :
    view (write zeroing 9 growing (1 ∷ 2 ∷ 3 ∷ 4 ∷ 5 ∷ 6 ∷ 7 ∷ 8 ∷ [])).1
    ≡ 10 ∷ 1 ∷ 2 ∷ 3 ∷ 4 ∷ 5 ∷ 6 ∷ 7 ∷ 8 ∷ []
unfolding write store overwrite zero_filled
write-growing = refl

-- Two bytes before the beginning, and six: the first stops at the beginning, the second at the end.
seek_before :
    (tell (seek fixed (negsuc 1) seek_current) ≡ 0) × (tell (seek fixed (negsuc 5) seek_end) ≡ 5)
unfolding seek tell
seek_before = (refl, refl)

initialize-IsValid_example :
    let b = initialize (some (1 ∷ 2 ∷ 3 ∷ [])) 0x13 9 3 false true 7 in
    IsValid b × (b.grow ≡ true → b.own ≡ true)
initialize-IsValid_example =
    initialize-IsValid (some (1 ∷ 2 ∷ 3 ∷ [])) 0x13 9 false true 7 (omega arith)

read-view_example :
    let (n, bytes, b) = read fixed 3 in
    (n ≡ 3) × (bytes ≡ 11 ∷ 12 ∷ 13 ∷ []) × (b ≡ record fixed { current = 1 + n }) × IsValid b
read-view_example = read-view 3 fixed-IsValid

write-view_example : Writes fixed (1 ∷ 2 ∷ []) (write zeroing 9 fixed (1 ∷ 2 ∷ []))
write-view_example = write-view zeroing 9 (1 ∷ 2 ∷ []) fixed-IsValid (omega arith)

truncate-view_example :
    let b = truncate zeroing 9 growing 12 in
    IsValid b
    × (b.size ≡ 12)
    × (b.current ≡ min 1 b.size)
    × (take b.current (view b) ≡ take b.current (view growing))
truncate-view_example = truncate-view zeroing 9 12 growing-IsValid (omega arith)

truncate-shrink_example : view (truncate zeroing 9 fixed 2) ≡ 10 ∷ 11 ∷ []
truncate-shrink_example = truncate-shrink zeroing 9 2 fixed-IsValid (omega arith)

seek-landing_example :
    let b = seek fixed (negsuc 1) seek_end in
    (b ≡ record fixed { current = b.current }) × (b.current ≡ 3) × IsValid b
seek-landing_example = seek-landing (negsuc 1) seek_end fixed-IsValid (omega arith)

read-write_example :
    let (n, b) = write zeroing 9 growing (7 ∷ 8 ∷ []) in
    let (k, bytes, _) = read (seek b (pos 1) seek_begin) n in (k ≡ 2) × (bytes ≡ 7 ∷ 8 ∷ [])
read-write_example = read-write zeroing 9 (7 ∷ 8 ∷ []) growing-IsValid refl (omega arith)
