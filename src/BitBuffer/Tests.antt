-- ===== src/BitBuffer/Tests.antt =====
-- Runs of the bit buffer on small blocks and on a stream, and the theorems at concrete states.
use Prim.{tt}
use foundation_lib.Prelude.{ℕ, ◌≡◌, refl, true, false, none, List, [], ◌∷◌, ◌++◌, arith}
use foundation_lib.BitBuffer.{
  WordStream, BitBuffer, initialize_buffer, initialize_stream, swap32, get, put, read32, read64,
  write32, write64, read_pending, read_more, write_pending, align_write,
}
use foundation_lib.BitBuffer.Bits.{to_bits}
use foundation_lib.BitBuffer.Words.{words_bits}
use foundation_lib.BitBuffer.Writer.{IsWriter, written, Appends}
use foundation_lib.BitBuffer.Fields.{write64-Appends, align_write-written}
use foundation_lib.BitBuffer.Reader.{IsReader, Takes}
use foundation_lib.BitBuffer.RoundTrip.{
  Field, read64-Takes, write_fields, read_fields, read_fields-write_fields,
}

-- A stream of words in a list.
abbrev queue_read : List ℕ → ℕ × List ℕ
queue_read [] = (0, [])
queue_read (w ∷ ws) = (w, ws)

abbrev words_stream : WordStream
words_stream = record {
  State = List ℕ;
  read_uint32 = queue_read;
  write_uint32 = λ ws w. ws ++ (w ∷ []);
}

abbrev on_stream : BitBuffer (List ℕ)
on_stream = initialize_stream (0xABCD0123 ∷ 7 ∷ [])

read_stream : (read32 words_stream on_stream 12).0 ≡ 0x123
unfolding read32 read_pending read_more get initialize_stream
read_stream = refl

abbrev blank : BitBuffer (List ℕ)
blank = initialize_buffer (0 ∷ 0 ∷ []) true

write_twice :
    (write32 words_stream (write32 words_stream blank 0x1234567 28) 0xAB 8).words
    ≡ 0x674523B1 ∷ 0 ∷ []
unfolding write32 write_pending put initialize_buffer swap32
write_twice = refl

-- A writer in its second word.
abbrev writer : BitBuffer (List ℕ)
writer = record {
  words = 5 ∷ 0 ∷ 0 ∷ [];
  position = 1;
  stream = none;
  swap = false;
  pending_read = 0;
  pending_write = 3;
  offset_read = 32;
  offset_write = 20;
  count_read = 0;
  count_write = 52;
}

writer-IsWriter : IsWriter words_stream writer
writer-IsWriter = record {
  memory = refl;
  open_word = omega arith;
  fits = omega arith;
  inside = omega arith;
  words = (omega arith, (omega arith, (omega arith, tt)));
  counted = omega arith;
}

-- A reader with twelve bits left of a word, and two words behind.
abbrev reader : BitBuffer (List ℕ)
reader = record {
  words = 5 ∷ 0xFFFF ∷ 9 ∷ [];
  position = 1;
  stream = none;
  swap = false;
  pending_read = 0xABC00000;
  pending_write = 0;
  offset_read = 20;
  offset_write = 0;
  count_read = 20;
  count_write = 0;
}

reader-IsReader : IsReader words_stream reader
reader-IsReader = record {
  memory = refl;
  offset = omega arith;
  word = omega arith;
  words = (omega arith, (omega arith, (omega arith, tt)));
}

read_over : (read64 words_stream reader 40).0 ≡ 0xFFFFABC
unfolding read64 read32 read_pending read_more get
read_over = refl

write64-Appends_example :
    Appends words_stream writer 0x123456789 40 (write64 words_stream writer 0x123456789 40)
write64-Appends_example =
    write64-Appends words_stream 0x123456789 40 writer-IsWriter (omega arith) (omega arith)

read64-Takes_example : Takes words_stream reader 40 (read64 words_stream reader 40)
unfolding to_bits words_bits
read64-Takes_example = read64-Takes words_stream 40 reader-IsReader (omega arith) (omega arith)

-- Behind a whole word.
abbrev aligned : BitBuffer (List ℕ)
aligned = record writer { pending_write = 0; offset_write = 0; count_write = 32 }

aligned-IsWriter : IsWriter words_stream aligned
aligned-IsWriter = record {
  memory = refl;
  open_word = omega arith;
  fits = omega arith;
  inside = omega arith;
  words = (omega arith, (omega arith, (omega arith, tt)));
  counted = omega arith;
}

align_write-written_example :
    IsWriter words_stream (align_write words_stream aligned true)
    × (written words_stream (align_write words_stream aligned true)
        ≡ written words_stream aligned ++ to_bits 32 0)
    × ((align_write words_stream aligned true).offset_write ≡ 0)
    × ((align_write words_stream aligned true).swap ≡ false)
    × ((align_write words_stream aligned true).count_write ≡ 64)
align_write-written_example = align_write-written words_stream true aligned-IsWriter (omega arith)

abbrev sample : List Field
sample =
    record { value = 5; bits = 3 }
    ∷ record { value = 0x123456789; bits = 40 }
    ∷ record { value = 77; bits = 6 }
    ∷ []

read_fields-write_fields_example :
    let b =
      align_write words_stream
        (write_fields words_stream sample (initialize_buffer (1 ∷ 2 ∷ []) true))
        false in
    read_fields words_stream (3 ∷ 40 ∷ 6 ∷ []) (initialize_buffer b.words true)
    ≡ 5 ∷ 0x123456789 ∷ 13 ∷ []
read_fields-write_fields_example =
    read_fields-write_fields words_stream sample (1 ∷ 2 ∷ []) true
      (omega arith, (omega arith, (omega arith, tt))) (omega arith, (omega arith, tt)) (omega arith)
