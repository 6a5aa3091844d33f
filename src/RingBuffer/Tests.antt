-- ===== src/RingBuffer/Tests.antt =====
-- Ring buffers at small sizes: what the operations do, and the theorems at inputs.
use foundation_lib.Prelude.{ℕ, ◌≡◌, refl, some, List, [], ◌∷◌, arith, overwrite}
use foundation_lib.RingBuffer.{RingBuffer, initialize, reset, read, write, Out}
use foundation_lib.RingBuffer.Contents.{IsValid, contents}
use foundation_lib.RingBuffer.Read.{Reads, read-contents}
use foundation_lib.RingBuffer.Write.{Writes, write-contents}
use foundation_lib.RingBuffer.Queue.{
  Op, put, get, clear, run, replies, run_refines, initialize-IsValid,
}

-- 8, then 9 and 7, round the end of the block; one byte is free, and one stays so.
abbrev wrapped : RingBuffer
wrapped = record {
  total_read = 5;
  total_write = 8;
  offset_read = 4;
  offset_write = 2;
  buffer_size = 5;
  buffer = 9 ∷ 7 ∷ 0 ∷ 0 ∷ 8 ∷ [];
}

wrapped-IsValid : IsValid wrapped
wrapped-IsValid = omega arith

abbrev script : List Op
script = get 2 ∷ put (1 ∷ 2 ∷ 3 ∷ 4 ∷ 5 ∷ []) ∷ get 9 ∷ clear ∷ get 1 ∷ []

run-wrapped :
    run wrapped script
    ≡ some ((2, 8 ∷ 9 ∷ []) ∷ (3, []) ∷ (4, 7 ∷ 1 ∷ 2 ∷ 3 ∷ []) ∷ (0, []) ∷ (0, []) ∷ [])
unfolding run read write reset overwrite
run-wrapped = refl

initialize-IsValid_example :
    IsValid (initialize (0 ∷ 0 ∷ []) 2) × (contents (initialize (0 ∷ 0 ∷ []) 2) ≡ [])
initialize-IsValid_example = initialize-IsValid (0 ∷ 0 ∷ []) (omega arith) (omega arith)

read-contents_example : (out : Out) × (read 2 wrapped 2 ≡ some out) × Reads wrapped 2 out
read-contents_example = read-contents 0 2 wrapped-IsValid (omega arith)

write-contents_example :
    (out : ℕ × RingBuffer) × (write 2 wrapped (5 ∷ 6 ∷ []) ≡ some out)
    × Writes wrapped (5 ∷ 6 ∷ []) out
write-contents_example = write-contents 0 (5 ∷ 6 ∷ []) wrapped-IsValid

run_refines_example : run wrapped script ≡ some (replies 4 (8 ∷ 9 ∷ 7 ∷ []) script)
run_refines_example = run_refines script (omega arith) wrapped-IsValid
