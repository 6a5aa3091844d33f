-- ===== src/BufferStream/Write.antt =====
-- `_buffer_stream_write` overwrites the text at the current position, and goes on behind its end.
use foundation_lib.Prelude.{
  ℕ, ◌+◌, ◌-◌, ◌^◌, ◌≤◌, ◌<◌, min, max, ◌≡◌, refl, ap, ◌∙◌, inl, inr, true, false, List, [], arith,
  dec_lt, ℕ_discrete, if◌then◌else◌, Bool-cases, length, take, length-take, overwrite,
  length-overwrite, take-overwrite-max, overwrite-nil,
}
use foundation_lib.Memory.{Memory}
use foundation_lib.BufferStream.{write, grown, BufferStream, store}
use foundation_lib.BufferStream.View.{IsValid, view}

-- What a write of `source` to `b` has to return.
pub record Writes (b : BufferStream) (source : List ℕ) (out : ℕ × BufferStream) : Type 0 where
  pub count :
      out.0 ≡ (if b.grow then length source else min (length source) (b.capacity - b.current))
  pub text : view out.1 ≡ overwrite (view b) b.current (take out.0 source)
  pub current : out.1.current ≡ b.current + out.0
  pub valid : IsValid out.1
  pub same : (out.1.grow ≡ b.grow) × (out.1.own ≡ b.own) × (out.1.mode ≡ b.mode)

-- A copy of `n` bytes to a stream `c` that has room for them, and that reads as `b` up to the end of
-- `b`.
store_lem :
    (now available n : ℕ) (source : List ℕ) {b : BufferStream} (c : BufferStream)
    → IsValid b
    → length c.buffer ≡ c.capacity
    → c.capacity < 2 ^ 63
    → c.current ≡ b.current
    → take b.size c.buffer ≡ view b
    → n ≡ min (length source) available
    → c.size ≡ max b.size (b.current + n)
    → c.size ≤ c.capacity
    → let (count, b') = store now source available c in
      (count ≡ n)
      × (view b' ≡ overwrite (view b) b.current (take n source))
      × (b'.current ≡ b.current + n)
      × IsValid b'
      × (b'.grow ≡ c.grow)
      × (b'.own ≡ c.own)
      × (b'.mode ≡ c.mode)
unfolding store
store_lem now available n source {b} c v storage word at text le size fits = elim (ℕ_discrete n 0) [
  | yes z ↦
      let e : take n source ≡ [] = rw z in
      let t : take c.size c.buffer ≡ take b.size c.buffer =
        ap (λ k. take k c.buffer) (omega arith) in
      ground (arith, overwrite-nil (view b) b.current)
  | no nz ↦ ground (
    arith,
    length-take n source,
    take-overwrite-max c.buffer b.current b.size c.size (take n source),
    length-overwrite c.buffer b.current (take n source),
  )
]

-- A write is such a copy, of the stream with the size and the block that it needs.
module _ (m : Memory) (now : ℕ) (source : List ℕ) {b : BufferStream} (v : IsValid b) where
  from_store :
      (available n : ℕ) (c : BufferStream)
      → write m now b source ≡ store now source available c
      → length c.buffer ≡ c.capacity
      → c.capacity < 2 ^ 63
      → c.current ≡ b.current
      → take b.size c.buffer ≡ view b
      → n ≡ min (length source) available
      → c.size ≡ max b.size (b.current + n)
      → c.size ≤ c.capacity
      → n ≡ (if b.grow then length source else min (length source) (b.capacity - b.current))
      → (c.grow ≡ b.grow) × (c.own ≡ b.own) × (c.mode ≡ b.mode)
      → Writes b source (write m now b source)
  from_store available n c e storage word at text le size fits count same =
      let s = store_lem now available n source c v storage word at text le size fits in
      rw e (record {
        count = s.0 ∙ count;
        text = rw s.0 s.1;
        current = rw s.0 s.2;
        valid = s.3;
        same = (s.4 ∙ same.0, s.5 ∙ same.1, s.6 ∙ same.2);
      })

  -- The write ends inside the text.
  inside : b.current + length source ≤ b.size → Writes b source (write m now b source)
  unfolding write
  inside h =
      from_store (b.size - b.current) (length source) b (ground arith) v.storage v.word refl refl
        (omega arith) (omega arith) v.size_in (ground arith) (refl, refl, refl)

  -- It ends behind the text, inside the block.
  behind :
      b.size < b.current + length source
      → b.current + length source ≤ b.capacity
      → Writes b source (write m now b source)
  unfolding write
  behind h le =
      from_store (length source) (length source) (record b { size = b.current + length source })
        (ground arith) v.storage v.word refl refl (omega arith) (omega arith) le (ground arith)
        (refl, refl, refl)

  -- It needs a larger block, and the stream may grow.
  longer :
      b.capacity < b.current + length source
      → b.current + length source + 1024 < 2 ^ 63
      → b.grow ≡ true
      → Writes b source (write m now b source)
  unfolding write
  longer h word g =
      let end = b.current + length source in
      let c : BufferStream = record b {
        size = end;
        capacity = grown end;
        buffer = m.reallocate b.buffer (grown end) b.capacity;
      } in
      from_store (length source) (length source) c (ground arith)
        (m.length-reallocate b.buffer (grown end) b.capacity) (ground arith) refl
        (m.keeps b.buffer (grown end) b.capacity b.size (omega arith) v.size_in (ground arith))
        (omega arith) (omega arith) (ground arith) (ground arith) (refl, refl, refl)

  -- It may not grow, and stops at the end of its block.
  short :
      b.capacity < b.current + length source
      → b.current + length source < 2 ^ 64
      → b.grow ≡ false
      → Writes b source (write m now b source)
  unfolding write
  short h word g =
      from_store (b.capacity - b.current) (b.capacity - b.current) (record b { size = b.capacity })
        (ground arith) v.storage v.word refl refl (omega arith) (omega arith) (omega arith)
        (ground arith) (refl, refl, refl)

-- A write to a valid stream overwrites its text at the current position, going on behind its end:
-- with all of `source` if the stream grows, else with as much as its block has room for. It returns
-- the number of bytes, moves behind them, and leaves the stream valid, with its mode and flags.
pub write-view :
    (m : Memory) (now : ℕ) (source : List ℕ) {b : BufferStream}
    → IsValid b
    → b.current + length source + 1024 < 2 ^ 63
    → Writes b source (write m now b source)
write-view m now source {b} v word = elim (dec_lt b.size (b.current + length source)) [
  | no p ↦ inside m now source v (omega arith)
  | yes p ↦ elim (dec_lt b.capacity (b.current + length source)) [
    | no q ↦ behind m now source v p (omega arith)
    | yes q ↦ elim (Bool-cases b.grow) [
      | inl g ↦ longer m now source v q word g
      | inr g ↦ short m now source v q (omega arith) g
    ]
  ]
]
