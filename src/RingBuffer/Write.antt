-- ===== src/RingBuffer/Write.antt =====
-- `ringbuffer_write` puts bytes behind the contents.
use foundation_lib.Prelude.{
  ℕ, suc, ◌+◌, ◌-◌, ◌≤◌, ◌<◌, ◌≡◌, refl, ◌⊎◌, inl, inr, true, some, List, ◌++◌, ltb, if◌then◌else◌,
  length, take, drop, overwrite, length-overwrite, take-eq_nil, slice-overwrite, take-overwrite,
  drop-overwrite_ge, min, add64, length-take, length-drop, take-add, take_all, append-nil,
  append_assoc, arith, ℕ_discrete, dec_lt,
}
use foundation_lib.RingBuffer.{RingBuffer, max_write, put, add_count, write}
use foundation_lib.RingBuffer.Contents.{IsValid, contents, used}

-- How many bytes it has room for.
abbrev pub room : RingBuffer → ℕ
room b = b.buffer_size - 1 - used b

-- What a write of `source` to `b` has to return.
pub record Writes (b : RingBuffer) (source : List ℕ) (out : ℕ × RingBuffer) : Type 0 where
  pub count : out.0 ≡ min (length source) (room b)
  pub bytes : contents out.1 ≡ contents b ++ take (room b) source
  pub valid : IsValid out.1
  pub reader : out.1.offset_read ≡ b.offset_read
  pub size : out.1.buffer_size ≡ b.buffer_size
  pub read : out.1.total_read ≡ b.total_read
  pub total : out.1.total_write ≡ add64 b.total_write out.0

abbrev Step : RingBuffer → List ℕ → Type 0
Step b bytes = IsValid (put bytes b) × (contents (put bytes b) ≡ contents b ++ bytes)

put-ahead :
    {b : RingBuffer} (bytes : List ℕ)
    → IsValid b
    → b.offset_read ≤ b.offset_write
    → b.offset_write + length bytes < b.buffer_size
    → Step b bytes
put-ahead {b} bytes v le h = ground (
  arith,
  length-overwrite b.buffer b.offset_write bytes,
  slice-overwrite b.buffer b.offset_write b.offset_read bytes,
)

put-to_end :
    {b : RingBuffer} (bytes : List ℕ)
    → IsValid b
    → b.offset_read ≤ b.offset_write
    → 0 < b.offset_read
    → b.offset_write + length bytes ≡ b.buffer_size
    → Step b bytes
put-to_end {b} bytes v le pos h =
    let n = b.offset_write + length bytes - b.offset_read in
    let memory = overwrite b.buffer b.offset_write bytes in
    ground (
      arith,
      length-overwrite b.buffer b.offset_write bytes,
      slice-overwrite b.buffer b.offset_write b.offset_read bytes,
      take_all n (drop b.offset_read memory),
      length-drop b.offset_read memory,
      append-nil (drop b.offset_read memory),
    )

put-below :
    {b : RingBuffer} (bytes : List ℕ)
    → IsValid b
    → b.offset_write < b.offset_read
    → b.offset_write + length bytes < b.offset_read
    → Step b bytes
put-below {b} bytes v lt h = ground (
  arith,
  length-overwrite b.buffer b.offset_write bytes,
  take-overwrite b.buffer b.offset_write bytes,
  drop-overwrite_ge b.buffer b.offset_write b.offset_read bytes,
  append_assoc (drop b.offset_read b.buffer) (take b.offset_write b.buffer) bytes,
)

-- What a write without a recursive call returns.
stop-Writes :
    {b : RingBuffer} (source : List ℕ) (n : ℕ)
    → IsValid b
    → Step b (take n source)
    → n ≡ min (length source) (room b)
    → Writes b source (n, put (take n source) b)
stop-Writes {b} source n v st e =
    ground (arith, length-take n source, take_all (room b) source, take_all n source)

none-Writes :
    {b : RingBuffer} (source : List ℕ)
    → IsValid b
    → min (length source) (room b) ≡ 0
    → Writes b source (0, b)
none-Writes {b} source v e = ground (arith, take-eq_nil (room b) source, append-nil (contents b))

write-stop :
    (f : ℕ) {b : RingBuffer} (source : List ℕ) (n : ℕ)
    → IsValid b
    → n ≡ min (length source) (max_write b)
    → 0 < n
    → n ≤ b.buffer_size
    → (n ≡ length source) ⊎ (b.offset_write + n < b.buffer_size)
    → write (suc f) b source ≡ some (n, put (take n source) b)
unfolding write
write-stop f {b} source n v e pos le h =
    let t : (if ltb (max_write b) (length source) then max_write b else length source) ≡ n =
      ground arith in
    rw t (ground (arith, length-take n source))

-- A copy that fills the buffer to its end goes on at its start.
write-recur :
    (f : ℕ) {b : RingBuffer} (source : List ℕ)
    → IsValid b
    → b.offset_read ≤ b.offset_write
    → 0 < b.offset_read
    → b.buffer_size - b.offset_write < length source
    → let n = b.buffer_size - b.offset_write in
      write (suc f) b source ≡ add_count n (write f (put (take n source) b) (drop n source))
unfolding write
write-recur f {b} source v le pos h =
    let n = b.buffer_size - b.offset_write in
    let e : max_write b ≡ n = ground arith in
    let t : ltb n (length source) ≡ true = ground arith in
    rw (e, t) (ground (arith, length-take n source))

stop-run :
    (f : ℕ) {b : RingBuffer} (source : List ℕ)
    → IsValid b
    → max_write b ≡ room b
    → ((n : ℕ) → n ≤ room b → n ≤ length source → Step b (take n source))
    → (b.offset_write + room b < b.buffer_size)
    → (out : ℕ × RingBuffer) × (write (suc f) b source ≡ some out) × Writes b source out
unfolding write
stop-run f {b} source v most step h =
    let n = min (length source) (room b) in
    elim (ℕ_discrete n 0) [
      | yes z ↦ ((0, b), ground arith, none-Writes source v z)
      | no nz ↦ (
        (n, put (take n source) b),
        write-stop f source n v (rw most) (omega arith) (omega arith) (inr (omega arith)),
        stop-Writes source n v (step n (omega arith) (omega arith)) refl,
      )
    ]

write-below :
    (f : ℕ) {b : RingBuffer} (source : List ℕ)
    → IsValid b
    → b.offset_write < b.offset_read
    → (out : ℕ × RingBuffer) × (write (suc f) b source ≡ some out) × Writes b source out
write-below f {b} source v lt =
    stop-run f source v (ground arith)
      (λ n le le'. put-below (take n source) v lt (ground (arith, length-take n source)))
      (ground arith)

write-start :
    (f : ℕ) {b : RingBuffer} (source : List ℕ)
    → IsValid b
    → b.offset_read ≡ 0
    → (out : ℕ × RingBuffer) × (write (suc f) b source ≡ some out) × Writes b source out
write-start f {b} source v e =
    stop-run f source v (ground arith)
      (λ n le le'. put-ahead (take n source) v (omega arith) (ground (arith, length-take n source)))
      (ground arith)

join-Writes :
    {b : RingBuffer} (source : List ℕ) (n : ℕ) (out : ℕ × RingBuffer)
    → IsValid b
    → Step b (take n source)
    → n ≤ length source
    → n ≤ room b
    → room b - n ≡ room (put (take n source) b)
    → Writes (put (take n source) b) (drop n source) out
    → Writes b source (add64 n out.0, out.1)
join-Writes {b} source n out v st le le' r w =
    let rest = take (room b - n) (drop n source) in
    ground (
      arith,
      length-take n source,
      length-drop n source,
      take-add n (room b - n) source,
      append_assoc (contents b) (take n source) rest,
    )

write-round :
    (f : ℕ) {b : RingBuffer} (source : List ℕ)
    → IsValid b
    → b.offset_read ≤ b.offset_write
    → 0 < b.offset_read
    → (out : ℕ × RingBuffer) × (write (suc (suc f)) b source ≡ some out) × Writes b source out
unfolding write
write-round f {b} source v le pos =
    let m = b.buffer_size - b.offset_write in
    let n = min (length source) m in
    let whole = put-to_end (take m source) v le pos in
    let counted = length-take m source in
    elim (ℕ_discrete n 0) [
      | yes z ↦ ((0, b), ground arith, none-Writes source v (omega arith))
      | no nz ↦ elim (dec_lt (length source) m) [
        | yes p ↦ (
          (n, put (take n source) b),
          write-stop (suc f) source n v (ground arith) (omega arith) (omega arith)
              (inr (omega arith)),
          stop-Writes source n v
              (put-ahead (take n source) v le (omega (arith, length-take n source))) (ground arith),
        )
        | no p ↦ elim (ℕ_discrete (length source) m) [
          | yes e ↦ (
            (m, put (take m source) b),
            write-stop (suc f) source m v (ground arith) (omega arith) (omega arith)
                (inl (omega arith)),
            stop-Writes source m v (whole (omega arith)) (ground arith),
          )
          | no ne ↦
              let st = whole (omega arith) in
              let (out, run, w) = write-below f (drop m source) st.0 (ground arith) in
              (
                (add64 m out.0, out.1),
                rw (write-recur (suc f) source v le pos (omega arith), run),
                join-Writes source m out v st (omega arith) (ground arith) (ground arith) w,
              )
        ]
      ]
    ]

-- A write of `source` to a valid buffer returns, with two levels of recursion at most: it appends as
-- many bytes from the front of `source` as there is room for, one byte of the buffer staying free,
-- returns their number and counts them, and leaves the read side alone.
pub write-contents :
    (f : ℕ) (source : List ℕ) {b : RingBuffer}
    → IsValid b
    → (out : ℕ × RingBuffer) × (write (suc (suc f)) b source ≡ some out) × Writes b source out
write-contents f source {b} v = elim (dec_lt b.offset_write b.offset_read) [
  | yes p ↦ write-below (suc f) source v p
  | no p ↦ elim (ℕ_discrete b.offset_read 0) [
    | yes e ↦ write-start (suc f) source v e
    | no ne ↦ write-round f source v (omega arith) (omega arith)
  ]
]
