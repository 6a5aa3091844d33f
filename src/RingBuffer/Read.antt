-- ===== src/RingBuffer/Read.antt =====
-- `ringbuffer_read` takes bytes off the front of the contents.
use foundation_lib.Prelude.{
  ℕ, suc, ◌-◌, ◌≤◌, ◌<◌, ◌≡◌, refl, ◌⊎◌, inl, inr, true, some, [], ◌++◌, ltb, slice, take, drop,
  min, add64, sub64, ◌^◌, take-add, length-drop, take-take, take-append_le, drop-append_le,
  drop-drop, drop-take, take_all, drop_all, arith, ℕ_discrete, dec_lt,
}
use foundation_lib.RingBuffer.{RingBuffer, max_read, skip, Out, join, read}
use foundation_lib.RingBuffer.Contents.{IsValid, contents, used, length-contents}

-- What a read of `num` bytes from `b` has to return.
pub record Reads (b : RingBuffer) (num : ℕ) (out : Out) : Type 0 where
  pub count : out.0 ≡ min num (used b)
  pub bytes : out.1 ≡ take num (contents b)
  pub rest : contents out.2 ≡ drop num (contents b)
  pub valid : IsValid out.2
  pub writer : out.2.offset_write ≡ b.offset_write
  pub size : out.2.buffer_size ≡ b.buffer_size
  pub written : out.2.total_write ≡ b.total_write
  pub total : out.2.total_read ≡ add64 b.total_read out.0

-- One copy stays on one side of the end of the buffer.
abbrev Step : RingBuffer → ℕ → Type 0
Step b n =
    IsValid (skip n b)
    × (contents (skip n b) ≡ drop n (contents b))
    × (slice b.offset_read n b.buffer ≡ take n (contents b))

skip-ahead :
    {b : RingBuffer} (n : ℕ)
    → IsValid b
    → b.offset_read ≤ b.offset_write
    → n ≤ b.offset_write - b.offset_read
    → Step b n
skip-ahead {b} n v le h = ground (
  arith,
  take-take n (b.offset_write - b.offset_read) (drop b.offset_read b.buffer),
  drop-take n (b.offset_write - b.offset_read) (drop b.offset_read b.buffer),
  drop-drop n b.offset_read b.buffer,
)

skip-below :
    {b : RingBuffer} (n : ℕ)
    → IsValid b
    → b.offset_write < b.offset_read
    → n < b.buffer_size - b.offset_read
    → Step b n
skip-below {b} n v lt h = ground (
  arith,
  take-append_le n (drop b.offset_read b.buffer) (take b.offset_write b.buffer),
  drop-append_le n (drop b.offset_read b.buffer) (take b.offset_write b.buffer),
  length-drop b.offset_read b.buffer,
  drop-drop n b.offset_read b.buffer,
)

skip-to_end :
    {b : RingBuffer} (n : ℕ)
    → IsValid b
    → b.offset_write < b.offset_read
    → n ≡ b.buffer_size - b.offset_read
    → Step b n
skip-to_end {b} n v lt h = ground (
  arith,
  take-append_le n (drop b.offset_read b.buffer) (take b.offset_write b.buffer),
  drop-append_le n (drop b.offset_read b.buffer) (take b.offset_write b.buffer),
  length-drop b.offset_read b.buffer,
  drop_all n (drop b.offset_read b.buffer),
)

-- What a read without a recursive call returns.
stop-Reads :
    {b : RingBuffer} (num n : ℕ)
    → IsValid b
    → Step b n
    → n ≡ min num (used b)
    → Reads b num (n, slice b.offset_read n b.buffer, skip n b)
stop-Reads {b} num n v st e = ground (
  arith,
  length-contents v,
  take_all num (contents b),
  take_all n (contents b),
  drop_all num (contents b),
  drop_all n (contents b),
)

-- Nothing wanted, or nothing there.
none-Reads : {b : RingBuffer} (num : ℕ) → IsValid b → min num (used b) ≡ 0 → Reads b num (0, [], b)
none-Reads {b} num v e =
    ground (arith, length-contents v, take_all num (contents b), drop_all num (contents b))

read-ahead :
    {b : RingBuffer} (f num : ℕ)
    → IsValid b
    → b.offset_read ≤ b.offset_write
    → (out : Out) × (read (suc f) b num ≡ some out) × Reads b num out
unfolding read
read-ahead {b} f num v le =
    let n = min num (used b) in
    elim (ℕ_discrete n 0) [
      | yes z ↦ ((0, [], b), ground arith, none-Reads num v z)
      | no nz ↦ (
        (n, slice b.offset_read n b.buffer, skip n b),
        ground arith,
        stop-Reads num n v (skip-ahead n v le (ground arith)) refl,
      )
    ]

-- The second call of a read that goes round the end.
join-Reads :
    {b : RingBuffer} (num n : ℕ) (out : Out)
    → IsValid b
    → Step b n
    → n < num
    → n ≤ used b
    → used b - n ≡ used (skip n b)
    → Reads (skip n b) (num - n) out
    → Reads b num (add64 n out.0, slice b.offset_read n b.buffer ++ out.1, out.2)
join-Reads {b} num n out v st lt le u r = ground (
  arith,
  length-contents v,
  drop-drop (num - n) n (contents b),
  take-add n (num - n) (contents b),
)

-- A copy that is short of what is wanted goes on at the start of the buffer.
read-recur :
    (f : ℕ) {b : RingBuffer} (num : ℕ)
    → IsValid b
    → num < 2 ^ 64
    → b.offset_write < b.offset_read
    → 0 < b.offset_write
    → b.buffer_size - b.offset_read < num
    → let n = b.buffer_size - b.offset_read in
      read (suc f) b num ≡ join n (slice b.offset_read n b.buffer) (read f (skip n b) (num - n))
unfolding read
read-recur f {b} num v w lt pos h =
    let n = b.buffer_size - b.offset_read in
    let e : max_read b ≡ n = ground arith in
    let e' : sub64 num n ≡ num - n = omega arith in
    let t : ltb n num ≡ true = ground arith in rw (e, t, e') (ground arith)

read-stop :
    (f : ℕ) {b : RingBuffer} (num n : ℕ)
    → IsValid b
    → b.offset_write < b.offset_read
    → 0 < num
    → n ≡ min num (b.buffer_size - b.offset_read)
    → (b.offset_write ≡ 0) ⊎ (num ≤ b.buffer_size - b.offset_read)
    → read (suc f) b num ≡ some (n, slice b.offset_read n b.buffer, skip n b)
unfolding read
read-stop f {b} num n v lt pos e h =
    let e' : max_read b ≡ b.buffer_size - b.offset_read = ground arith in rw (e', e) (ground arith)

read-round :
    {b : RingBuffer} (f num : ℕ)
    → IsValid b
    → num < 2 ^ 64
    → b.offset_write < b.offset_read
    → (out : Out) × (read (suc (suc f)) b num ≡ some out) × Reads b num out
unfolding read
read-round {b} f num v w lt =
    let m = b.buffer_size - b.offset_read in
    elim (ℕ_discrete num 0) [
      | yes z ↦ ((0, [], b), ground arith, none-Reads num v (omega arith))
      | no nz ↦ elim (dec_lt num m) [
        | yes p ↦ (
          (num, slice b.offset_read num b.buffer, skip num b),
          read-stop (suc f) num num v lt (omega arith) (omega arith) (inr (omega arith)),
          stop-Reads num num v (skip-below num v lt p) (ground arith),
        )
        | no p ↦
            let st = skip-to_end m v lt refl in
            elim (ℕ_discrete b.offset_write 0) [
              | yes e ↦ (
                (m, slice b.offset_read m b.buffer, skip m b),
                read-stop (suc f) num m v lt (omega arith) (omega arith) (inl e),
                stop-Reads num m v st (ground arith),
              )
              | no ne ↦ elim (ℕ_discrete num m) [
                | yes e ↦ (
                  (m, slice b.offset_read m b.buffer, skip m b),
                  read-stop (suc f) num m v lt (omega arith) (omega arith) (inr (omega arith)),
                  stop-Reads num m v st (ground arith),
                )
                | no q ↦
                    let (out, run, r) = read-ahead f (num - m) st.0 (ground arith) in
                    (
                      (add64 m out.0, slice b.offset_read m b.buffer ++ out.1, out.2),
                      rw (read-recur (suc f) num v w lt (omega arith) (omega arith), run),
                      join-Reads num m out v st (omega arith) (ground arith) (ground arith) r,
                    )
              ]
            ]
      ]
    ]

-- A read of `num` bytes from a valid buffer returns, with two levels of recursion at most: the oldest
-- bytes, as many as asked for and there, in order; it leaves the others, the write side alone, and
-- counts what it read.
pub read-contents :
    (f num : ℕ) {b : RingBuffer}
    → IsValid b
    → num < 2 ^ 64
    → (out : Out) × (read (suc (suc f)) b num ≡ some out) × Reads b num out
read-contents f num {b} v w = elim (dec_lt b.offset_write b.offset_read) [
  | yes p ↦ read-round f num v w p
  | no p ↦ read-ahead (suc f) num v (omega arith)
]
