-- ===== src/RingBuffer/Queue.antt =====
-- A ring buffer of `size` bytes, seen by its client: a queue of at most `size - 1` bytes.
use mathlib.Core.Option
use foundation_lib.Prelude.{
  ℕ, ◌-◌, ◌<◌, ◌^◌, ◌≡◌, refl, some, none, Option, List, ◌∷◌, [], ◌++◌, length, take, drop, min, ap,
  ◌∙◌, sym, dec_lt, take_all, drop_all, arith,
}
use foundation_lib.RingBuffer.{RingBuffer, initialize, reset, read, write}
use foundation_lib.RingBuffer.Contents.{IsValid, contents, length-contents}
use foundation_lib.RingBuffer.Read.{read-contents}
use foundation_lib.RingBuffer.Write.{write-contents}

-- A client's calls.
pub data Op : Type 0 where
  put : List ℕ → Op
  get : ℕ → Op
  clear : Op

-- The number that a call returns, and the bytes that it delivers.
abbrev pub Reply : Type 0
Reply = ℕ × List ℕ

-- The calls in order, on the ring buffer.
unfoldable pub run : RingBuffer → List Op → Option (List Reply)
run b [] = some []
run b (put source ∷ ops) = elim (write 2 b source) [
  | none ↦ none
  | some (n, b') ↦ Option.map (λ rs. (n, []) ∷ rs) (run b' ops)
]
run b (get num ∷ ops) = elim (read 2 b num) [
  | none ↦ none
  | some (n, bytes, b') ↦ Option.map (λ rs. (n, bytes) ∷ rs) (run b' ops)
]
run b (clear ∷ ops) = Option.map (λ rs. (0, []) ∷ rs) (run (reset b) ops)

-- The calls in order, on a queue with room for `cap` bytes.
pub replies : ℕ → List ℕ → List Op → List Reply
replies cap q [] = []
replies cap q (put source ∷ ops) =
    let n = min (length source) (cap - length q) in (n, []) ∷ replies cap (q ++ take n source) ops
replies cap q (get num ∷ ops) =
    let n = min num (length q) in (n, take n q) ∷ replies cap (drop n q) ops
replies cap q (clear ∷ ops) = (0, []) ∷ replies cap [] ops

-- A number of bytes that is asked for is a `size_t`.
abbrev pub Fits : List Op → Type 0
Fits [] = Unit
Fits (get num ∷ ops) = (num < 2 ^ 64) × Fits ops
Fits (put source ∷ ops) = Fits ops
Fits (clear ∷ ops) = Fits ops

-- `ringbuffer_initialize` makes a valid buffer that is empty, of all the block that it is given.
pub initialize-IsValid :
    (memory : List ℕ)
    → 0 < length memory
    → length memory < 2 ^ 64
    → IsValid (initialize memory (length memory))
      × (contents (initialize memory (length memory)) ≡ [])
unfolding initialize
initialize-IsValid memory pos word = ground arith

pub reset-IsValid : {b : RingBuffer} → IsValid b → IsValid (reset b) × (contents (reset b) ≡ [])
unfolding reset
reset-IsValid v = ground arith

reset-size : (b : RingBuffer) → (reset b).buffer_size ≡ b.buffer_size
unfolding reset
reset-size b = refl

take-min : (n : ℕ) (q : List ℕ) → take (min n (length q)) q ≡ take n q
take-min n q = elim (dec_lt n (length q)) [
  | yes p ↦ ap (λ k. take k q) (omega arith)
  | no p ↦ take_all _ q (omega arith) ∙ sym (take_all n q (omega arith))
]

drop-min : (n : ℕ) (q : List ℕ) → drop (min n (length q)) q ≡ drop n q
drop-min n q = elim (dec_lt n (length q)) [
  | yes p ↦ ap (λ k. drop k q) (omega arith)
  | no p ↦ drop_all _ q (omega arith) ∙ sym (drop_all n q (omega arith))
]

take-min_left : (n : ℕ) (q : List ℕ) → take (min (length q) n) q ≡ take n q
take-min_left n q = elim (dec_lt n (length q)) [
  | yes p ↦ ap (λ k. take k q) (omega arith)
  | no p ↦ take_all _ q (omega arith) ∙ sym (take_all n q (omega arith))
]

-- No sequence of writes, reads and resets tells a valid ring buffer from the bounded queue of its
-- contents, and none of its calls runs deeper than two levels: every number that a call returns and
-- every byte that it delivers is the queue's.
pub run_refines :
    (ops : List Op) {b : RingBuffer}
    → Fits ops
    → IsValid b
    → run b ops ≡ some (replies (b.buffer_size - 1) (contents b) ops)
unfolding run replies
run_refines [] fits v = refl
run_refines (put source ∷ ops) {b} fits v =
    let (out, e, w) = write-contents 0 source v in
    let next = run_refines ops fits w.valid in
    rw (e, run, next, w.count, w.bytes, w.size, length-contents v, take-min_left)
run_refines (get num ∷ ops) {b} fits v =
    let (out, e, r) = read-contents 0 num v fits.0 in
    let next = run_refines ops fits.1 r.valid in
    rw (e, run, next, r.count, r.bytes, r.size, r.rest, ← length-contents v, take-min, drop-min)
run_refines (clear ∷ ops) {b} fits v =
    let (v', e) = reset-IsValid v in
    let size : (reset b).buffer_size ≡ b.buffer_size = reset-size b in
    rw (run_refines ops fits v', e, size)
