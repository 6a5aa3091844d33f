-- ===== src/BitBuffer/Fields.antt =====
-- What `bitbuffer_write64` and `bitbuffer_align_write` add to the bits of a block of memory.
use mathlib.Core.Path.{subst}
use native.Mathlib.Nat.{pow-le-pow_right}
use foundation_lib.Prelude.{
  ℕ, ◌+◌, ◌-◌, ◌*◌, ◌/◌, ◌%◌, ◌^◌, ◌≤◌, ◌<◌, ◌≡◌, refl, sym, ap, ap₂, ◌∙◌, true, false, ◌&&◌, ◌++◌,
  append_assoc, append-nil, arith, dec_lt, Bool, not, Bool-cases, if_false, inl, inr, ltb, leb,
  ◌==◌, if◌then◌else◌, length, take, add64,
}
use foundation_lib.Prelude.Pow.{two_pow-pos}
use foundation_lib.BitBuffer.{WordStream, BitBuffer, put, write64, align_write}
use foundation_lib.BitBuffer.Bits.{to_bits, to_bits-add, to_bits-split, to_bits-mod, take-to_bits}
use foundation_lib.BitBuffer.Words.{words_bits}
use foundation_lib.BitBuffer.Writer.{
  IsWriter, written, total, Appends, put-words, put-AllWords, write32-Appends,
}

low_bits : (value bits : ℕ) → bits ≤ 32 → to_bits bits (value % 2 ^ 32) ≡ to_bits bits value
low_bits value bits le =
    sym (take-to_bits bits 32 (value % 2 ^ 32) le)
    ∙ ap (take bits) (to_bits-mod 32 value)
    ∙ take-to_bits bits 32 value le

-- A value is its lower and its upper word.
fields :
    (value bits : ℕ)
    → 32 < bits
    → bits ≤ 64
    → to_bits (32 + (bits - 32)) (value % 2 ^ 32 + value / 2 ^ 32 % 2 ^ 32 * 2 ^ 32)
      ≡ to_bits bits value
fields value bits p le =
    let sum : 32 + (bits - 32) ≡ bits = omega arith in
    let v = value / 2 ^ 32 in
    let high : to_bits (bits - 32) (v % 2 ^ 32) ≡ to_bits (bits - 32) v =
      low_bits v (bits - 32) (omega arith) in
    to_bits-add 32 (bits - 32) (value % 2 ^ 32) (v % 2 ^ 32) (omega arith)
    ∙ ap₂ ◌++◌ (to_bits-mod 32 value) high
    ∙ sym (to_bits-split 32 (bits - 32) value)
    ∙ ap (λ n. to_bits n value) sum

module _ (s : WordStream) where
  open s use {State}

  -- A write of up to 64 bits is two writes of up to 32.
  pub write64-Appends :
      (value bits : ℕ) {b : BitBuffer State}
      → IsWriter s b
      → bits ≤ 64
      → total s b + bits ≤ 32 * length b.words
      → Appends s b value bits (write64 s b value bits)
  unfolding write64
  write64-Appends value bits {b} w le room = elim (dec_lt 32 bits) [
    | yes p ↦
        let t : leb bits 32 ≡ false = ground arith in
        let whole : (if ltb 64 bits then 64 else bits) ≡ bits = ground arith in
        let low = value % 2 ^ 32 in
        let high = value / 2 ^ 32 % 2 ^ 32 in
        let one = write32-Appends s low 32 w (omega arith) (omega arith) (omega arith) in
        let two =
          write32-Appends s high (bits - 32) one.writer (omega arith) (omega arith)
            (omega (arith, one.total, one.size)) in
        rw (t, whole)
          (record {
            writer = two.writer;
            appended =
                two.appended
                ∙ ap (λ l. l ++ to_bits (bits - 32) high) one.appended
                ∙ append_assoc (written s b) (to_bits 32 low) (to_bits (bits - 32) high)
                ∙ ap (λ l. written s b ++ l)
                    (sym (to_bits-add 32 (bits - 32) low high (omega arith))
                      ∙ fields value bits p le);
            total = omega (arith, one.total, two.total);
            size = two.size ∙ one.size;
            swap = two.swap ∙ one.swap;
            count = two.count ∙ ap (λ c. add64 c (bits - 32)) one.count ∙ omega arith;
          })
    | no np ↦
        let t : leb bits 32 ≡ true = ground arith in
        let a = write32-Appends s (value % 2 ^ 32) bits w (omega arith) (omega arith) room in
        rw t (record {
          writer = a.writer;
          appended = a.appended ∙ ap (λ l. written s b ++ l) (low_bits value bits (omega arith));
          total = a.total;
          size = a.size;
          swap = a.swap;
          count = a.count;
        })
  ]

  pending-lt : {b : BitBuffer State} → IsWriter s b → b.pending_write < 2 ^ 32
  pending-lt {b} w =
      let le : b.offset_write ≤ 32 = omega (arith, w.open_word) in
      let top : 2 ^ b.offset_write ≤ 2 ^ 32 = pow-le-pow_right (omega arith) le in
      omega (arith, w.fits)

  -- How many zeros complete the open word; a forced write of an empty word is a word of them.
  abbrev pub padding : BitBuffer State → (force : Bool) → ℕ
  padding b force = if b.offset_write == 0 && not force then 0 else 32 - b.offset_write

  -- For a valid buffer in memory with room for the zeros, `align_write` completes the word that is being
  -- filled with zeros. To an empty word it adds nothing, or a whole word of zeros if it is forced. Then no
  -- word is open, the zeros are counted, and the invariant and the byte order stay.
  pub align_write-written :
      (force : Bool) {b : BitBuffer State}
      → IsWriter s b
      → total s b + padding b force ≤ 32 * length b.words
      → IsWriter s (align_write s b force)
        × (written s (align_write s b force) ≡ written s b ++ to_bits (padding b force) 0)
        × ((align_write s b force).offset_write ≡ 0)
        × ((align_write s b force).swap ≡ b.swap)
        × ((align_write s b force).count_write ≡ (b.count_write + padding b force) % 2 ^ 64)
  unfolding align_write to_bits
  align_write-written force {b} w room = elim (Bool-cases (b.offset_write == 0 && not force)) [
    | inl t ↦
        let z : b.offset_write ≡ 0 = ground arith in
        let same : b.count_write ≡ (b.count_write + 0) % 2 ^ 64 = omega (arith, w.counted) in
        rw t (w, sym (append-nil (written s b)), z, refl, same)
    | inr t ↦
        let inside : total s b + (32 - b.offset_write) ≤ 32 * length b.words =
          subst (λ n. total s b + n ≤ 32 * length b.words) (if_false 0 t) room in
        let c = record b { count_write = (b.count_write + 32 - b.offset_write) % 2 ^ 64 } in
        let open_word = w.open_word in
        let full : b.offset_write + (32 - b.offset_write) ≡ 32 = omega arith in
        let small = pending-lt w in
        let (words, position, size, offset, pending, memory, swap, count) =
          put-words s c (omega arith) small in
        let word : to_bits 32 b.pending_write
            ≡ to_bits b.offset_write b.pending_write ++ to_bits (32 - b.offset_write) 0 =
          ap₂ to_bits (sym full) (omega arith)
          ∙ to_bits-add b.offset_write (32 - b.offset_write) b.pending_write 0 w.fits in
        rw t (
          record {
            memory = memory ∙ w.memory;
            open_word = omega (arith, offset);
            fits = omega (arith, pending, two_pow-pos (put s c).offset_write);
            inside = omega (arith, position, size);
            words = put-AllWords s c w.words (omega arith) small;
            counted = omega (arith, count);
          },
          ap (λ l. l ++ to_bits (put s c).offset_write (put s c).pending_write)
                (ap (λ swap. words_bits swap (take (put s c).position (put s c).words)) swap
                  ∙ words)
              ∙ ap
                  (λ n.
                    (words_bits b.swap (take b.position b.words) ++ to_bits 32 b.pending_write)
                    ++ to_bits n (put s c).pending_write)
                  offset
              ∙ append-nil _
              ∙ ap (λ l. words_bits b.swap (take b.position b.words) ++ l) word
              ∙ sym (
                  append_assoc (words_bits b.swap (take b.position b.words))
                    (to_bits b.offset_write b.pending_write) (to_bits (32 - b.offset_write) 0)),
          offset,
          swap,
          count ∙ ap (λ n. n % 2 ^ 64) (omega arith),
        )
  ]
