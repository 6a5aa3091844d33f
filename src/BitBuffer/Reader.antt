-- ===== src/BitBuffer/Reader.antt =====
-- What `bitbuffer_read32` takes from the bits of a block of memory.
use native.Mathlib.Nat.{div-div-eq-div-mul}
use foundation_lib.Prelude.{
  ℕ, ◌+◌, ◌-◌, ◌*◌, ◌/◌, ◌^◌, ◌≤◌, ◌<◌, ◌≡◌, refl, sym, ap, ap₂, ◌∙◌, true, none, List, ◌++◌, arith,
  ℕ_discrete, ltb, ◌==◌, if◌then◌else◌, length, get_or, take, drop, take-append_le, take-append_ge,
  drop-append_le, drop-append_ge, add64,
}
use foundation_lib.Prelude.Pow.{two_pow-pos, two_pow-add}
use foundation_lib.BitBuffer.{WordStream, BitBuffer, swapped, mask, get, read_pending}
use foundation_lib.BitBuffer.Bits.{
  to_bits, length-to_bits, to_bits-add, to_bits-mod, take-to_bits, drop-to_bits,
}
use foundation_lib.BitBuffer.Words.{AllWords, AllWords-get_or, drop-get_or, swapped-lt, words_bits}

pub ret_all :
    (off bits pending : ℕ)
    → pending < 2 ^ 32
    → off + bits ≤ 32
    → (if bits == 32 then pending else mask bits (pending / 2 ^ off))
      ≡ mask bits (pending / 2 ^ off)
ret_all off bits pending small h = elim (ℕ_discrete bits 32) [
  | yes e ↦ let z : off ≡ 0 = omega arith in rw (e, z) (omega arith)
  | no ne ↦ ground arith
]

shift-shift : (w m n : ℕ) → w / 2 ^ m / 2 ^ n ≡ w / 2 ^ (m + n)
shift-shift w m n = div-div-eq-div-mul w (2 ^ m) (2 ^ n) ∙ ap (λ d. w / d) (sym (two_pow-add m n))

pub div-one : (w : ℕ) → w / 2 ^ 0 ≡ w
div-one w = omega arith

module _ (s : WordStream) where
  open s use {State}

  -- A reader of a block of memory, between two calls.
  pub record IsReader (b : BitBuffer State) : Type 0 where
    pub memory : b.stream ≡ none
    pub offset : b.offset_read ≤ 32
    pub word : b.pending_read < 2 ^ 32
    pub words : AllWords b.words

  -- The bits that it has not delivered yet.
  abbrev pub unread : BitBuffer State → List ℕ
  unread b =
      to_bits (32 - b.offset_read) (b.pending_read / 2 ^ b.offset_read)
      ++ words_bits b.swap (drop b.position b.words)

  -- What a read of `bits` bits returns.
  pub record Takes (b : BitBuffer State) (bits : ℕ) (out : ℕ × BitBuffer State) : Type 0 where
    pub small : out.0 < 2 ^ bits
    pub bits_read : to_bits bits out.0 ≡ take bits (unread b)
    pub rest : unread out.1 ≡ drop bits (unread b)
    pub reader : IsReader out.1
    pub swap : out.1.swap ≡ b.swap

  pub get-unread :
      {b : BitBuffer State}
      → IsReader b
      → b.position < length b.words
      → IsReader (get s b)
        × ((get s b).offset_read ≡ 0)
        × (unread (get s b) ≡ words_bits b.swap (drop b.position b.words))
        × ((get s b).swap ≡ b.swap)
  unfolding get words_bits
  get-unread {b} r h =
      let test : ltb b.position (length b.words) ≡ true = ground arith in
      let w = get_or b.words b.position 0 in
      let here : words_bits b.swap (drop b.position b.words)
          ≡ to_bits 32 (swapped b.swap w) ++ words_bits b.swap (drop (b.position + 1) b.words) =
        ap (words_bits b.swap) (drop-get_or b.position b.words h) in
      rw test (
        record {
          memory = r.memory;
          offset = omega arith;
          word = swapped-lt b.swap w (AllWords-get_or b.position b.words r.words);
          words = r.words;
        },
        refl,
        ap (λ v. to_bits 32 v ++ words_bits b.swap (drop (b.position + 1) b.words)) (omega arith)
            ∙ sym here,
        refl,
      )

  -- The reader, after it delivered `n` bits of the word at hand.
  abbrev pub used : ℕ → BitBuffer State → BitBuffer State
  used n b = record b { offset_read = b.offset_read + n; count_read = add64 b.count_read n }

  -- The word at hand has the bits.
  pub inside-Takes :
      {b : BitBuffer State} (bits : ℕ)
      → IsReader b
      → b.offset_read + bits ≤ 32
      → Takes b bits (mask bits (b.pending_read / 2 ^ b.offset_read), used bits b)
  inside-Takes {b} bits r fits =
      let p = b.pending_read / 2 ^ b.offset_read in
      let ws = words_bits b.swap (drop b.position b.words) in
      let long : bits ≤ length (to_bits (32 - b.offset_read) p) =
        omega (arith, length-to_bits (32 - b.offset_read) p) in
      let less : 32 - b.offset_read - bits ≡ 32 - (b.offset_read + bits) = omega arith in
      record {
        small = omega (arith, two_pow-pos bits);
        bits_read =
            to_bits-mod bits p
            ∙ sym (take-to_bits bits (32 - b.offset_read) p (omega arith))
            ∙ sym (take-append_le bits (to_bits (32 - b.offset_read) p) ws long);
        rest =
            ap (λ t. t ++ ws)
              (ap₂ to_bits (sym less) (sym (shift-shift b.pending_read b.offset_read bits))
                ∙ sym (drop-to_bits bits (32 - b.offset_read) p (omega arith)))
            ∙ sym (drop-append_le bits (to_bits (32 - b.offset_read) p) ws long);
        reader = record { memory = r.memory; offset = fits; word = r.word; words = r.words };
        swap = refl;
      }

  pub read-inside :
      {b : BitBuffer State} (bits : ℕ)
      → IsReader b
      → 0 < bits
      → b.offset_read + bits ≤ 32
      → Takes b bits (read_pending s bits b)
  unfolding read_pending
  read-inside {b} bits r pos fits =
      let e : (if ltb bits (32 - b.offset_read) then bits else 32 - b.offset_read) ≡ bits =
        ground arith in
      let t : (bits == bits) ≡ true = ground arith in
      rw (e, ret_all b.offset_read bits b.pending_read r.word fits, t) (inside-Takes bits r fits)

  -- A value that is the last `cur` bits of one word and the first `rest` bits of what follows.
  pub Takes-join :
      {b c c' : BitBuffer State} (cur rest low high : ℕ)
      → low < 2 ^ cur
      → unread b ≡ to_bits cur low ++ unread c
      → c.swap ≡ b.swap
      → Takes c rest (high, c')
      → Takes b (cur + rest) (low + high * 2 ^ cur, c')
  Takes-join {b} {c} {c'} cur rest low high small e same t =
      let n = length-to_bits cur low in
      let left : cur + rest - length (to_bits cur low) ≡ rest = omega arith in
      let long : length (to_bits cur low) ≤ cur + rest = omega arith in
      record {
        small =
            let power : 2 ^ (cur + rest) ≡ 2 ^ rest * 2 ^ cur =
              omega (arith, two_pow-add cur rest) in
            let pos = two_pow-pos cur in
            let h = t.small in
            let room : high * 2 ^ cur + 2 ^ cur ≤ 2 ^ rest * 2 ^ cur = grind arith in omega arith;
        bits_read =
            to_bits-add cur rest low high small
            ∙ ap (λ l. to_bits cur low ++ l) t.bits_read
            ∙ sym (
                ap (take (cur + rest)) e
                ∙ take-append_ge (cur + rest) (to_bits cur low) (unread c) long
                ∙ ap (λ k. to_bits cur low ++ take k (unread c)) left);
        rest =
            t.rest
            ∙ sym (
                ap (drop (cur + rest)) e
                ∙ drop-append_ge (cur + rest) (to_bits cur low) (unread c) long
                ∙ ap (λ k. drop k (unread c)) left);
        reader = t.reader;
        swap = t.swap ∙ same;
      }
