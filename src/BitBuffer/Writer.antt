-- ===== src/BitBuffer/Writer.antt =====
-- What `bitbuffer_write32` adds to the bits of a block of memory.
use Prim.Native.Nat.{bit_or}
use mathlib.Core.Path.{subst}
use native.Mathlib.Nat.{pow-le-pow_right}
use foundation_lib.Prelude.{
  ℕ, ◌+◌, ◌-◌, ◌*◌, ◌/◌, ◌%◌, ◌^◌, ◌≤◌, ◌<◌, ◌≡◌, refl, sym, ap, ap₂, ◌∙◌, true, false, none, List,
  [], ◌∷◌, ◌++◌, append_assoc, append-nil, arith, dec_lt, ℕ_discrete, ltb, ◌==◌, if◌then◌else◌,
  length, length-set, take, take-set_end, add64,
}
use foundation_lib.Prelude.Pow.{two_pow-pos, two_pow-add, or-shift}
use foundation_lib.BitBuffer.{WordStream, BitBuffer, swapped, mask, put, write_pending, write32}
use foundation_lib.BitBuffer.Bits.{to_bits, to_bits-add, to_bits-split, to_bits-mod}
use foundation_lib.BitBuffer.Words.{
  swapped-swapped, words_bits, words_bits-append, AllWords, AllWords-set, swapped-lt,
}

-- A field `low` of `cur` bits above the `off` bits of `pending`.
pack :
    (off cur pending low : ℕ)
    → pending < 2 ^ off
    → low < 2 ^ cur
    → off + cur ≤ 32
    → let p = bit_or (low * 2 ^ off % 2 ^ 32) pending in
      (p < 2 ^ (off + cur)) × (to_bits (off + cur) p ≡ to_bits off pending ++ to_bits cur low)
pack off cur pending low h l fits =
    let power : 2 ^ (off + cur) ≡ 2 ^ cur * 2 ^ off = omega (arith, two_pow-add off cur) in
    let top : 2 ^ (off + cur) ≤ 2 ^ 32 = pow-le-pow_right (omega arith) fits in
    let small : low * 2 ^ off + 2 ^ off ≤ 2 ^ cur * 2 ^ off = grind arith in
    let pos = two_pow-pos off in
    let whole : low * 2 ^ off % 2 ^ 32 ≡ low * 2 ^ off = omega arith in
    let e = or-shift off low pending h in
    rw (whole, e)
      (omega arith, ap (to_bits (off + cur)) (omega arith) ∙ to_bits-add off cur pending low h)

low_all :
    (cur value : ℕ)
    → value < 2 ^ 32
    → (if cur == 32 then value else mask cur value) ≡ mask cur value
low_all cur value h = elim (ℕ_discrete cur 32) [ yes e ↦ rw e (omega arith) | no ne ↦ ground arith ]

module _ (s : WordStream) where
  open s use {State}

  -- A writer on a block of memory, between two calls.
  pub record IsWriter (b : BitBuffer State) : Type 0 where
    pub memory : b.stream ≡ none
    pub open_word : b.offset_write < 32
    pub fits : b.pending_write < 2 ^ b.offset_write
    pub inside : b.position ≤ length b.words
    pub words : AllWords b.words
    pub counted : b.count_write < 2 ^ 64

  -- The bits that it was given.
  abbrev pub written : BitBuffer State → List ℕ
  written b = words_bits b.swap (take b.position b.words) ++ to_bits b.offset_write b.pending_write

  -- How many they are.
  abbrev pub total : BitBuffer State → ℕ
  total b = 32 * b.position + b.offset_write

  -- What a write of the first `bits` bits of `value` does.
  pub record Appends (b : BitBuffer State) (value bits : ℕ) (b' : BitBuffer State) : Type 0 where
    pub writer : IsWriter b'
    pub appended : written b' ≡ written b ++ to_bits bits value
    pub total : total b' ≡ total b + bits
    pub size : length b'.words ≡ length b.words
    pub swap : b'.swap ≡ b.swap
    pub count : b'.count_write ≡ add64 b.count_write bits

  -- The word that is being filled, after the lower part of a value was put into it.
  abbrev filled : BitBuffer State → (cur value bits : ℕ) → BitBuffer State
  filled b cur value bits = record b {
    pending_write = bit_or (mask cur value * 2 ^ b.offset_write % 2 ^ 32) b.pending_write;
    offset_write = b.offset_write + cur;
    count_write = add64 b.count_write bits;
  }

  -- A full word goes to the block.
  pub put-words :
      (b : BitBuffer State)
      → b.position < length b.words
      → b.pending_write < 2 ^ 32
      → (words_bits b.swap (take (put s b).position (put s b).words)
          ≡ words_bits b.swap (take b.position b.words) ++ to_bits 32 b.pending_write)
        × ((put s b).position ≡ b.position + 1)
        × (length (put s b).words ≡ length b.words)
        × ((put s b).offset_write ≡ 0)
        × ((put s b).pending_write ≡ 0)
        × ((put s b).stream ≡ b.stream)
        × ((put s b).swap ≡ b.swap)
        × ((put s b).count_write ≡ b.count_write)
  unfolding put words_bits
  put-words b h small =
      let word = swapped b.swap b.pending_write in
      let test : ltb b.position (length b.words) ≡ true = ground arith in
      rw test (
        ap (words_bits b.swap) (take-set_end b.words b.position word h)
            ∙ words_bits-append b.swap (take b.position b.words) (word ∷ [])
            ∙ ap (λ t. words_bits b.swap (take b.position b.words) ++ t)
                (append-nil _ ∙ ap (to_bits 32) (swapped-swapped b.swap b.pending_write small)),
        refl,
        length-set b.words b.position word,
        refl,
        refl,
        refl,
        refl,
        refl,
      )

  pub put-AllWords :
      (b : BitBuffer State)
      → AllWords b.words
      → b.position < length b.words
      → b.pending_write < 2 ^ 32
      → AllWords (put s b).words
  unfolding put
  put-AllWords b h room small =
      let test : ltb b.position (length b.words) ≡ true = ground arith in
      rw test (
        AllWords-set b.words b.position (swapped b.swap b.pending_write) h
          (swapped-lt b.swap b.pending_write small))

  mask-lt : (n v : ℕ) → mask n v < 2 ^ n
  mask-lt n v = omega (arith, two_pow-pos n)

  packed :
      {b : BitBuffer State} (cur value bits : ℕ)
      → IsWriter b
      → b.offset_write + cur ≤ 32
      → let p = (filled b cur value bits).pending_write in
        (p < 2 ^ (b.offset_write + cur))
        × (to_bits (b.offset_write + cur) p
            ≡ to_bits b.offset_write b.pending_write ++ to_bits cur value)
  packed {b} cur value bits w fits =
      let (lt, e) =
        pack b.offset_write cur b.pending_write (mask cur value) w.fits (mask-lt cur value) fits in
      (lt, e ∙ ap (λ t. to_bits b.offset_write b.pending_write ++ t) (to_bits-mod cur value))

  -- The value fits the word that is being filled.
  write-inside :
      {b : BitBuffer State} (value bits : ℕ)
      → IsWriter b
      → b.offset_write + bits < 32
      → 0 < bits
      → (write_pending s value bits b ≡ filled b bits value bits)
        × Appends b value bits (filled b bits value bits)
  unfolding write_pending
  write-inside {b} value bits w room pos =
      let (lt, e) = packed bits value bits w (omega arith) in
      (
        ground arith,
        record {
          writer = record {
            memory = w.memory;
            open_word = room;
            fits = lt;
            inside = w.inside;
            words = w.words;
            counted = omega arith;
          };
          appended =
              ap (λ t. words_bits b.swap (take b.position b.words) ++ t) e
              ∙ sym (
                  append_assoc (words_bits b.swap (take b.position b.words))
                    (to_bits b.offset_write b.pending_write) (to_bits bits value));
          total = omega arith;
          size = refl;
          swap = refl;
          count = refl;
        },
      )

  -- It fills the word, and goes on in the next with the `rest` bits that are left.
  abbrev carried : BitBuffer State → (rest high : ℕ) → BitBuffer State
  carried b rest high = record b { pending_write = high; offset_write = rest }

  put_clears : (b : BitBuffer State) → put s b ≡ carried (put s b) 0 0
  unfolding put
  put_clears b = ground arith

  write-across :
      {b : BitBuffer State} (value bits : ℕ)
      → IsWriter b
      → value < 2 ^ 32
      → bits ≤ 32
      → 32 ≤ b.offset_write + bits
      → let cur = 32 - b.offset_write in
        write_pending s value bits b
        ≡ carried
            (put s (filled b cur value bits))
            (bits - cur)
            (mask (bits - cur) (value / 2 ^ cur))
  unfolding write_pending
  write-across {b} value bits w small le full =
      let cur = 32 - b.offset_write in
      let top = w.open_word in
      let least : (if ltb bits cur then bits else cur) ≡ cur = ground arith in
      let low : (if cur == 32 then value else mask cur value) ≡ mask cur value =
        low_all cur value small in
      let end : (b.offset_write + cur == 32) ≡ true = ground arith in
      elim (ℕ_discrete cur bits) [
        | yes e ↦
            let c = filled b cur value bits in
            let none_left : bits - cur ≡ 0 = omega arith in
            let t : (cur == bits) ≡ true = ground arith in
            let zero_left : mask (bits - cur) (value / 2 ^ cur) ≡ 0 = rw none_left (omega arith) in
            rw (least, low, end, t)
              (put_clears c ∙ ap₂ (carried (put s c)) (sym none_left) (sym zero_left))
        | no ne ↦ rw (least, low, end) (ground arith)
      ]

  across-Appends :
      {b : BitBuffer State} (value bits : ℕ)
      → IsWriter b
      → value < 2 ^ 32
      → bits ≤ 32
      → 32 ≤ b.offset_write + bits
      → b.position < length b.words
      → Appends b value bits (write_pending s value bits b)
  across-Appends {b} value bits w small le full room =
      let cur = 32 - b.offset_write in
      let rest = bits - cur in
      let c = filled b cur value bits in
      let top = w.open_word in
      let end : b.offset_write + cur ≡ 32 = omega arith in
      let (lt, e) = packed cur value bits w (omega arith) in
      let (words, position, size, _, _, memory, swap, count) =
        put-words c room (subst (λ n. c.pending_write < 2 ^ n) end lt) in
      let high = mask rest (value / 2 ^ cur) in
      let word_bits : to_bits 32 c.pending_write
          ≡ to_bits b.offset_write b.pending_write ++ to_bits cur value =
        ap (λ n. to_bits n c.pending_write) (sym end) ∙ e in
      let value_bits : to_bits bits value ≡ to_bits cur value ++ to_bits rest (value / 2 ^ cur) =
        ap (λ n. to_bits n value) (omega arith) ∙ to_bits-split cur rest value in
      rw (write-across value bits w small le full) (record {
        writer = record {
          memory = memory ∙ w.memory;
          open_word = omega arith;
          fits = mask-lt rest (value / 2 ^ cur);
          inside = omega (arith, position, size);
          words = put-AllWords c w.words room (subst (λ n. c.pending_write < 2 ^ n) end lt);
          counted = omega (arith, count);
        };
        appended =
            ap
              (λ swap.
                words_bits swap (take (put s c).position (put s c).words) ++ to_bits rest high)
              swap
            ∙ ap₂ ◌++◌ words (to_bits-mod rest (value / 2 ^ cur))
            ∙ rw (word_bits, value_bits) (simp append_assoc);
        total = omega (arith, position);
        size = size;
        swap = swap;
        count = count;
      })

  -- A write of the first `bits` bits of a `uint32_t` to a block of memory that has room for them adds
  -- these bits behind those that were written, and counts them; the block keeps its size.
  pub write32-Appends :
      (value bits : ℕ) {b : BitBuffer State}
      → IsWriter b
      → value < 2 ^ 32
      → bits ≤ 32
      → total b + bits ≤ 32 * length b.words
      → Appends b value bits (write32 s b value bits)
  unfolding write32 to_bits
  write32-Appends value bits {b} w small le room = elim (ℕ_discrete bits 0) [
    | yes z ↦ rw z (record {
      writer = w;
      appended = sym (append-nil (written b));
      total = omega arith;
      size = refl;
      swap = refl;
      count = omega (arith, w.counted);
    })
    | no nz ↦
        let t : (bits == 0) ≡ false = ground arith in
        let whole : (if ltb 32 bits then 32 else bits) ≡ bits = ground arith in
        rw (t, whole)
          (elim (dec_lt (b.offset_write + bits) 32) [
            | yes p ↦ let (e, a) = write-inside value bits w p (omega arith) in rw e a
            | no p ↦ across-Appends value bits w small le (omega arith) (omega arith)
          ])
  ]
