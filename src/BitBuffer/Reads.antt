-- ===== src/BitBuffer/Reads.antt =====
-- What `bitbuffer_read32` returns.
use Prim.Native.Nat.{bit_or}
use mathlib.Core.Path.{subst}
use native.Mathlib.Nat.{add_comm}
use foundation_lib.Prelude.{
  ℕ, ◌+◌, ◌-◌, ◌*◌, ◌/◌, ◌^◌, ◌≤◌, ◌<◌, ◌≡◌, refl, sym, ap, ◌∙◌, ◌⊎◌, inl, inr, true, false, ◌++◌,
  arith, dec_lt, ℕ_discrete, ltb, leb, ◌==◌, if◌then◌else◌, length, length-append, take, drop,
  length-drop, add64,
}
use foundation_lib.Prelude.Pow.{two_pow-pos, or-shift}
use foundation_lib.BitBuffer.{WordStream, BitBuffer, mask, get, read_pending, read_more, read32}
use foundation_lib.BitBuffer.Bits.{to_bits, length-to_bits, to_bits-mod}
use foundation_lib.BitBuffer.Words.{length-words_bits, words_bits}
use foundation_lib.BitBuffer.Reader.{
  IsReader, unread, Takes, get-unread, used, inside-Takes, read-inside, Takes-join, ret_all,
  div-one,
}

module _ (s : WordStream) where
  open s use {State}

  -- The next word is fetched for the `rest` bits that the word at hand has not.
  more-Takes :
      {b : BitBuffer State} (rest low : ℕ)
      → IsReader s b
      → b.offset_read ≤ 32
      → rest ≤ 32
      → b.position < length b.words
      → low ≡ mask (32 - b.offset_read) (b.pending_read / 2 ^ b.offset_read)
      → Takes s b (32 - b.offset_read + rest) (
          read_more s
            (32 - b.offset_read + rest)
            (32 - b.offset_read)
            low
            (used s (32 - b.offset_read) b))
  unfolding read_more
  more-Takes {b} rest low r off le room e =
      let cur = 32 - b.offset_read in
      let u = used s cur b in
      let full : b.offset_read + cur ≡ 32 = omega arith in
      let ru : IsReader s u = record {
        memory = r.memory;
        offset = omega arith;
        word = r.word;
        words = r.words;
      } in
      let (rc, start, ahead, same) = get-unread s ru room in
      let c = get s u in
      let small : low < 2 ^ cur = omega (arith, two_pow-pos cur) in
      let left : cur + rest - cur ≡ rest = omega arith in
      let value : mask rest (c.pending_read / 2 ^ c.offset_read) ≡ mask rest c.pending_read =
        ap (mask rest) (ap (λ n. c.pending_read / 2 ^ n) start ∙ div-one c.pending_read) in
      let after : c.offset_read + rest ≡ rest = omega arith in
      let split : unread s b ≡ to_bits cur low ++ unread s c =
        ap (λ l. l ++ words_bits b.swap (drop b.position b.words))
          (sym (ap (to_bits cur) e ∙ to_bits-mod cur (b.pending_read / 2 ^ b.offset_read)))
        ∙ ap (λ l. to_bits cur low ++ l) (sym ahead) in
      let t =
        Takes-join s {c' = used s rest c} cur rest low
          (mask rest (c.pending_read / 2 ^ c.offset_read)) small split same
          (inside-Takes s rest rc (omega arith)) in
      let joined : bit_or (mask rest c.pending_read * 2 ^ cur) low
          ≡ low + mask rest (c.pending_read / 2 ^ c.offset_read) * 2 ^ cur =
        or-shift cur (mask rest c.pending_read) low small
        ∙ add_comm (mask rest c.pending_read * 2 ^ cur) low
        ∙ ap (λ v. low + v * 2 ^ cur) (sym value) in
      rw (left, joined)
        (subst
          (λ n. Takes s b (cur + rest) (
            low + mask rest (c.pending_read / 2 ^ c.offset_read) * 2 ^ cur,
            record c { offset_read = n; count_read = add64 c.count_read rest },
          ))
          after t)

  read-across :
      {b : BitBuffer State} (bits : ℕ)
      → IsReader s b
      → bits ≤ 32
      → 32 < b.offset_read + bits
      → b.position < length b.words
      → Takes s b bits (read_pending s bits b)
  unfolding read_pending
  read-across {b} bits r le over room =
      let cur = 32 - b.offset_read in
      let off = r.offset in
      let e : (if ltb bits cur then bits else cur) ≡ cur = ground arith in
      let t : (cur == bits) ≡ false = ground arith in
      let sum : cur + (bits - cur) ≡ bits = omega arith in
      rw (e, ret_all b.offset_read cur b.pending_read r.word (omega arith), t)
        (subst
          (λ n.
            Takes s b n
              (read_more s n cur (mask cur (b.pending_read / 2 ^ b.offset_read)) (used s cur b)))
          sum
          (more-Takes (bits - cur) (mask cur (b.pending_read / 2 ^ b.offset_read)) r off
            (omega arith) room refl))

  -- Before the read, a fresh word is fetched when the word at hand is used up.
  fetched-unread :
      {b : BitBuffer State}
      → IsReader s b
      → b.position < length b.words ⊎ (b.offset_read < 32)
      → let c = if leb 32 b.offset_read then get s b else b in
        IsReader s c × (c.offset_read < 32) × (unread s c ≡ unread s b) × (c.swap ≡ b.swap)
  unfolding to_bits
  fetched-unread {b} r h = elim (dec_lt b.offset_read 32) [
    | yes p ↦ let t : leb 32 b.offset_read ≡ false = ground arith in rw t (r, p, refl, refl)
    | no np ↦
        let t : leb 32 b.offset_read ≡ true = ground arith in
        let room : b.position < length b.words = ground arith in
        let off = r.offset in
        let (rc, start, ahead, same) = get-unread s r room in
        let used_up : 32 - b.offset_read ≡ 0 = omega arith in
        let none_left : unread s b ≡ words_bits b.swap (drop b.position b.words) =
          ap
            (λ n.
              to_bits n (b.pending_read / 2 ^ b.offset_read)
              ++ words_bits b.swap (drop b.position b.words))
            used_up in
        rw t (rc, omega arith, ahead ∙ sym none_left, same)
  ]

  length-unread :
      (b : BitBuffer State)
      → length (unread s b) ≡ 32 - b.offset_read + 32 * (length b.words - b.position)
  length-unread b = omega (
    arith,
    length-append (to_bits (32 - b.offset_read) (b.pending_read / 2 ^ b.offset_read))
        (words_bits b.swap (drop b.position b.words)),
    length-to_bits (32 - b.offset_read) (b.pending_read / 2 ^ b.offset_read),
    length-words_bits b.swap (drop b.position b.words),
    length-drop b.position b.words,
  )

  -- A read of up to 32 bits, where so many are left, returns them and leaves the others.
  pub read32-Takes :
      (bits : ℕ) {b : BitBuffer State}
      → IsReader s b
      → bits ≤ 32
      → bits ≤ length (unread s b)
      → Takes s b bits (read32 s b bits)
  unfolding read32 to_bits
  read32-Takes bits {b} r le room = elim (ℕ_discrete bits 0) [
    | yes z ↦
        rw z
          (record { small = omega arith; bits_read = refl; rest = refl; reader = r; swap = refl })
    | no nz ↦
        let t : (bits == 0) ≡ false = ground arith in
        let whole : (if ltb 32 bits then 32 else bits) ≡ bits = ground arith in
        let n = length-unread b in
        let c = if leb 32 b.offset_read then get s b else b in
        let (rc, open_word, same, swap) =
          fetched-unread r
            (elim (dec_lt b.offset_read 32) [ yes p ↦ inr p | no np ↦ inl (omega arith) ]) in
        let n' = length-unread c in
        let as_long : length (unread s c) ≡ length (unread s b) = ap length same in
        let tk : Takes s c bits (read_pending s bits c) = elim (dec_lt 32 (c.offset_read + bits)) [
          | yes p ↦ read-across bits rc le p (omega arith)
          | no np ↦ read-inside s bits rc (omega arith) (omega arith)
        ] in
        rw (t, whole)
          (record {
            small = tk.small;
            bits_read = tk.bits_read ∙ ap (take bits) same;
            rest = tk.rest ∙ ap (drop bits) same;
            reader = tk.reader;
            swap = tk.swap ∙ swap;
          })
  ]
