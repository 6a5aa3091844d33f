-- ===== src/BitBuffer/RoundTrip.antt =====
-- Fields written by `bitbuffer_write64` and read back by `bitbuffer_read64`.
use Prim.Native.Nat.{bit_or}
use mathlib.Core.Path.{subst}
use native.Mathlib.Nat.{add_comm}
use foundation_lib.Prelude.{
  ℕ, ◌+◌, ◌-◌, ◌*◌, ◌^◌, ◌≤◌, ◌≡◌, refl, sym, ap, ap₂, ◌∙◌, Bool, true, false, List, [], ◌∷◌, ◌++◌,
  map, append_assoc, append-nil, arith, dec_lt, ltb, leb, if◌then◌else◌, length, length-append,
  take, drop, take-append-drop, length-drop, take-append_le, drop-append_le, take_all, drop_all,
}
use foundation_lib.Prelude.Pow.{two_pow-pos, or-shift}
use foundation_lib.BitBuffer.{
  WordStream, BitBuffer, initialize_buffer, mask, read32, read64, write64, align_write,
}
use foundation_lib.BitBuffer.Bits.{to_bits, length-to_bits, to_bits-mod, to_bits-injective}
use foundation_lib.BitBuffer.Words.{AllWords, words_bits, words_bits-append}
use foundation_lib.BitBuffer.Writer.{IsWriter, written, total}
use foundation_lib.BitBuffer.Fields.{write64-Appends, padding, align_write-written}
use foundation_lib.BitBuffer.Reader.{IsReader, unread, Takes, Takes-join}
use foundation_lib.BitBuffer.Reads.{read32-Takes}

-- A value and the number of its bits that are stored.
pub record Field : Type 0 where
  pub value : ℕ
  pub bits : ℕ

abbrev pub fields_bits : List Field → List ℕ
fields_bits [] = []
fields_bits (f ∷ fs) = to_bits f.bits f.value ++ fields_bits fs

abbrev pub fields_size : List Field → ℕ
fields_size [] = 0
fields_size (f ∷ fs) = f.bits + fields_size fs

abbrev pub AllFit : List Field → Type 0
AllFit [] = Unit
AllFit (f ∷ fs) = (f.bits ≤ 64) × AllFit fs

abbrev pub stored : Field → ℕ
stored f = mask f.bits f.value

length-fields_bits : (fs : List Field) → length (fields_bits fs) ≡ fields_size fs
length-fields_bits [] = refl
length-fields_bits (f ∷ fs) = omega (
  arith,
  length-append (to_bits f.bits f.value) (fields_bits fs),
  length-to_bits f.bits f.value,
  length-fields_bits fs,
)

module _ (s : WordStream) where
  open s use {State}

  -- A read of up to 64 bits, where so many are left, returns them and leaves the others.
  pub read64-Takes :
      (bits : ℕ) {b : BitBuffer State}
      → IsReader s b
      → bits ≤ 64
      → bits ≤ length (unread s b)
      → Takes s b bits (read64 s b bits)
  unfolding read64
  read64-Takes bits {b} r le room = elim (dec_lt 32 bits) [
    | yes p ↦
        let t : leb bits 32 ≡ false = ground arith in
        let whole : (if ltb 64 bits then 64 else bits) ≡ bits = ground arith in
        let one = read32-Takes s 32 r (omega arith) (omega arith) in
        let b' = (read32 s b 32).1 in
        let low = (read32 s b 32).0 in
        let next : bits - 32 ≤ length (unread s b') =
          omega (arith, ap length one.rest, length-drop 32 (unread s b)) in
        let two = read32-Takes s (bits - 32) one.reader (omega arith) next in
        let high = (read32 s b' (bits - 32)).0 in
        let sum : 32 + (bits - 32) ≡ bits = omega arith in
        let parts : unread s b ≡ to_bits 32 low ++ unread s b' =
          sym (take-append-drop 32 (unread s b)) ∙ ap₂ ◌++◌ (sym one.bits_read) (sym one.rest) in
        let joined : bit_or (high * 2 ^ 32) low ≡ low + high * 2 ^ 32 =
          or-shift 32 high low one.small ∙ add_comm (high * 2 ^ 32) low in
        let out = Takes-join s 32 (bits - 32) low high one.small parts one.swap two in
        rw (t, whole, joined)
          (subst (λ n. Takes s b n (low + high * 2 ^ 32, (read32 s b' (bits - 32)).1)) sum out)
    | no np ↦
        let t : leb bits 32 ≡ true = ground arith in rw t (read32-Takes s bits r (omega arith) room)
  ]

  pub write_fields : List Field → BitBuffer State → BitBuffer State
  write_fields [] b = b
  write_fields (f ∷ fs) b = write_fields fs (write64 s b f.value f.bits)

  pub read_fields : List ℕ → BitBuffer State → List ℕ
  read_fields [] b = []
  read_fields (n ∷ ns) b = let (v, b') = read64 s b n in v ∷ read_fields ns b'

  write_fields-written :
      (fs : List Field) {b : BitBuffer State}
      → AllFit fs
      → IsWriter s b
      → total s b + fields_size fs ≤ 32 * length b.words
      → IsWriter s (write_fields fs b)
        × (written s (write_fields fs b) ≡ written s b ++ fields_bits fs)
        × (total s (write_fields fs b) ≡ total s b + fields_size fs)
        × (length (write_fields fs b).words ≡ length b.words)
        × ((write_fields fs b).swap ≡ b.swap)
  unfolding write_fields
  write_fields-written [] {b} fit w room =
      (w, sym (append-nil (written s b)), omega arith, refl, refl)
  write_fields-written (f ∷ fs) {b} fit w room =
      let a = write64-Appends s f.value f.bits w fit.0 (omega arith) in
      let (w', e, t, size, swap) =
        write_fields-written fs fit.1 a.writer (omega (arith, a.total, a.size)) in
      (
        w',
        e
            ∙ ap (λ l. l ++ fields_bits fs) a.appended
            ∙ append_assoc (written s b) (to_bits f.bits f.value) (fields_bits fs),
        omega (arith, t, a.total),
        size ∙ a.size,
        swap ∙ a.swap,
      )

  read_fields-unread :
      (fs : List Field) (rest : List ℕ) {b : BitBuffer State}
      → AllFit fs
      → IsReader s b
      → unread s b ≡ fields_bits fs ++ rest
      → read_fields (map (λ f. f.bits) fs) b ≡ map stored fs
  unfolding read_fields
  read_fields-unread [] rest fit r e = refl
  read_fields-unread (f ∷ fs) rest {b} fit r e =
      let bits = to_bits f.bits f.value in
      let n = length-to_bits f.bits f.value in
      let e' : unread s b ≡ bits ++ (fields_bits fs ++ rest) =
        e ∙ append_assoc bits (fields_bits fs) rest in
      let room : f.bits ≤ length (unread s b) =
        omega (arith, ap length e', length-append bits (fields_bits fs ++ rest)) in
      let t = read64-Takes f.bits r fit.0 room in
      let first : take f.bits (unread s b) ≡ bits =
        ap (take f.bits) e'
        ∙ take-append_le f.bits bits (fields_bits fs ++ rest) (omega arith)
        ∙ take_all f.bits bits (omega arith) in
      let others : drop f.bits (unread s b) ≡ fields_bits fs ++ rest =
        ap (drop f.bits) e'
        ∙ drop-append_le f.bits bits (fields_bits fs ++ rest) (omega arith)
        ∙ ap (λ l. l ++ (fields_bits fs ++ rest)) (drop_all f.bits bits (omega arith)) in
      let value : (read64 s b f.bits).0 ≡ stored f =
        to_bits-injective f.bits (read64 s b f.bits).0 (stored f) t.small
          (omega (arith, two_pow-pos f.bits))
          (t.bits_read ∙ first ∙ sym (to_bits-mod f.bits f.value)) in
      ap₂ ◌∷◌ value (read_fields-unread fs rest fit.1 t.reader (t.rest ∙ others))

  fresh-IsWriter :
      (words : List ℕ) (swap : Bool) → AllWords words → IsWriter s (initialize_buffer words swap)
  unfolding initialize_buffer
  fresh-IsWriter words swap h = record {
    memory = refl;
    open_word = omega arith;
    fits = omega arith;
    inside = omega arith;
    words = h;
    counted = omega arith;
  }

  -- What was written stands at the start of the block.
  block-written :
      (b : BitBuffer State)
      → b.offset_write ≡ 0
      → words_bits b.swap b.words ≡ written s b ++ words_bits b.swap (drop b.position b.words)
  unfolding to_bits
  block-written b z =
      let done = words_bits b.swap (take b.position b.words) in
      let all : written s b ≡ done =
        ap (λ n. done ++ to_bits n b.pending_write) z ∙ append-nil done in
      ap (words_bits b.swap) (sym (take-append-drop b.position b.words))
      ∙ words_bits-append b.swap (take b.position b.words) (drop b.position b.words)
      ∙ ap (λ l. l ++ words_bits b.swap (drop b.position b.words)) (sym all)

  -- Fields of up to 64 bits that `bitbuffer_write64` writes to a block of memory with room for them,
  -- and a final `bitbuffer_align_write`, are read back from the block by `bitbuffer_read64`: each value,
  -- less the bits above its width. The byte order of the block may be swapped.
  pub read_fields-write_fields :
      (fs : List Field) (words : List ℕ) (swap : Bool)
      → AllFit fs
      → AllWords words
      → fields_size fs ≤ 32 * length words
      → let b = align_write s (write_fields fs (initialize_buffer words swap)) false in
        read_fields (map (λ f. f.bits) fs) (initialize_buffer b.words swap) ≡ map stored fs
  unfolding initialize_buffer to_bits words_bits
  read_fields-write_fields fs words swap fit h room =
      let empty : BitBuffer State = initialize_buffer words swap in
      let (w, e, t, size, same) =
        write_fields-written fs fit (fresh-IsWriter words swap h) (omega (arith, room)) in
      let c = write_fields fs empty in
      let fit_in : total s c + padding s c false ≤ 32 * length c.words =
        ground (arith, t, size, w.open_word) in
      let (w', e', z, same', counted) = align_write-written s false w fit_in in
      let b = align_write s c false in
      let reader : IsReader s (initialize_buffer b.words swap) = record {
        memory = refl;
        offset = omega arith;
        word = omega arith;
        words = w'.words;
      } in
      let rest = words_bits swap (drop b.position b.words) in
      let swap_kept : b.swap ≡ swap = same' ∙ same in
      let ahead : words_bits swap b.words
          ≡ fields_bits fs ++ (to_bits (padding s c false) 0 ++ rest) =
        subst (λ sw. words_bits sw b.words ≡ written s b ++ words_bits sw (drop b.position b.words))
          swap_kept (block-written b z)
        ∙ ap (λ l. l ++ rest) (e' ∙ ap (λ l. l ++ to_bits (padding s c false) 0) e)
        ∙ append_assoc (fields_bits fs) (to_bits (padding s c false) 0) rest in
      read_fields-unread fs (to_bits (padding s c false) 0 ++ rest) fit reader ahead
