-- ===== src/BitBuffer/Words.antt =====
-- The words of a block of memory, their byte order and their bits.
use foundation_lib.Prelude.{
  ℕ, zero, suc, ◌+◌, ◌*◌, ◌^◌, ◌<◌, ◌≡◌, refl, Bool, true, false, List, [], ◌∷◌, ◌++◌, append_assoc,
  arith, length, length-append, get_or, drop, set,
}
use foundation_lib.BitBuffer.{swap32, swapped}
use foundation_lib.BitBuffer.Bits.{to_bits, length-to_bits}

pub swap32-swap32 : (w : ℕ) → w < 2 ^ 32 → swap32 (swap32 w) ≡ w
unfolding swap32
swap32-swap32 w h = omega arith

pub swap32-lt : (w : ℕ) → swap32 w < 2 ^ 32
unfolding swap32
swap32-lt w = omega arith

pub swapped-swapped : (swap : Bool) (w : ℕ) → w < 2 ^ 32 → swapped swap (swapped swap w) ≡ w
swapped-swapped true w h = swap32-swap32 w h
swapped-swapped false w h = refl

-- The bits of the words of a block.
unfoldable pub words_bits : Bool → List ℕ → List ℕ
words_bits swap [] = []
words_bits swap (w ∷ ws) = to_bits 32 (swapped swap w) ++ words_bits swap ws

pub words_bits-append :
    (swap : Bool) (vs ws : List ℕ)
    → words_bits swap (vs ++ ws) ≡ words_bits swap vs ++ words_bits swap ws
unfolding words_bits
words_bits-append swap [] ws = refl
words_bits-append swap (v ∷ vs) ws = rw (words_bits-append swap vs ws, append_assoc)

-- The words of a block are `uint32_t`.
abbrev pub AllWords : List ℕ → Type 0
AllWords [] = Unit
AllWords (w ∷ ws) = (w < 2 ^ 32) × AllWords ws

pub AllWords-set : (ws : List ℕ) (i w : ℕ) → AllWords ws → w < 2 ^ 32 → AllWords (set ws i w)
AllWords-set [] i w h lt = h
AllWords-set (v ∷ ws) zero w h lt = (lt, h.1)
AllWords-set (v ∷ ws) (suc i) w h lt = (h.0, AllWords-set ws i w h.1 lt)

pub swapped-lt : (swap : Bool) (w : ℕ) → w < 2 ^ 32 → swapped swap w < 2 ^ 32
swapped-lt true w h = swap32-lt w
swapped-lt false w h = h

pub AllWords-get_or : (i : ℕ) (ws : List ℕ) → AllWords ws → get_or ws i 0 < 2 ^ 32
AllWords-get_or i [] h = omega arith
AllWords-get_or zero (w ∷ ws) h = h.0
AllWords-get_or (suc i) (w ∷ ws) h = AllWords-get_or i ws h.1

pub drop-get_or :
    (i : ℕ) (ws : List ℕ) → i < length ws → drop i ws ≡ get_or ws i 0 ∷ drop (i + 1) ws
drop-get_or i [] h = absurd (omega arith)
drop-get_or zero (w ∷ ws) h = refl
drop-get_or (suc i) (w ∷ ws) h =
    let e : suc i + 1 ≡ suc (i + 1) = omega arith in rw e (drop-get_or i ws (omega arith))

pub length-words_bits : (swap : Bool) (ws : List ℕ) → length (words_bits swap ws) ≡ 32 * length ws
unfolding words_bits
length-words_bits swap [] = refl
length-words_bits swap (w ∷ ws) = omega (
  arith,
  length-append (to_bits 32 (swapped swap w)) (words_bits swap ws),
  length-to_bits 32 (swapped swap w),
  length-words_bits swap ws,
)
