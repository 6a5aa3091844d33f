-- ===== src/Sha/FipsBlocks.antt =====
-- The compression of foundation/sha.c is what FIPS 180-4 does to a block.
use Prim.{tt}
use native.Mathlib.Nat.{
  mod-lt, mod-add-mod, add-mod-mod, pow-le-pow_right, mul-le-mul_right, pow-succ',
}
use foundation_lib.Prelude.{
  ℕ, zero, suc, ◌+◌, ◌-◌, ◌*◌, ◌/◌, ◌%◌, ◌^◌, ◌≤◌, ◌<◌, ◌≡◌, refl, ap, ap₂, ◌∙◌, List, [], ◌∷◌,
  ◌++◌, arith, length, get_or, take, drop, length-take,
}
use foundation_lib.Prelude.Bytes.{Bytes, take-Bytes, drop-Bytes}
use foundation_lib.Prelude.Pow.{two_pow-pos}
use foundation_lib.Prelude.Bitwise.{bits}
use foundation_lib.Sha.Compress.{
  Mixing, add, choise, majority, load, load_words, expand, compress_word, compress_words, add_words,
  compress,
}
use foundation_lib.Sha.Fips.{
  Standard, choice_bit, majority_bit, big_word, block_words, schedule, fips_round, fips_rounds,
  fips_sums, fips_block,
}
use foundation_lib.Sha.FipsWords.{choise-bits, majority-bits}

-- Words of `w` bits.
abbrev pub Words : (w : ℕ) → List ℕ → Type 0
Words w [] = Unit
Words w (x ∷ xs) = (x < 2 ^ w) × Words w xs

get-Words : (w : ℕ) (xs : List ℕ) (i : ℕ) → Words w xs → get_or xs i 0 < 2 ^ w
get-Words w [] i n = two_pow-pos w
get-Words w (x ∷ xs) zero n = n.0
get-Words w (x ∷ xs) (suc i) n = get-Words w xs i n.1

append-Words : (w : ℕ) (xs : List ℕ) (x : ℕ) → Words w xs → x < 2 ^ w → Words w (xs ++ (x ∷ []))
append-Words w [] x n lt = (lt, tt)
append-Words w (y ∷ xs) x n lt = (n.0, append-Words w xs x n.1 lt)

-- Eight words.
pub data Eight (w : ℕ) : List ℕ → Type 0 where
  eight :
      {a b c d e f g h : ℕ}
      → Words w (a ∷ b ∷ c ∷ d ∷ e ∷ f ∷ g ∷ h ∷ [])
      → Eight w (a ∷ b ∷ c ∷ d ∷ e ∷ f ∷ g ∷ h ∷ [])

-- The code's functions and constants are those of a standard.
pub record Agrees (m : Mixing) (f : Standard) : Type 0 where
  pub width : m.width ≡ f.bits_of_word
  pub constants : m.constants ≡ f.k
  pub sigma0 : (x : ℕ) → x < 2 ^ f.bits_of_word → m.sigma0 x ≡ f.upper0 x
  pub sigma1 : (x : ℕ) → x < 2 ^ f.bits_of_word → m.sigma1 x ≡ f.upper1 x
  pub gamma0 : (x : ℕ) → x < 2 ^ f.bits_of_word → m.gamma0 x ≡ f.lower0 x
  pub gamma1 : (x : ℕ) → x < 2 ^ f.bits_of_word → m.gamma1 x ≡ f.lower1 x

module _ (m : Mixing) (f : Standard) (same : Agrees m f) where
  abbrev w : ℕ
  w = f.bits_of_word

  expand-schedule :
      (n : ℕ) (ws : List ℕ)
      → Words w ws
      → (expand m n ws ≡ schedule f n ws) × Words w (schedule f n ws)
  unfolding expand schedule
  expand-schedule zero ws narrow = (refl, narrow)
  expand-schedule (suc n) ws narrow =
      let t = length ws in
      let a = get_or ws (t - 2) 0 in
      let b = get_or ws (t - 7) 0 in
      let c = get_or ws (t - 15) 0 in
      let d = get_or ws (t - 16) 0 in
      let next = (f.lower1 a + b + f.lower0 c + d) % 2 ^ w in
      let (e, n') =
        expand-schedule n (ws ++ (next ∷ []))
          (append-Words w ws next narrow (mod-lt _ (two_pow-pos w))) in
      let sum : add m.width (add m.width (add m.width (m.gamma1 a) b) (m.gamma0 c)) d ≡ next =
        rw
          (
            same.width,
            same.gamma1 a (get-Words w ws (t - 2) narrow),
            same.gamma0 c (get-Words w ws (t - 15) narrow),
          )
          (rw (mod-add-mod (f.lower1 a + b) (2 ^ w) (f.lower0 c))
            (mod-add-mod (f.lower1 a + b + f.lower0 c) (2 ^ w) d)) in
      (ap (λ x. expand m n (ws ++ (x ∷ []))) sum ∙ e, n')

  compress-fips_round :
      (wbox : List ℕ) (i : ℕ) {v : List ℕ}
      → Eight w v
      → (compress_word m wbox i v ≡ fips_round f (get_or f.k i 0) (get_or wbox i 0) v)
        × Eight w (fips_round f (get_or f.k i 0) (get_or wbox i 0) v)
  unfolding compress_word fips_round
  compress-fips_round wbox i
        (eight {a} {b} {c} {d} {e} {f = f'} {g} {h}
          (la, (lb, (lc, (ld, (le, (lf, (lg, (lh, n))))))))) =
      let p = 2 ^ w in
      let k = get_or f.k i 0 in
      let wt = get_or wbox i 0 in
      let s1 = f.upper1 e in
      let ch = bits w choice_bit e f' g in
      let s0 = f.upper0 a in
      let maj = bits w majority_bit a b c in
      let t1 = h + s1 + ch + k + wt in
      let t2 = s0 + maj in
      let pos = two_pow-pos w in
      let first : add m.width
            (add m.width (add m.width (add m.width h (m.sigma1 e)) (choise e f' g))
              (get_or m.constants i 0))
            wt
          ≡ t1 % p =
        rw (same.width, same.constants, same.sigma1 e le, choise-bits w e f' g le lf lg)
          (rw (mod-add-mod (h + s1) p ch)
            (rw (mod-add-mod (h + s1 + ch) p k) (mod-add-mod (h + s1 + ch + k) p wt))) in
      let second : add m.width (m.sigma0 a) (majority a b c) ≡ t2 % p =
        rw (same.width, same.sigma0 a la, majority-bits w a b c la lb lc) refl in
      let top : add m.width (t1 % p) (t2 % p) ≡ (t1 + t2) % p =
        rw same.width (mod-add-mod t1 p (t2 % p) ∙ add-mod-mod t1 t2 p) in
      let middle : add m.width d (t1 % p) ≡ (d + t1) % p = rw same.width (add-mod-mod d t1 p) in
      (
        rw (first, second, top, middle) refl,
        eight (mod-lt (t1 + t2) pos, (la, (lb, (lc, (mod-lt (d + t1) pos, (le, (lf, (lg, tt)))))))),
      )

  rounds-fips_rounds :
      (n : ℕ) (wbox : List ℕ) (t : ℕ) {v : List ℕ}
      → Eight w v
      → (compress_words m n wbox t v ≡ fips_rounds f n wbox t v)
        × Eight w (fips_rounds f n wbox t v)
  unfolding compress_words fips_rounds
  rounds-fips_rounds zero wbox t v = (refl, v)
  rounds-fips_rounds (suc n) wbox t {v = words} v =
      let (e, v') = compress-fips_round wbox t v in
      let (e', v'') = rounds-fips_rounds n wbox (t + 1) v' in
      (ap (compress_words m n wbox (t + 1)) e ∙ e', v'')

  add-fips_sums : (xs ys : List ℕ) → add_words m xs ys ≡ fips_sums f xs ys
  unfolding add_words fips_sums
  add-fips_sums [] ys = refl
  add-fips_sums (x ∷ xs) [] = refl
  add-fips_sums (x ∷ xs) (y ∷ ys) =
      ap₂ ◌∷◌ (ap (λ n. (x + y) % 2 ^ n) same.width) (add-fips_sums xs ys)

  sums-Eight : {xs ys : List ℕ} → Eight w xs → Eight w ys → Eight w (fips_sums f xs ys)
  unfolding fips_sums
  sums-Eight (eight n) (eight n') =
      let pos = two_pow-pos w in
      eight (
        mod-lt _ pos,
        (
          mod-lt _ pos,
          (
            mod-lt _ pos,
            (mod-lt _ pos, (mod-lt _ pos, (mod-lt _ pos, (mod-lt _ pos, (mod-lt _ pos, tt))))),
          ),
        ),
      )

load-big_word :
    (n acc : ℕ) (bytes : List ℕ)
    → load n acc bytes ≡ acc * 256 ^ length (take n bytes) + big_word (take n bytes)
unfolding load big_word
load-big_word zero acc bytes = omega arith
load-big_word (suc n) acc [] = omega arith
load-big_word (suc n) acc (b ∷ bytes) =
    let l = length (take n bytes) in
    omega (arith, load-big_word n (acc * 256 + b) bytes, ap (λ p. acc * p) (pow-succ' 256 l))

big_word-lt : (bytes : List ℕ) → Bytes bytes → big_word bytes < 256 ^ length bytes
unfolding big_word
big_word-lt [] b = omega arith
big_word-lt (x ∷ bytes) b =
    let most : x * 256 ^ length bytes ≤ 255 * 256 ^ length bytes =
      mul-le-mul_right (256 ^ length bytes) (omega (arith, b.0)) in
    omega (arith, pow-succ' 256 (length bytes), big_word-lt bytes b.1)

load_words-block_words :
    (n size w : ℕ) (bytes : List ℕ)
    → 256 ^ size ≡ 2 ^ w
    → Bytes bytes
    → (load_words n size bytes ≡ block_words n size bytes) × Words w (block_words n size bytes)
unfolding load_words block_words
load_words-block_words zero size w bytes power b = (refl, tt)
load_words-block_words (suc n) size w bytes power b =
    let short : length (take size bytes) ≤ size = omega (arith, length-take size bytes) in
    let lt = big_word-lt (take size bytes) (take-Bytes size bytes b) in
    let le : 256 ^ length (take size bytes) ≤ 256 ^ size = pow-le-pow_right (omega arith) short in
    let (e, n') =
      load_words-block_words n size w (drop size bytes) power (drop-Bytes size bytes b) in
    (ap₂ ◌∷◌ (load-big_word size 0 bytes ∙ omega arith) e, (omega (arith, power), n'))

-- A block.
pub compress-fips_block :
    (m : Mixing) (f : Standard)
    → Agrees m f
    → 256 ^ (f.bits_of_word / 8) ≡ 2 ^ f.bits_of_word
    → {state : List ℕ} (block : List ℕ) → Eight f.bits_of_word state
    → Bytes block
    → (compress m (f.bits_of_word / 8) f.rounds state block ≡ fips_block f state block)
      × Eight f.bits_of_word (fips_block f state block)
unfolding compress fips_block
compress-fips_block m f same power {state} block v b =
    let size = f.bits_of_word / 8 in
    let (words, n) = load_words-block_words 16 size f.bits_of_word block power b in
    let (e, n') = expand-schedule m f same (f.rounds - 16) (block_words 16 size block) n in
    let ws = schedule f (f.rounds - 16) (block_words 16 size block) in
    let (e', v') = rounds-fips_rounds m f same f.rounds ws 0 v in
    let box : expand m (f.rounds - 16) (load_words 16 size block) ≡ ws =
      ap (expand m (f.rounds - 16)) words ∙ e in
    (
      ap (λ x. add_words m state (compress_words m f.rounds x 0 state)) box
          ∙ ap (add_words m state) e'
          ∙ add-fips_sums m f same state (fips_rounds f f.rounds ws 0 state),
      sums-Eight m f same v v',
    )
