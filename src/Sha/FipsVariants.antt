-- ===== src/Sha/FipsVariants.antt =====
-- SHA-256 and SHA-512 of foundation/sha.c have the constants, functions and padding of FIPS 180-4.
use Prim.{tt}
use foundation_lib.Prelude.{
  ℕ, ◌+◌, ◌-◌, ◌*◌, ◌/◌, ◌%◌, ◌^◌, ◌<◌, ◌≡◌, refl, ap, ap₂, ◌∙◌, List, [], ◌∷◌, ◌++◌, append_assoc,
  arith, leb, if◌then◌else◌, length, replicate,
}
use foundation_lib.Sha.{store64}
use foundation_lib.Sha.Variants.{mixing32, mixing64, compress256, compress512, sha256, sha512}
use foundation_lib.Sha.Finalize.{filled_up}
use foundation_lib.Sha.Fips.{fips256, fips512, root_words, big_bytes, zeros, padded}
use foundation_lib.Sha.FipsBlocks.{Agrees, eight, compress-fips_block}
use foundation_lib.Sha.FipsWords.{sigma-three, gamma-two_shift}
use foundation_lib.Sha.Filling.{replicate-add}
use foundation_lib.Sha.FipsMessage.{Implements}

-- The functions and the constants.
mixing32-Agrees : Agrees mixing32 fips256
unfolding root_words
mixing32-Agrees = record {
  width = refl;
  constants = refl;
  sigma0 = λ x small. sigma-three 32 2 13 22 x (omega arith) (omega arith) (omega arith) small;
  sigma1 = λ x small. sigma-three 32 6 11 25 x (omega arith) (omega arith) (omega arith) small;
  gamma0 = λ x small. gamma-two_shift 32 7 18 3 x (omega arith) (omega arith) small;
  gamma1 = λ x small. gamma-two_shift 32 17 19 10 x (omega arith) (omega arith) small;
}

mixing64-Agrees : Agrees mixing64 fips512
unfolding root_words
mixing64-Agrees = record {
  width = refl;
  constants = refl;
  sigma0 = λ x small. sigma-three 64 28 34 39 x (omega arith) (omega arith) (omega arith) small;
  sigma1 = λ x small. sigma-three 64 14 18 41 x (omega arith) (omega arith) (omega arith) small;
  gamma0 = λ x small. gamma-two_shift 64 1 8 7 x (omega arith) (omega arith) small;
  gamma1 = λ x small. gamma-two_shift 64 19 61 6 x (omega arith) (omega arith) small;
}

store64-big_bytes : (v : ℕ) → store64 v ≡ big_bytes 8 v
unfolding big_bytes store64
store64-big_bytes v =
    let last : v % 256 ∷ [] ≡ v / 1 % 256 ∷ [] = ap (λ b. b ∷ []) (omega arith) in
    ap
      (λ l.
        v / 2 ^ 56 % 256
        ∷ v / 2 ^ 48 % 256
        ∷ v / 2 ^ 40 % 256
        ∷ v / 2 ^ 32 % 256
        ∷ v / 2 ^ 24 % 256
        ∷ v / 2 ^ 16 % 256
        ∷ v / 2 ^ 8 % 256
        ∷ l)
      last

fill256 : (bytes : List ℕ) → filled_up sha256 bytes ≡ padded 64 bytes
unfolding filled_up padded
fill256 bytes =
    let len = length bytes in
    let count : (if leb (len % 64 + 1) 56 then 56 - (len % 64 + 1) else 64 - (len % 64 + 1) + 56)
        ≡ zeros 64 len =
      ground arith in
    append_assoc bytes _ _
    ∙ ap (λ k. bytes ++ ((0x80 ∷ replicate k 0) ++ store64 (8 * len % 2 ^ 64))) count
    ∙ ap (λ l. bytes ++ ((0x80 ∷ replicate (zeros 64 len) 0) ++ l))
        (store64-big_bytes (8 * len % 2 ^ 64))

-- The upper half of the 128 bits is 0.
upper_zeros : (v : ℕ) → v < 2 ^ 64 → replicate 8 0 ++ store64 v ≡ big_bytes 16 v
unfolding big_bytes
upper_zeros v small =
    ap (λ l. replicate 8 0 ++ l) (store64-big_bytes v)
    ∙ ap₂ ◌∷◌ (omega arith) (
        ap₂ ◌∷◌ (omega arith) (
          ap₂ ◌∷◌ (omega arith) (
            ap₂ ◌∷◌ (omega arith) (
              ap₂ ◌∷◌ (omega arith)
                (ap₂ ◌∷◌ (omega arith) (ap₂ ◌∷◌ (omega arith) (ap₂ ◌∷◌ (omega arith) refl)))))))

fill512 : (bytes : List ℕ) → filled_up sha512 bytes ≡ padded 128 bytes
unfolding filled_up padded
fill512 bytes =
    let len = length bytes in
    let z = zeros 128 len in
    let count : (if leb (len % 128 + 1) 112
          then 120 - (len % 128 + 1)
          else 128 - (len % 128 + 1) + 120)
        ≡ z + 8 =
      ground arith in
    let bits = 8 * len % 2 ^ 64 in
    append_assoc bytes _ _
    ∙ ap (λ k. bytes ++ ((0x80 ∷ replicate k 0) ++ store64 bits)) count
    ∙ ap (λ l. bytes ++ ((0x80 ∷ l) ++ store64 bits)) (replicate-add z 8)
    ∙ ap (λ l. bytes ++ (0x80 ∷ l)) (append_assoc (replicate z 0) (replicate 8 0) (store64 bits))
    ∙ ap (λ l. bytes ++ (0x80 ∷ (replicate z 0 ++ l))) (upper_zeros bits (omega arith))

pub sha256-Implements : Implements sha256 fips256
unfolding root_words compress256
sha256-Implements = record {
  width = omega arith;
  size = refl;
  start = refl;
  words = eight (
    omega arith,
    (
      omega arith,
      (omega arith, (omega arith, (omega arith, (omega arith, (omega arith, (omega arith, tt)))))),
    ),
  );
  block = compress-fips_block mixing32 fips256 mixing32-Agrees refl;
  padding = fill256;
}

pub sha512-Implements : Implements sha512 fips512
unfolding root_words compress512
sha512-Implements = record {
  width = omega arith;
  size = refl;
  start = refl;
  words = eight (
    omega arith,
    (
      omega arith,
      (omega arith, (omega arith, (omega arith, (omega arith, (omega arith, (omega arith, tt)))))),
    ),
  );
  block = compress-fips_block mixing64 fips512 mixing64-Agrees refl;
  padding = fill512;
}
