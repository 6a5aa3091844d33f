-- ===== src/Sha/Tests.antt =====
-- The published digests of a short message, and the theorems at small messages.
use foundation_lib.Prelude.{
  ℕ, zero, suc, arith, ◌≡◌, refl, true, [], ◌∷◌, ◌++◌, replicate, overwrite,
}
use foundation_lib.Sha.{
  Sha, initialize, complete, whole_blocks, keep, absorb, digest, spill, store64, digest_finalize,
}
use foundation_lib.Sha.FipsHash.{finished, digest_all-fips_hash, digest_again-fips_hash}
use foundation_lib.Sha.Fips.{
  fips256, fips512, fips_hash, padded, fips_blocks, fips_block, schedule, fips_rounds, fips_round,
  fips_sums, block_words, big_word, big_bytes, root_words,
}
use foundation_lib.Prelude.Bitwise.{bits}
use foundation_lib.Prelude.Bytes.{Bytes, append-Bytes}
use Prim.{tt}
use foundation_lib.Sha.Compress.{
  choise, majority, rotate, sigma, gamma, load, load_words, expand, compress_word, compress_words,
  add_words, compress,
}
use foundation_lib.Sha.Variants.{
  sha256, sha512, compress256, compress512, initialize512, digest512, digest_finalize512,
  digest_raw256, digest_raw512,
}

abbrev blank : Sha
blank = record { init = true; current = 5; bits = 0; state = []; buffer = replicate 128 7 }

abbrev small_blank : Sha
small_blank = record blank { buffer = replicate 64 7 }

replicate-Bytes_a : (n : ℕ) → Bytes (replicate n 97)
replicate-Bytes_a zero = tt
replicate-Bytes_a (suc n) = (omega arith, replicate-Bytes_a n)

many-Bytes : Bytes (replicate 55 97)
many-Bytes = replicate-Bytes_a 55

abc256 :
    digest_raw256
      (digest_finalize sha256 (digest sha256 (digest sha256 small_blank (97 ∷ 98 ∷ [])) (99 ∷ [])))
    ≡ 0xba7816bf8f01cfea ∷ 0x414140de5dae2223 ∷ 0xb00361a396177a9c ∷ 0xb410ff61f20015ad ∷ []
unfolding digest_raw256 initialize complete whole_blocks keep absorb digest spill store64
    digest_finalize choise majority rotate sigma gamma load load_words expand compress_word
    compress_words add_words compress compress256 overwrite
abc256 = refl

abc512 :
    digest_raw512 (digest_finalize512 (digest512 (digest512 blank (97 ∷ 98 ∷ [])) (99 ∷ [])))
    ≡ 0xddaf35a193617aba ∷ 0xcc417349ae204131 ∷ 0x12e6fa4e89a97ea2 ∷ 0x0a9eeee64b55d39a
      ∷ 0x2192992a274fc1a8 ∷ 0x36ba3c23a3feebbd ∷ 0x454d4423643ce80e ∷ 0x2a9ac94fa54ca49f ∷ []
unfolding digest_raw512 initialize512 digest512 digest_finalize512 initialize complete whole_blocks
    keep absorb digest spill store64 digest_finalize choise majority rotate sigma gamma load
    load_words expand compress_word compress_words add_words compress compress512 overwrite
abc512 = refl

-- The standard's own value, at its example.
fips_abc :
    fips_hash fips256 (97 ∷ 98 ∷ 99 ∷ [])
    ≡ 0xba7816bf ∷ 0x8f01cfea ∷ 0x414140de ∷ 0x5dae2223 ∷ 0xb00361a3 ∷ 0x96177a9c ∷ 0xb410ff61
      ∷ 0xf20015ad ∷ []
unfolding fips_hash padded fips_blocks fips_block schedule fips_rounds fips_round fips_sums
    block_words big_word big_bytes root_words bits
fips_abc = refl

-- A message that ends at a block's first byte behind the place of its length.
digest_all-fips_hash_example :
    ((finished sha256 (replicate 55 97 ∷ (98 ∷ []) ∷ []) (initialize sha256 small_blank)).state
      ≡ fips_hash fips256 (replicate 55 97 ++ (98 ∷ [])))
    × ((finished sha512 (replicate 55 97 ∷ (98 ∷ []) ∷ []) (initialize sha512 blank)).state
        ≡ fips_hash fips512 (replicate 55 97 ++ (98 ∷ [])))
digest_all-fips_hash_example =
    digest_all-fips_hash small_blank blank (replicate 55 97 ∷ (98 ∷ []) ∷ []) refl refl
      (append-Bytes (replicate 55 97) (98 ∷ []) many-Bytes (omega arith, tt))

digest_again-fips_hash_example :
    ((finished sha256
        ((97 ∷ []) ∷ (99 ∷ []) ∷ [])
        (finished sha256 ((1 ∷ 2 ∷ []) ∷ []) (initialize sha256 small_blank))).state
      ≡ fips_hash fips256 (97 ∷ 99 ∷ []))
    × ((finished sha512
          ((97 ∷ []) ∷ (99 ∷ []) ∷ [])
          (finished sha512 ((1 ∷ 2 ∷ []) ∷ []) (initialize sha512 blank))).state
        ≡ fips_hash fips512 (97 ∷ 99 ∷ []))
digest_again-fips_hash_example =
    digest_again-fips_hash small_blank blank ((1 ∷ 2 ∷ []) ∷ []) (97 ∷ []) ((99 ∷ []) ∷ []) refl
      refl (omega arith, (omega arith, tt))
