-- ===== src/Sha/Variants.antt =====
-- `sha256_t` and `sha512_t` with their own constants, and the raw digests.
use Prim.Native.Nat.{bit_or}
use foundation_lib.Prelude.{ℕ, ◌*◌, ◌^◌, refl, List, [], ◌∷◌, arith, get_or, take}
use foundation_lib.Sha.{Hash, Sha, initialize, digest, digest_finalize}
use foundation_lib.Sha.Constants.{k256, k512}
use foundation_lib.Sha.Compress.{Mixing, sigma, gamma, compress}

abbrev pub mixing32 : Mixing
mixing32 = record {
  width = 32;
  sigma0 = sigma 32 2 13 22;
  sigma1 = sigma 32 6 11 25;
  gamma0 = gamma 32 7 18 3;
  gamma1 = gamma 32 17 19 10;
  constants = k256;
}

abbrev pub mixing64 : Mixing
mixing64 = record {
  width = 64;
  sigma0 = sigma 64 28 34 39;
  sigma1 = sigma 64 14 18 41;
  gamma0 = gamma 64 1 8 7;
  gamma1 = gamma 64 19 61 6;
  constants = k512;
}

-- `sha256_compress`.
unfoldable pub compress256 : List ℕ → List ℕ → List ℕ
compress256 = compress mixing32 4 64

-- `sha512_compress`.
unfoldable pub compress512 : List ℕ → List ℕ → List ℕ
compress512 = compress mixing64 8 80

abbrev pub initial256 : List ℕ
initial256 =
    0x6A09E667 ∷ 0xBB67AE85 ∷ 0x3C6EF372 ∷ 0xA54FF53A ∷ 0x510E527F ∷ 0x9B05688C ∷ 0x1F83D9AB
    ∷ 0x5BE0CD19 ∷ []

abbrev pub initial512 : List ℕ
initial512 =
    0x6a09e667f3bcc908 ∷ 0xbb67ae8584caa73b ∷ 0x3c6ef372fe94f82b ∷ 0xa54ff53a5f1d36f1
    ∷ 0x510e527fade682d1 ∷ 0x9b05688c2b3e6c1f ∷ 0x1f83d9abfb41bd6b ∷ 0x5be0cd19137e2179 ∷ []

abbrev pub sha256 : Hash
sha256 = record {
  block_size = 64;
  limit = 56;
  place = 56;
  initial = initial256;
  compress = compress256;
  place_end = refl;
  limit-le = omega arith;
  limit-pos = omega arith;
}

abbrev pub sha512 : Hash
sha512 = record {
  block_size = 128;
  limit = 112;
  place = 120;
  initial = initial512;
  compress = compress512;
  place_end = refl;
  limit-le = omega arith;
  limit-pos = omega arith;
}

-- `sha512_initialize`, `sha512_digest` and `sha512_digest_finalize`.
unfoldable pub initialize512 : Sha → Sha
initialize512 = initialize sha512

unfoldable pub digest512 : Sha → List ℕ → Sha
digest512 = digest sha512

unfoldable pub digest_finalize512 : Sha → Sha
digest_finalize512 = digest_finalize sha512

-- `sha256_get_digest_raw`.
unfoldable pub digest_raw256 : Sha → List ℕ
digest_raw256 m =
    let word = λ (i : ℕ). get_or m.state i 0 in
    bit_or (word 0 * 2 ^ 32) (word 1)
    ∷ bit_or (word 2 * 2 ^ 32) (word 3)
    ∷ bit_or (word 4 * 2 ^ 32) (word 5)
    ∷ bit_or (word 6 * 2 ^ 32) (word 7)
    ∷ []

-- `sha512_get_digest_raw`.
unfoldable pub digest_raw512 : Sha → List ℕ
digest_raw512 m = take 8 m.state
