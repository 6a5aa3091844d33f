-- ===== src/Sha/FipsHash.antt =====
-- The digests of foundation/sha.c in chunks, against the hash values of FIPS 180-4.
use foundation_lib.Prelude.{ℕ, ◌≡◌, List, ◌∷◌, ◌++◌, length}
use foundation_lib.Prelude.Bytes.{Bytes}
use foundation_lib.Sha.{Hash, Sha, initialize, digest_finalize}
use foundation_lib.Sha.Chunks.{concat}
use foundation_lib.Sha.Variants.{sha256, sha512}
use foundation_lib.Sha.Finalize.{digest_all, digest_all-Hashed, restart-Hashed}
use foundation_lib.Sha.Fips.{fips256, fips512, fips_hash}
use foundation_lib.Sha.FipsMessage.{Hashed-fips_hash}
use foundation_lib.Sha.FipsVariants.{sha256-Implements, sha512-Implements}

abbrev pub finished : Hash → List (List ℕ) → Sha → Sha
finished h chunks m = digest_finalize h (digest_all h chunks m)

-- Digests with blocks of the right size that are initialized, take in a message of bytes in chunks of any
-- lengths and are finalized hold the SHA-256 and the SHA-512 hash value of the message, whose padding,
-- constants, functions and schedule are those of FIPS 180-4; the number of bits in the padding is modulo
-- 2 ^ 64.
pub digest_all-fips_hash :
    (m m' : Sha) (chunks : List (List ℕ))
    → length m.buffer ≡ 64
    → length m'.buffer ≡ 128
    → Bytes (concat chunks)
    → ((finished sha256 chunks (initialize sha256 m)).state ≡ fips_hash fips256 (concat chunks))
      × ((finished sha512 chunks (initialize sha512 m')).state ≡ fips_hash fips512 (concat chunks))
digest_all-fips_hash m m' chunks e e' b = (
  Hashed-fips_hash sha256 fips256 sha256-Implements (digest_all-Hashed sha256 m chunks e) b,
  Hashed-fips_hash sha512 fips512 sha512-Implements (digest_all-Hashed sha512 m' chunks e') b,
)

-- Digests that took in one message and were finalized can be used again without another initialization: they
-- take in a message of bytes in chunks of any lengths, one at least, and are finalized to the SHA-256 and the
-- SHA-512 hash value of this message alone.
pub digest_again-fips_hash :
    (m m' : Sha) (before : List (List ℕ)) (chunk : List ℕ) (chunks : List (List ℕ))
    → length m.buffer ≡ 64
    → length m'.buffer ≡ 128
    → Bytes (chunk ++ concat chunks)
    → ((finished sha256 (chunk ∷ chunks) (finished sha256 before (initialize sha256 m))).state
        ≡ fips_hash fips256 (chunk ++ concat chunks))
      × ((finished sha512 (chunk ∷ chunks) (finished sha512 before (initialize sha512 m'))).state
          ≡ fips_hash fips512 (chunk ++ concat chunks))
digest_again-fips_hash m m' before chunk chunks e e' b = (
  Hashed-fips_hash sha256 fips256 sha256-Implements
      (restart-Hashed sha256 chunk chunks (digest_all-Hashed sha256 m before e)) b,
  Hashed-fips_hash sha512 fips512 sha512-Implements
      (restart-Hashed sha512 chunk chunks (digest_all-Hashed sha512 m' before e')) b,
)
