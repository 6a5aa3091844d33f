-- ===== src/Md5/Tests.antt =====
-- The published digest of a short message, and the theorems at small messages.
use foundation_lib.Prelude.{arith, ℕ, ◌≡◌, refl, true, List, [], ◌∷◌, replicate, overwrite}
use foundation_lib.Md5.{
  Md5, mixed, step, run_steps, encode, decode, transform, blocks, initialize, absorb, digest,
  digest_finalize,
}
use foundation_lib.Md5.Chunks.{Holds, initialize-Holds, absorb-Holds}
use foundation_lib.Md5.Reference.{digest_all, digest_all-rfc_digest, digest_again-rfc_digest}
use foundation_lib.Md5.Rfc.{
  rfc_digest, padded, rfc_blocks, rfc_block, rfc_run, rfc_step, rfc_words, rfc_initial, rfc_steps,
  low_bytes,
}
use foundation_lib.Prelude.Bitwise.{bits}
use Prim.{tt}
use foundation_lib.Prelude.Bytes.{Bytes}

abbrev blank : Md5
blank = record {
  init = true;
  state = record { a = 0; b = 0; c = 0; d = 0 };
  count0 = 5;
  count1 = 0;
  buffer = replicate 64 7;
  digest = [];
}

abbrev abc : List ℕ
abc = 97 ∷ 98 ∷ 99 ∷ []

digest_abc :
    (digest_finalize (digest_all ((97 ∷ 98 ∷ []) ∷ (99 ∷ []) ∷ []) blank)).digest
    ≡ 0x90 ∷ 0x1 ∷ 0x50 ∷ 0x98 ∷ 0x3c ∷ 0xd2 ∷ 0x4f ∷ 0xb0 ∷ 0xd6 ∷ 0x96 ∷ 0x3f ∷ 0x7d ∷ 0x28 ∷ 0xe1
      ∷ 0x7f ∷ 0x72 ∷ []
unfolding digest_finalize digest absorb initialize transform run_steps step mixed decode encode
    blocks overwrite
digest_abc = refl

abc_digest :
    rfc_digest abc
    ≡ 0x90 ∷ 0x1 ∷ 0x50 ∷ 0x98 ∷ 0x3c ∷ 0xd2 ∷ 0x4f ∷ 0xb0 ∷ 0xd6 ∷ 0x96 ∷ 0x3f ∷ 0x7d ∷ 0x28 ∷ 0xe1
      ∷ 0x7f ∷ 0x72 ∷ []
unfolding rfc_digest padded rfc_blocks rfc_block rfc_run rfc_step rfc_words rfc_initial rfc_steps
    low_bytes bits
abc_digest = refl

abc-Bytes : Bytes abc
abc-Bytes = (omega arith, (omega arith, (omega arith, tt)))

digest_all-rfc_digest_example :
    (digest_finalize (digest_all ((97 ∷ 98 ∷ []) ∷ (99 ∷ []) ∷ []) (initialize blank))).digest
    ≡ rfc_digest abc
digest_all-rfc_digest_example =
    digest_all-rfc_digest blank ((97 ∷ 98 ∷ []) ∷ (99 ∷ []) ∷ []) abc-Bytes

-- Behind a message of three bytes.
digest_again-rfc_digest_example :
    (digest_finalize (
      digest_all
        ((97 ∷ 98 ∷ []) ∷ (99 ∷ []) ∷ [])
        (digest_finalize (digest blank (1 ∷ 2 ∷ 3 ∷ []))))).digest
    ≡ rfc_digest abc
digest_again-rfc_digest_example =
    digest_again-rfc_digest (digest blank (1 ∷ 2 ∷ 3 ∷ [])) (97 ∷ 98 ∷ []) ((99 ∷ []) ∷ [])
      abc-Bytes

absorb-Holds_example : Holds (absorb (initialize blank) (replicate 130 1)) (replicate 130 1)
absorb-Holds_example = absorb-Holds (replicate 130 1) (initialize-Holds blank)
