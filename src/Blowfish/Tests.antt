-- ===== src/Blowfish/Tests.antt =====
-- Runs of the cipher with the tables that stand in the source, and the theorems at them.
use foundation_lib.Prelude.{ℕ, ◌≡◌, refl, List, [], ◌∷◌, length, drop}
use foundation_lib.Blowfish.{
  Blowfish, mix_key, key_data, fill_subkeys, fill_boxes, fill_box, blockcipher_cbc, blockcipher_cfb,
  feistel, rounds, encrypt_words, encrypt, decrypt, initialize,
}
use foundation_lib.Blowfish.Tables.{parray_init, sbox0_init, sbox1_init, sbox2_init, sbox3_init}
use foundation_lib.Blowfish.Blocks.{decrypt-encrypt, encrypt-drop}
use foundation_lib.Blowfish.Schedule.{sizes, initialize-sizes}

abbrev plain : Blowfish
plain = record {
  parray = parray_init;
  sboxes = sbox0_init ∷ sbox1_init ∷ sbox2_init ∷ sbox3_init ∷ [];
}

abbrev message : List ℕ
message = 1 ∷ 2 ∷ 3 ∷ 4 ∷ 5 ∷ []

feistel_byte : feistel plain 0x00000001 ≡ 0xC9911CB6
unfolding feistel
feistel_byte = refl

decrypt-encrypt_example :
    decrypt plain
      (encrypt plain message 20 blockcipher_cbc 0x700000009)
      20
      blockcipher_cbc
      0x700000009
    ≡ message
decrypt-encrypt_example = decrypt-encrypt plain message 20 blockcipher_cbc 0x700000009

encrypt-drop_example :
    (length (encrypt plain message 20 blockcipher_cfb 3) ≡ 5)
    × (drop 4 (encrypt plain message 20 blockcipher_cfb 3) ≡ 5 ∷ [])
encrypt-drop_example = encrypt-drop plain message 20 blockcipher_cfb 3

initialize-sizes_example :
    sizes (initialize (0x4B ∷ 0x65 ∷ 0x79 ∷ []) 3) ≡ (18, 256 ∷ 256 ∷ 256 ∷ 256 ∷ [])
initialize-sizes_example = initialize-sizes (0x4B ∷ 0x65 ∷ 0x79 ∷ []) 3

-- The published ciphertext of a zero block under a zero key.
zero_key :
    encrypt_words (initialize (0 ∷ 0 ∷ 0 ∷ 0 ∷ 0 ∷ 0 ∷ 0 ∷ 0 ∷ []) 8) (0, 0)
    ≡ (0x4EF99745, 0x6198DD78)
unfolding encrypt_words initialize mix_key key_data fill_subkeys fill_boxes fill_box rounds feistel
zero_key = refl
