-- ===== src/Blowfish/Blocks.antt =====
-- `blowfish_encrypt` and `blowfish_decrypt` of foundation/blowfish.c, one after the other.
use foundation_lib.Prelude.{
  ℕ, zero, suc, ◌-◌, ◌*◌, ◌/◌, ◌%◌, ◌≡◌, refl, ap, ◌∙◌, List, [], ◌∷◌, arith, length, drop,
}
use foundation_lib.Blowfish.{
  Blowfish, Pair, BlockcipherMode, blockcipher_ecb, blockcipher_cbc, blockcipher_cfb,
  blockcipher_ofb, xor_pair, encrypt_words, encrypt_block, decrypt_block, each_block, start,
  encrypt, decrypt,
}
use foundation_lib.Blowfish.Words.{decrypt_words-encrypt_words, xor_pair-xor_pair}

-- A block is restored, and the chains stay the same.
decrypt_block-encrypt_block :
    (b : Blowfish) (mode : BlockcipherMode) (chain block : Pair)
    → decrypt_block b mode chain (encrypt_block b mode chain block).0
      ≡ (block, (encrypt_block b mode chain block).1)
unfolding decrypt_block encrypt_block
decrypt_block-encrypt_block b blockcipher_ecb chain block =
    ap (λ x. (x, chain)) (decrypt_words-encrypt_words b block)
decrypt_block-encrypt_block b blockcipher_cbc chain block =
    ap (λ x. (xor_pair x chain, encrypt_words b (xor_pair block chain)))
      (decrypt_words-encrypt_words b (xor_pair block chain))
    ∙ ap (λ x. (x, encrypt_words b (xor_pair block chain))) (xor_pair-xor_pair block chain)
decrypt_block-encrypt_block b blockcipher_cfb chain block =
    ap (λ x. (x, xor_pair block (encrypt_words b chain)))
      (xor_pair-xor_pair block (encrypt_words b chain))
decrypt_block-encrypt_block b blockcipher_ofb chain block =
    ap (λ x. (x, encrypt_words b chain)) (xor_pair-xor_pair block (encrypt_words b chain))

each_block_back :
    (b : Blowfish) (mode : BlockcipherMode) (n : ℕ) (chain : Pair) (words : List ℕ)
    → each_block (decrypt_block b mode) n chain (each_block (encrypt_block b mode) n chain words)
      ≡ words
unfolding each_block
each_block_back b mode zero chain words = refl
each_block_back b mode (suc n) chain [] = refl
each_block_back b mode (suc n) chain (x ∷ []) = refl
each_block_back b mode (suc n) chain (x ∷ y ∷ words) =
    let (out, chain') = encrypt_block b mode chain (x, y) in
    let rest = each_block (encrypt_block b mode) n chain' words in
    ap (λ (p : Pair × Pair). p.0.0 ∷ p.0.1 ∷ each_block (decrypt_block b mode) n p.1 rest)
      (decrypt_block-encrypt_block b mode chain (x, y))
    ∙ ap (λ l. x ∷ y ∷ l) (each_block_back b mode n chain' words)

-- `blowfish_decrypt` gives back the data that `blowfish_encrypt` was given, with the same key, length,
-- mode and vector. It holds for all data, whatever its length: what is behind the last whole block stays
-- as it is.
pub decrypt-encrypt :
    (b : Blowfish) (words : List ℕ) (size : ℕ) (mode : BlockcipherMode) (vec : ℕ)
    → decrypt b (encrypt b words size mode vec) size mode vec ≡ words
unfolding decrypt encrypt
decrypt-encrypt b words size mode vec =
    each_block_back b mode ((size - size % 8) / 8) (start vec) words

each_block-drop :
    (step : Pair → Pair → Pair × Pair) (n : ℕ) (chain : Pair) (words : List ℕ)
    → (length (each_block step n chain words) ≡ length words)
      × (drop (n * 2) (each_block step n chain words) ≡ drop (n * 2) words)
unfolding each_block
each_block-drop step zero chain words = (refl, refl)
each_block-drop step (suc n) chain [] = (refl, refl)
each_block-drop step (suc n) chain (x ∷ []) = (refl, refl)
each_block-drop step (suc n) chain (x ∷ y ∷ words) =
    let (same, kept) = each_block-drop step n (step chain (x, y)).1 words in
    let two : suc n * 2 ≡ suc (suc (n * 2)) = omega arith in (omega arith, rw two kept)

-- Encryption leaves the length of the data, and every word behind the last whole block.
pub encrypt-drop :
    (b : Blowfish) (words : List ℕ) (size : ℕ) (mode : BlockcipherMode) (vec : ℕ)
    → (length (encrypt b words size mode vec) ≡ length words)
      × (drop (size / 8 * 2) (encrypt b words size mode vec) ≡ drop (size / 8 * 2) words)
unfolding encrypt
encrypt-drop b words size mode vec =
    let n : (size - size % 8) / 8 ≡ size / 8 = omega arith in
    rw n (each_block-drop (encrypt_block b mode) (size / 8) (start vec) words)
