-- ===== src/Sha/FipsMessage.antt =====
-- A digest of foundation/sha.c with the blocks and the padding of FIPS 180-4 gives its hash value.
use Prim.{tt}
use mathlib.Core.Path.{subst}
use native.Mathlib.Nat.{div-eq_of_eq-mul_left}
use foundation_lib.Prelude.{
  ℕ, zero, suc, ◌*◌, ◌/◌, ◌%◌, ◌^◌, ◌<◌, ◌≡◌, refl, sym, ap, ap₂, ◌∙◌, List, ◌∷◌, ◌++◌, arith,
  length, length-append, take, drop, replicate, take-append_le, drop-append_le, take_all, drop_all,
}
use foundation_lib.Prelude.Bytes.{Bytes, take-Bytes, drop-Bytes, append-Bytes, replicate-Bytes}
use foundation_lib.Sha.{Hash, Sha}
use foundation_lib.Sha.Chunks.{concat, AreBlocks, nil, cons, folded}
use foundation_lib.Sha.Finalize.{Hashed, filled_up}
use foundation_lib.Sha.Fips.{Standard, big_bytes, zeros, padded, fips_block, fips_blocks, fips_hash}
use foundation_lib.Sha.FipsBlocks.{Eight}

-- The code's digest has the blocks, the initial value, the compression and the padding of a standard.
pub record Implements (h : Hash) (f : Standard) : Type 0 where
  pub width : 0 < f.bits_of_word
  pub size : h.block_size ≡ 2 * f.bits_of_word
  pub start : h.initial ≡ f.start
  pub words : Eight f.bits_of_word f.start
  pub block :
      {state : List ℕ} (block : List ℕ)
      → Eight f.bits_of_word state
      → Bytes block
      → (h.compress state block ≡ fips_block f state block)
        × Eight f.bits_of_word (fips_block f state block)
  pub padding : (bytes : List ℕ) → filled_up h bytes ≡ padded (2 * f.bits_of_word) bytes

length-concat : {n : ℕ} {bs : List (List ℕ)} → AreBlocks n bs → length (concat bs) ≡ length bs * n
length-concat nil = omega arith
length-concat {n} {bs = b ∷ bs} (cons e es) =
    omega (arith, length-append b (concat bs), e, length-concat es)

big-Bytes : (n v : ℕ) → Bytes (big_bytes n v)
unfolding big_bytes
big-Bytes zero v = tt
big-Bytes (suc n) v = (omega arith, big-Bytes n v)

padded-Bytes : (size : ℕ) (bytes : List ℕ) → Bytes bytes → Bytes (padded size bytes)
unfolding padded
padded-Bytes size bytes b = append-Bytes bytes _ b (
    append-Bytes (0x80 ∷ replicate (zeros size (length bytes)) 0) _
      (omega arith, replicate-Bytes (zeros size (length bytes)))
      (big-Bytes (size / 8) (8 * length bytes % 2 ^ 64)))

module _ (h : Hash) (f : Standard) (same : Implements h f) where
  folded-fips_blocks :
      {bs : List (List ℕ)} {state : List ℕ}
      → AreBlocks h.block_size bs
      → Bytes (concat bs)
      → Eight f.bits_of_word state
      → folded h bs state ≡ fips_blocks f (length bs) state (concat bs)
  unfolding fips_blocks
  folded-fips_blocks nil b v = refl
  folded-fips_blocks {bs = x ∷ bs} {state} (cons e es) b v =
      let size = 2 * f.bits_of_word in
      let rest = concat bs in
      let long : length x ≡ size = e ∙ same.size in
      let first : take size (x ++ rest) ≡ x =
        take-append_le size x rest (omega arith) ∙ take_all size x (omega arith) in
      let others : drop size (x ++ rest) ≡ rest =
        drop-append_le size x rest (omega arith)
        ∙ ap (λ l. l ++ rest) (drop_all size x (omega arith)) in
      let (step, v') = same.block x v (subst Bytes first (take-Bytes size (x ++ rest) b)) in
      ap (folded h bs) step
      ∙ folded-fips_blocks es (subst Bytes others (drop-Bytes size (x ++ rest) b)) v'
      ∙ ap₂ (λ p q. fips_blocks f (length bs) (fips_block f state p) q) (sym first) (sym others)

  pub Hashed-fips_hash :
      {m : Sha} {bytes : List ℕ} → Hashed h m bytes → Bytes bytes → m.state ≡ fips_hash f bytes
  unfolding fips_hash
  Hashed-fips_hash {m} {bytes} hashed b =
      let size = 2 * f.bits_of_word in
      let message : concat hashed.blocks ≡ padded size bytes = hashed.joined ∙ same.padding bytes in
      let pos : 0 < size = omega (arith, same.width) in
      let count : length (padded size bytes) / size ≡ length hashed.blocks =
        div-eq_of_eq-mul_left pos (
          ap length (sym message)
          ∙ length-concat hashed.whole
          ∙ ap (λ n. length hashed.blocks * n) same.size) in
      hashed.folded_state
      ∙ ap (folded h hashed.blocks) same.start
      ∙ folded-fips_blocks hashed.whole (subst Bytes (sym message) (padded-Bytes size bytes b))
          same.words
      ∙ ap₂ (λ n l. fips_blocks f n f.start l) (sym count) message
